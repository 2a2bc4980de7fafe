-- ===== src/Examples/Spoof.antt =====
-- The theorems on the keys of the throttles, with a hash that writes numbers in unary.
use logistics_dispatch.Common.{
  CodePoints, [], ap, arith, codes, length, none, refl, some, suc, sym, zero, ℕ, ◌++◌, ◌<◌, ◌∷◌,
  ◌≡◌, ◌≢◌,
}
use Prim.Native.String.{String}
use logistics_dispatch.Examples.Throttle.{fresh, memory_redis, replied_kept, two_a_minute}
use logistics_dispatch.Throttler.Email.{email_never_counts, global_prefix}
use logistics_dispatch.Throttler.Key.{
  RequestLike, TextOps, generate_throttle_key, get_stable_route_path, text_before,
}
use logistics_dispatch.Throttler.Requests.{let_through}
use logistics_dispatch.Throttler.Storage.{replied}
use logistics_dispatch.Throttler.Unblocked.{Try, spoofing_passes, visit_of}

abbrev digits : ℕ → String → String
digits zero s = String.◌∷◌ "b" s
digits (suc n) s = String.◌∷◌ "a" (digits n s)

abbrev head : CodePoints → ℕ
head [] = 0
head (x ∷ xs) = x

abbrev first : String → ℕ
first s = head (codes s)

starts_differ : (s t : String) → String.◌∷◌ "b" s ≢ String.◌∷◌ "a" t
starts_differ s t e = apart (ap first e)
  where
    apart : ◌≢◌ {A = ℕ} 98 97
    apart h = omega arith

digits_inj : (m n : ℕ) (s t : String) → digits m s ≡ digits n t → (m ≡ n) × (s ≡ t)
digits_inj zero zero s t e = (refl, cc)
digits_inj zero (suc n) s t e = absurd (starts_differ s (digits n t) e)
digits_inj (suc m) zero s t e = absurd (starts_differ t (digits m s) (sym e))
digits_inj (suc m) (suc n) s t e = let (same, rest) = digits_inj m n s t (cc) in (ap suc same, rest)

abbrev unary : CodePoints → String
unary [] = String.[]
unary (x ∷ xs) = digits x (unary xs)

not_empty : (n : ℕ) (s : String) → digits n s ≢ String.[]
not_empty zero s e = cc
not_empty (suc n) s e = cc

unary_inj : (xs ys : CodePoints) → unary xs ≡ unary ys → xs ≡ ys
unary_inj [] [] e = refl
unary_inj [] (y ∷ ys) e = absurd (not_empty y (unary ys) (sym e))
unary_inj (x ∷ xs) [] e = absurd (not_empty x (unary xs) e)
unary_inj (x ∷ xs) (y ∷ ys) e =
    let (same, rest) = digits_inj x y (unary xs) (unary ys) e in
    let same_tail = unary_inj xs ys rest in cc

abbrev unary_ops : TextOps
unary_ops = record { to_upper_case = λ s. s; to_lower_case = λ s. s; hash_value = unary }

abbrev attempt : RequestLike
attempt = record {
  method = some (codes "POST");
  base_url = none;
  path = some (codes "/api/v1/auth/login");
  url = some (codes "/api/v1/auth/login");
  route_path = some (codes "/api/v1/auth/login");
  body_email = some (codes "eve@mail.com");
  forwarded_for = none;
  ips = [];
  ip = some (codes "10.0.0.1");
  remote_address = none;
}

abbrev try_of : CodePoints → ℕ → Try
try_of header at = record { header = header; at = at; reply = replied }

longer : (s t : CodePoints) → length s < length t → t ≢ s
longer s t more e = let same : length t ≡ length s = ap length e in omega arith

-- Three tries where the throttle lets two a minute through.
spoofing_passes_example :
    let_through memory_redis two_a_minute unary_ops
      (visit_of memory_redis two_a_minute unary_ops attempt (try_of (codes "a") 10)
        ∷ visit_of memory_redis two_a_minute unary_ops attempt (try_of (codes "bb") 20)
        ∷ visit_of memory_redis two_a_minute unary_ops attempt (try_of (codes "ccc") 30)
        ∷ [])
      fresh
    ≡ 3
spoofing_passes_example =
    spoofing_passes memory_redis two_a_minute unary_ops attempt
      (try_of (codes "a") 10 ∷ try_of (codes "bb") 20 ∷ try_of (codes "ccc") 30 ∷ []) 0 fresh
      unary_inj (omega arith) (omega arith) (omega arith) (λ x. refl)
      (
        omega arith,
        replied_kept,
        (omega arith, ((refl, refl), tt)),
        (
          longer (codes "a") (codes "bb") (omega arith),
          (longer (codes "a") (codes "ccc") (omega arith), tt),
        ),
        (
          omega arith,
          replied_kept,
          (omega arith, ((refl, refl), ((refl, refl), tt))),
          (longer (codes "bb") (codes "ccc") (omega arith), tt),
          (
            omega arith,
            replied_kept,
            (omega arith, ((refl, refl), ((refl, refl), ((refl, refl), tt)))),
            tt,
            tt,
          ),
        ),
      )

prefixed : get_stable_route_path attempt ≡ global_prefix ++ codes "/auth/login"
unfolding get_stable_route_path text_before
prefixed = refl

email_never_counts_example :
    generate_throttle_key unary_ops
      (record attempt { body_email = some (codes "mallory@mail.com") })
      (codes "a")
      (codes "default")
    ≡ generate_throttle_key unary_ops attempt (codes "a") (codes "default")
email_never_counts_example =
    email_never_counts unary_ops attempt (codes "/auth/login") (codes "a") (codes "default")
      (some (codes "mallory@mail.com")) prefixed
