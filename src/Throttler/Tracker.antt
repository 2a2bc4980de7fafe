-- ===== src/Throttler/Tracker.antt =====
-- The header `x-forwarded-for` as the tracker of a request (src/common/throttler/throttle-key.util.ts).
use logistics_dispatch.Common.{
  All, CodePoints, List, [], ap, arith, false, inl, inr, length, refl, some, ℕ, ◌++◌, ◌<◌, ◌==◌,
  ◌∙◌, ◌∷◌, ◌≡◌, ◌⊎◌,
}
use logistics_dispatch.Throttler.Key.{
  RequestLike, get_client_tracker, is_space, join_parts, text_before, trim, trim_end, trim_start,
}
use mathlib.Core.List.{append_cancel_left}

-- Not empty, and with no comma and no white space.
abbrev pub IsPlain : CodePoints → Type 0
IsPlain h = (0 < length h) × All (λ c. (c == b',' ≡ false) × (is_space c ≡ false)) h

abbrev pub spoofed : RequestLike → CodePoints → RequestLike
spoofed q h = record q { forwarded_for = some h }

text_before-plain :
    (h : CodePoints)
    → All (λ c. (c == b',' ≡ false) × (is_space c ≡ false)) h
    → text_before b',' h ≡ h
unfolding text_before
text_before-plain [] plain = refl
text_before-plain (c ∷ cs) plain = ground (arith, text_before-plain cs plain.1)

trim_end-plain :
    (h : CodePoints) → All (λ c. (c == b',' ≡ false) × (is_space c ≡ false)) h → trim_end h ≡ h
unfolding trim_end
trim_end-plain [] plain = refl
trim_end-plain (c ∷ []) plain = ground arith
trim_end-plain (c ∷ d ∷ cs) plain = rw (trim_end-plain (d ∷ cs) plain.1) refl

trim-plain : (h : CodePoints) → IsPlain h → trim h ≡ h
unfolding trim
trim-plain [] plain = refl
trim-plain (c ∷ cs) plain =
    let here : trim_start (c ∷ cs) ≡ c ∷ cs = rw (plain.1.0.1, trim_start) refl in
    ap trim_end here ∙ trim_end-plain (c ∷ cs) plain.1

-- A client chooses its tracker.
pub tracker-spoofed :
    (q : RequestLike) (h : CodePoints) → IsPlain h → get_client_tracker (spoofed q h) ≡ h
unfolding get_client_tracker
tracker-spoofed q [] plain = absurd (omega arith)
tracker-spoofed q (c ∷ cs) plain =
    ap trim (text_before-plain (c ∷ cs) plain.1) ∙ trim-plain (c ∷ cs) plain

pub join_parts_cancel :
    (a : CodePoints) (ps qs : List CodePoints)
    → 0 < length (join_parts ps)
    → 0 < length (join_parts qs)
    → join_parts (a ∷ ps) ≡ join_parts (a ∷ qs)
    → join_parts ps ≡ join_parts qs
join_parts_cancel [] ps qs m n e = e
join_parts_cancel (c ∷ cs) ps qs m n e = elim (List-cases (join_parts ps)) [
  | inl f ↦ absurd (ground arith)
  | inr (x, xs, f) ↦ elim (List-cases (join_parts qs)) [
    | inl g ↦ absurd (ground arith)
    | inr (y, ys, g) ↦
        let e' : (c ∷ cs) ++ (b'|' ∷ x ∷ xs) ≡ (c ∷ cs) ++ (b'|' ∷ y ∷ ys) = ground arith in
        let e'' = append_cancel_left (c ∷ cs) _ _ e' in ground arith
  ]
]
  where
    List-cases : (s : CodePoints) → (s ≡ []) ⊎ ((x : ℕ) × (xs : CodePoints) × (s ≡ x ∷ xs))
    List-cases [] = inl refl
    List-cases (x ∷ xs) = inr (x, xs, refl)
