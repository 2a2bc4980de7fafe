-- ===== src/Throttler/Email.antt =====
-- The email in the key of a throttle (src/common/throttler/throttle-key.util.ts), under the prefix that
-- src/main.ts gives to every route.
use logistics_dispatch.Common.{
  Bool, CodePoints, Option, [], ap, arith, codes, false, not, refl, true, ◌&&◌, ◌++◌, ◌==◌, ◌∷◌,
  ◌≡◌,
}
use logistics_dispatch.Throttler.Key.{
  RequestLike, TextOps, email_sensitive_auth_routes, generate_throttle_key, get_email_identity_part,
  get_stable_route_path, has_codes, join_parts, key_parts, method_of, same_codes,
}

-- No space in `t` has `rest` behind it.
abbrev nowhere : CodePoints → CodePoints → Bool
nowhere rest [] = true
nowhere rest (x ∷ t) = not (x == 32 && same_codes rest t) && nowhere rest t

differs : (m rest t : CodePoints) → nowhere rest t ≡ true → same_codes (m ++ (32 ∷ rest)) t ≡ false
differs [] rest [] apart = refl
differs [] rest (x ∷ t) apart = ground arith
differs (c ∷ m) rest [] apart = refl
differs (c ∷ m) rest (x ∷ t) apart = ground (arith, differs m rest t)

-- `app.setGlobalPrefix`
abbrev pub global_prefix : CodePoints
global_prefix = codes "/api/v1"

not_sensitive :
    (m path : CodePoints)
    → has_codes email_sensitive_auth_routes (m ++ (32 ∷ (global_prefix ++ path))) ≡ false
not_sensitive m path =
    let rest = global_prefix ++ path in
    rw
      (
        differs m rest (codes "POST /auth/register") refl,
        differs m rest (codes "POST /auth/login") refl,
        differs m rest (codes "POST /auth/resend-verification-email") refl,
        differs m rest (codes "POST /auth/forgot-password") refl,
      )
      refl

module _ (o : TextOps) where
  no_part :
      (route_key : CodePoints) (email : Option CodePoints)
      → has_codes email_sensitive_auth_routes route_key ≡ false
      → get_email_identity_part o route_key email ≡ []
  unfolding get_email_identity_part
  no_part route_key email other = rw other refl

  same_method :
      (q : RequestLike) (email : Option CodePoints)
      → method_of o (record q { body_email = email }) ≡ method_of o q
  unfolding method_of
  same_method q email = refl

  same_path :
      (q : RequestLike) (email : Option CodePoints)
      → get_stable_route_path (record q { body_email = email }) ≡ get_stable_route_path q
  unfolding get_stable_route_path
  same_path q email = refl

  same_parts :
      (q : RequestLike) (path tracker name : CodePoints) (email : Option CodePoints)
      → get_stable_route_path q ≡ global_prefix ++ path
      → key_parts o (record q { body_email = email }) tracker name ≡ key_parts o q tracker name
  unfolding key_parts
  same_parts q path tracker name email prefixed =
      let m = method_of o q in
      let key = m ++ (32 ∷ get_stable_route_path q) in
      let other : has_codes email_sensitive_auth_routes key ≡ false =
        rw prefixed (not_sensitive m path) in
      rw
        (
          key_parts,
          same_method q email,
          same_path q email,
          no_part key email other,
          no_part key q.body_email other,
        )
        refl

  -- A request whose path starts with the prefix of the application is counted under a key that does not
  -- depend on the email of its body, for every method and every path behind the prefix.
  pub email_never_counts :
      (q : RequestLike) (path tracker name : CodePoints) (email : Option CodePoints)
      → get_stable_route_path q ≡ global_prefix ++ path
      → generate_throttle_key o (record q { body_email = email }) tracker name
        ≡ generate_throttle_key o q tracker name
  unfolding generate_throttle_key
  email_never_counts q path tracker name email prefixed =
      ap (λ parts. o.hash_value (join_parts parts)) (same_parts q path tracker name email prefixed)
