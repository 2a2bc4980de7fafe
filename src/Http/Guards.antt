-- ===== src/Http/Guards.antt =====
-- src/auth/strategy/jwt.strategy.ts and src/auth/guards.
use logistics_dispatch.Common.{
  Bool, List, Option, Option-cases, Result, [], arith, err, false, forbidden, if◌then◌else◌, inl,
  inr, none, not, ok, refl, some, true, unauthorized, ◌||◌, ◌∷◌, ◌≡◌,
}
use logistics_dispatch.Auth.Tokens.{JwtPayload}
use logistics_dispatch.Platform.{Platform, find}
use logistics_dispatch.Users.Entity.{JwtUser, User, UserRole, role_eq}
use logistics_dispatch.World.{World}

-- `requiredRoles.includes(role)`
abbrev pub includes_role : List UserRole → UserRole → Bool
includes_role [] r = false
includes_role (s ∷ ss) r = role_eq s r || includes_role ss r

-- `RolesGuard.canActivate`; a route without roles is open to every user.
unfoldable pub can_activate : List UserRole → JwtUser → Bool
can_activate [] user = true
can_activate (r ∷ rs) user = includes_role (r ∷ rs) user.role

module _ {p : Platform} where
  -- `JwtStrategy.validate`: the role is that of the row and not of the token.
  unfoldable pub validate_jwt : JwtPayload → World p → Result JwtUser
  validate_jwt payload w = elim (find w.users payload.sub) [
    | none ↦ err unauthorized
    | some u ↦
        if not u.is_email_verified
        then err unauthorized
        else ok (record {
          user_id = u.id;
          email = u.email;
          role = u.role;
          driver_profile_id = payload.driver_profile_id;
        })
  ]

  -- `JwtAuthGuard` and then `RolesGuard`, where no payload is a token that is missing or does not verify.
  unfoldable pub authorize : List UserRole → Option JwtPayload → World p → Result JwtUser
  unfolding validate_jwt can_activate
  authorize roles none w = err unauthorized
  authorize roles (some payload) w = elim (validate_jwt payload w) [
    | err e ↦ err e
    | ok user ↦ if can_activate roles user then ok user else err forbidden
  ]

  -- The user is in the table under the id of the token, has a verified email, and has in the table one of
  -- the roles.
  abbrev pub IsAdmitted : List UserRole → Option JwtPayload → JwtUser → World p → Type 0
  IsAdmitted roles token user w =
      (t : JwtPayload) × (u : User) × (token ≡ some t)
      × (find w.users t.sub ≡ some u)
      × (u.is_email_verified ≡ true)
      × (user.user_id ≡ u.id)
      × (user.role ≡ u.role)
      × (can_activate roles user ≡ true)

  pub authorize-IsAdmitted :
      (roles : List UserRole) (token : Option JwtPayload) (user : JwtUser) (w : World p)
      → authorize roles token w ≡ ok user
      → IsAdmitted roles token user w
  unfolding authorize validate_jwt
  authorize-IsAdmitted roles none user w h = absurd (cc)
  authorize-IsAdmitted roles (some t) user w h = elim (Option-cases (find w.users t.sub)) [
    | inl e ↦ absurd (ground arith)
    | inr (u, e) ↦
        let known : u.is_email_verified ≡ true = ground arith in
        (t, u, refl, e, known, ground arith, ground arith, ground arith)
  ]
