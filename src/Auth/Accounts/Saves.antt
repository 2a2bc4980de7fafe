-- ===== src/Auth/Accounts/Saves.antt =====
-- The requests on the accounts that save a row again leave its email alone, and the row sound.
use logistics_dispatch.Common.{
  Bool-cases, Option, Option-cases, Result, arith, err, false, inl, inr, none, ok, refl, some, sym,
  ℕ, ◌==◌, ◌||◌, ◌≡◌, ◌⊎◌,
}
use Prim.Native.String.{String}
use logistics_dispatch.Auth.Accounts.Rows.{IsSoundUser, UsersFit, find_first-found, resave-UsersFit}
use logistics_dispatch.Auth.Login.{check_login, login, login_checked}
use logistics_dispatch.Auth.Passwords.{
  forgot_password, reset_checked, reset_password, with_password, with_reset,
}
use logistics_dispatch.Auth.Registration.{
  check_token, mail_verification, marked_verified, resend_verification, verify_checked,
  verify_email, with_verification,
}
use logistics_dispatch.Auth.State.{AuthState, Draw, find_user_by_email}
use logistics_dispatch.Auth.Tokens.{Crypto, OwnedToken, of_password}
use logistics_dispatch.Http.Routes.{done}
use logistics_dispatch.Platform.{Platform, find, put}
use logistics_dispatch.Users.Entity.{AuthProvider, User, admin, provider_eq}
use logistics_dispatch.Users.Service.{update_user_name}
use logistics_dispatch.World.{World}
use mathlib.Core.Path.{subst}

module _ {p : Platform} (c : Crypto) (normalize : String → String) where
  abbrev pub AccountsFit : AuthState p → Type 0
  AccountsFit s = UsersFit normalize s.world.users

  -- The table is that before a save, or after the save of a row with the email that it had; nobody
  -- becomes an admin.
  abbrev pub Resaved : World p → World p → Type 0
  Resaved w w' =
      (w'.users ≡ w.users)
      ⊎ ((k : ℕ) × (u : User) × (r : User) × (find w.users k ≡ some u)
          × (r.id ≡ u.id)
          × (r.email ≡ u.email)
          × (IsSoundUser u → IsSoundUser r)
          × (r.role ≡ admin → u.role ≡ admin)
          × (w'.users ≡ put w.users r.id r))

  pub Resaved-fit :
      (w w' : World p) → Resaved w w' → UsersFit normalize w.users → UsersFit normalize w'.users
  Resaved-fit w w' (inl same) fit = subst (UsersFit normalize) (sym same) fit
  Resaved-fit w w' (inr (k, u, r, found, a, b, sound, role, e)) fit =
      subst (UsersFit normalize) (sym e)
        (resave-UsersFit normalize w.users k u r fit found a b (sound (fit.sound k u found)))

  pub mail_verification-Resaved :
      (d : Draw) (now k : ℕ) (u : User) (s : AuthState p)
      → find s.world.users k ≡ some u
      → u.is_email_verified ≡ false
      → Resaved s.world (mail_verification c d now u s).world
  unfolding mail_verification
  mail_verification-Resaved d now k u s found waits = inr (
    k,
    u,
    with_verification c d.salt (record { owner = u.id; secret = d.secret }) now u,
    found,
    refl,
    refl,
    (λ v. ground arith),
    (λ v. ground arith),
    ground arith,
  )

  pub resend-Resaved :
      (email : String) (d : Draw) (now : ℕ) (s : AuthState p)
      → AccountsFit s
      → Resaved s.world (resend_verification c normalize email d now s).world
  unfolding resend_verification
  resend-Resaved email d now s fit =
      let text = normalize (normalize email) in
      elim (Option-cases (find_user_by_email text s.world)) [
        | inl e ↦ inl (ground arith)
        | inr (u, e) ↦ elim (Bool-cases u.is_email_verified) [
          | inl done ↦ inl (ground arith)
          | inr waits ↦
              let found = find_first-found normalize s.world _ u fit e in
              let same : resend_verification c normalize email d now s
                  ≡ mail_verification c d now u s =
                ground arith in
              subst (λ x. Resaved s.world x.world) (sym same)
                (mail_verification-Resaved d now u.id u s found.0 waits)
        ]
      ]

  verify_checked-Resaved :
      (r : Result (Unit {0})) (now k : ℕ) (u : User) (s : AuthState p)
      → find s.world.users k ≡ some u
      → Resaved s.world (verify_checked c r now u s).1.world
  unfolding verify_checked
  verify_checked-Resaved (err e) now k u s found = inl refl
  verify_checked-Resaved (ok checked) now k u s found = inr (
    k,
    u,
    marked_verified now u,
    found,
    refl,
    refl,
    (λ v. ground arith),
    (λ v. ground arith),
    refl,
  )

  pub verify-Resaved :
      (t : Option OwnedToken) (now : ℕ) (s : AuthState p)
      → Resaved s.world (verify_email c t now s).1.world
  unfolding verify_email
  verify-Resaved none now s = inl refl
  verify-Resaved (some t) now s = elim (Option-cases (find s.world.users t.owner)) [
    | inl e ↦ inl (ground arith)
    | inr (u, e) ↦ elim (Bool-cases (t.owner == 0 || u.is_email_verified)) [
      | inl stop ↦ inl (ground arith)
      | inr go ↦
          let checks =
            check_token c u.email_verification_token_hash u.email_verification_expires_at t now in
          let same : (verify_email c (some t) now s).1 ≡ (verify_checked c checks now u s).1 =
            ground arith in
          subst (λ x. Resaved s.world x.world) (sym same)
            (verify_checked-Resaved checks now t.owner u s e)
    ]
  ]

  reset_checked-Resaved :
      (r : Result (Unit {0})) (salt password k : ℕ) (u : User) (s : AuthState p)
      → find s.world.users k ≡ some u
      → Resaved s.world (reset_checked c r salt password u s).1.world
  unfolding reset_checked
  reset_checked-Resaved (err e) salt password k u s found = inl refl
  reset_checked-Resaved (ok checked) salt password k u s found = inr (
    k,
    u,
    with_password (c.hash salt (of_password password)) u,
    found,
    refl,
    refl,
    (λ v. ground arith),
    (λ v. ground arith),
    refl,
  )

  pub reset-Resaved :
      (t : Option OwnedToken) (salt password now : ℕ) (s : AuthState p)
      → Resaved s.world (reset_password c t salt password now s).1.world
  unfolding reset_password
  reset-Resaved none salt password now s = inl refl
  reset-Resaved (some t) salt password now s = elim (Option-cases (find s.world.users t.owner)) [
    | inl e ↦ inl (ground arith)
    | inr (u, e) ↦ elim (Bool-cases (t.owner == 0)) [
      | inl stop ↦ inl (ground arith)
      | inr go ↦
          let checks =
            check_token c u.password_reset_token_hash u.password_reset_expires_at t now in
          let same : (reset_password c (some t) salt password now s).1
              ≡ (reset_checked c checks salt password u s).1 =
            ground arith in
          subst (λ x. Resaved s.world x.world) (sym same)
            (reset_checked-Resaved checks salt password t.owner u s e)
    ]
  ]

  pub forgot-Resaved :
      (email : String) (d : Draw) (now : ℕ) (s : AuthState p)
      → AccountsFit s
      → Resaved s.world (forgot_password c normalize email d now s).world
  unfolding forgot_password
  forgot-Resaved email d now s fit =
      elim (Option-cases (find_user_by_email (normalize email) s.world)) [
        | inl e ↦ inl (ground arith)
        | inr (u, e) ↦ elim (Bool-cases (provider_eq u.provider AuthProvider.local)) [
          | inr other ↦ inl (ground arith)
          | inl mine ↦ inr (
            u.id,
            u,
            with_reset c d.salt (record { owner = u.id; secret = d.secret }) now u,
            (find_first-found normalize s.world _ u fit e).0,
            refl,
            refl,
            (λ v. ground arith),
            (λ v. ground arith),
            ground arith,
          )
        ]
      ]

  login_checked-users :
      (r : Result (Unit {0})) (salt secret : ℕ) (u : User) (s : AuthState p)
      → (login_checked c r salt secret u s).1.world ≡ s.world
  unfolding login_checked
  login_checked-users (err e) salt secret u s = refl
  login_checked-users (ok checked) salt secret u s = refl

  pub login-users :
      (email : String) (password salt secret : ℕ) (s : AuthState p)
      → (login c normalize email password salt secret s).1.world ≡ s.world
  unfolding login
  login-users email password salt secret s =
      elim (Option-cases (find_user_by_email (normalize email) s.world)) [
        | inl e ↦ ground arith
        | inr (u, e) ↦
            ground (
              arith,
              login_checked-users (check_login c u.password_hash password u) salt secret u s,
            )
      ]

  pub rename-Resaved :
      (id : ℕ) (name : String) (w : World p) → Resaved w (update_user_name id name w).1
  unfolding update_user_name
  rename-Resaved id name w = elim (Option-cases (find w.users id)) [
    | inl e ↦ inl (ground arith)
    | inr (u, e) ↦ inr (
      id,
      u,
      record u { name = name },
      e,
      refl,
      refl,
      (λ v. ground arith),
      (λ v. ground arith),
      ground arith,
    )
  ]
