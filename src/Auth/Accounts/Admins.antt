-- ===== src/Auth/Accounts/Admins.antt =====
-- No request on the accounts makes an admin (src/auth/services/auth.service.ts and
-- src/users/users.service.ts).
-- Who is an admin in the second table is one in the first.
use logistics_dispatch.Common.{
  Bool-cases, Option-cases, ap, arith, inl, inr, refl, some, sym, ℕ, ◌∙◌, ◌≡◌, ◌≢◌,
}
use Prim.Native.String.{String}
use logistics_dispatch.Auth.Accounts.{
  AccountEvent, account_step, forgets, google_logs_in, logs_in, logs_out, promotes, refreshes,
  registers, renames, resends, resets, verifies,
}
use logistics_dispatch.Auth.Accounts.Invariant.{entered-world, promotes-Resaved}
use logistics_dispatch.Auth.Accounts.Rows.{UsersFit, find_first-found, saved_row}
use logistics_dispatch.Auth.Accounts.Saves.{
  AccountsFit, Resaved, forgot-Resaved, login-users, rename-Resaved, resend-Resaved, reset-Resaved,
  verify-Resaved,
}
use logistics_dispatch.Auth.Login.{
  GoogleAuthUser, enter_by_email, find_user_by_google, linked, login_with_google, new_google_user,
}
use logistics_dispatch.Auth.Passwords.{forgot_password, reset_password}
use logistics_dispatch.Auth.Registration.{
  RegisterDto, mail_verification, new_user, register, resend_verification, verify_email,
  with_verification,
}
use logistics_dispatch.Auth.State.{AuthState, Draw, find_user_by_email, save_user, set_world}
use logistics_dispatch.Auth.Tokens.{Crypto, OwnedToken, of_password}
use logistics_dispatch.Platform.{Platform, Table, find, put}
use logistics_dispatch.Users.Entity.{AuthProvider, User, admin, provider_eq}
use logistics_dispatch.Users.Service.{promote_to_driver, update_user_name}
use logistics_dispatch.World.{World}
use mathlib.Core.Path.{subst}

abbrev pub NoNewAdmin : {p : Platform} → Table p User → Table p User → Type 0
NoNewAdmin t after =
    (k : ℕ) (u : User)
    → find after k ≡ some u
    → u.role ≡ admin
    → ((v : User) × (find t k ≡ some v) × (v.role ≡ admin))

module _ {p : Platform} (c : Crypto) (normalize : String → String) where
  pub same-NoNewAdmin : (t : Table p User) → NoNewAdmin t t
  same-NoNewAdmin t k u here is = (u, here, is)

  -- A row with another role is saved.
  save-NoNewAdmin : (t : Table p User) (r : User) → r.role ≢ admin → NoNewAdmin t (put t r.id r)
  save-NoNewAdmin t r other k u here is = elim (saved_row normalize t r k u here) [
    | inl (e, same) ↦ absurd (other (sym (ap (λ x. x.role) same) ∙ is))
    | inr old ↦ (u, old, is)
  ]

  Resaved-NoNewAdmin :
      (w after : World p)
      → UsersFit normalize w.users
      → Resaved c normalize w after
      → NoNewAdmin w.users after.users
  Resaved-NoNewAdmin w after fit (inl same) =
      subst (NoNewAdmin w.users) (sym same) (same-NoNewAdmin w.users)
  Resaved-NoNewAdmin w after fit (inr (j, v, r, found, a, b, sound, role, e)) =
      subst (NoNewAdmin w.users) (sym e) resaved
    where
      resaved : NoNewAdmin w.users (put w.users r.id r)
      resaved k u here is = elim (saved_row normalize w.users r k u here) [
        | inr old ↦ (u, old, is)
        | inl (key, same) ↦
            let own : j ≡ k = sym (fit.keyed j v found) ∙ sym a ∙ key in
            (v, rw (sym own) found, role (sym (ap (λ x. x.role) same) ∙ is))
      ]

  pub trans-NoNewAdmin :
      (t x after : Table p User) → NoNewAdmin t x → NoNewAdmin x after → NoNewAdmin t after
  trans-NoNewAdmin t x after first then k u here is =
      let (v, found, is') = then k u here is in first k v found is'

  -- What the mail of a verification leaves of the table.
  mailed-users :
      (d : Draw) (now : ℕ) (u : User) (s : AuthState p)
      → (mail_verification c d now u s).world.users
        ≡ put s.world.users u.id
            (with_verification c d.salt (record { owner = u.id; secret = d.secret }) now u)
  unfolding mail_verification
  mailed-users d now u s = ground arith

  registers-NoNewAdmin :
      (dto : RegisterDto) (id password_salt : ℕ) (d : Draw) (now : ℕ) (s : AuthState p)
      → NoNewAdmin s.world.users (register c normalize dto id password_salt d now s).1.world.users
  unfolding register new_user with_verification
  registers-NoNewAdmin dto id password_salt d now s =
      let email = normalize dto.email in
      elim (Option-cases (find_user_by_email email s.world)) [
        | inr (x, e) ↦
            let same : (register c normalize dto id password_salt d now s).1 ≡ s = ground arith in
            rw same (same-NoNewAdmin s.world.users)
        | inl e ↦
            let u =
              new_user id dto.name email (c.hash password_salt (of_password dto.password)) now in
            let t : OwnedToken = record { owner = u.id; secret = d.secret } in
            let first = set_world (save_user u s.world) s in
            let made : (register c normalize dto id password_salt d now s).1
                ≡ mail_verification c d now u first =
              ground arith in
            let users = ap (λ x. x.world.users) made ∙ mailed-users d now u first in
            subst (NoNewAdmin s.world.users) (sym users) (
              trans-NoNewAdmin s.world.users (put s.world.users u.id u) _
                (save-NoNewAdmin s.world.users u (λ e'. ground arith))
                (save-NoNewAdmin (put s.world.users u.id u) (with_verification c d.salt t now u)
                  (λ e'. ground arith)))
      ]

  by_email-NoNewAdmin :
      (g : GoogleAuthUser) (id now salt secret : ℕ) (s : AuthState p)
      → AccountsFit c normalize s
      → NoNewAdmin s.world.users (enter_by_email c normalize g id now salt secret s).1.world.users
  unfolding enter_by_email
  by_email-NoNewAdmin g id now salt secret s fit =
      let email = normalize g.email in
      elim (Option-cases (find_user_by_email email s.world)) [
        | inl e ↦
            let u = new_google_user id g email now in
            let made : (enter_by_email c normalize g id now salt secret s).1.world
                ≡ save_user u s.world =
              ground (arith, entered-world c normalize salt secret u s) in
            subst (λ w. NoNewAdmin s.world.users w.users) (sym made)
              (save-NoNewAdmin s.world.users u (λ e'. ground arith))
        | inr (u, e) ↦ elim (Bool-cases (provider_eq u.provider AuthProvider.local)) [
          | inl mine ↦
              let same : (enter_by_email c normalize g id now salt secret s).1 ≡ s = ground arith in
              rw same (same-NoNewAdmin s.world.users)
          | inr other ↦
              let r = linked g now u in
              let made : (enter_by_email c normalize g id now salt secret s).1.world
                  ≡ save_user r s.world =
                ground (arith, entered-world c normalize salt secret r s) in
              let (found, _) = find_first-found normalize s.world _ u fit e in
              Resaved-NoNewAdmin s.world (enter_by_email c normalize g id now salt secret s).1.world
                fit
                (inr (
                  u.id,
                  u,
                  r,
                  found,
                  refl,
                  refl,
                  (λ v. ground arith),
                  (λ is. is),
                  ap (λ w. w.users) made,
                ))
        ]
      ]

  google-NoNewAdmin :
      (g : GoogleAuthUser) (id now salt secret : ℕ) (s : AuthState p)
      → AccountsFit c normalize s
      → NoNewAdmin s.world.users
          (login_with_google c normalize g id now salt secret s).1.world.users
  unfolding login_with_google
  google-NoNewAdmin g id now salt secret s fit =
      let x = (login_with_google c normalize g id now salt secret s).1 in
      elim (Option-cases (find_user_by_google g.google_id s.world)) [
        | inr (u, e) ↦
            let same : x.world ≡ s.world = ground arith in rw same (same-NoNewAdmin s.world.users)
        | inl e ↦ elim (Bool-cases g.email_verified) [
          | inr stop ↦ let same : x ≡ s = ground arith in rw same (same-NoNewAdmin s.world.users)
          | inl go ↦
              let same : x ≡ (enter_by_email c normalize g id now salt secret s).1 = ground arith in
              rw same (by_email-NoNewAdmin g id now salt secret s fit)
        ]
      ]

  pub account_step-NoNewAdmin :
      (e : AccountEvent) (s : AuthState p)
      → AccountsFit c normalize s
      → NoNewAdmin s.world.users (account_step c normalize e s).world.users
  unfolding account_step
  account_step-NoNewAdmin (registers dto id password_salt d now) s fit =
      registers-NoNewAdmin dto id password_salt d now s
  account_step-NoNewAdmin (verifies t now) s fit =
      Resaved-NoNewAdmin s.world (verify_email c t now s).1.world fit
        (verify-Resaved c normalize t now s)
  account_step-NoNewAdmin (resends email d now) s fit =
      Resaved-NoNewAdmin s.world (resend_verification c normalize email d now s).world fit
        (resend-Resaved c normalize email d now s fit)
  account_step-NoNewAdmin (logs_in email password salt secret) s fit =
      rw (login-users c normalize email password salt secret s) (same-NoNewAdmin s.world.users)
  account_step-NoNewAdmin (google_logs_in g id now salt secret) s fit =
      google-NoNewAdmin g id now salt secret s fit
  account_step-NoNewAdmin (refreshes t salt secret) s fit = same-NoNewAdmin s.world.users
  account_step-NoNewAdmin (logs_out user) s fit = same-NoNewAdmin s.world.users
  account_step-NoNewAdmin (forgets email d now) s fit =
      Resaved-NoNewAdmin s.world (forgot_password c normalize email d now s).world fit
        (forgot-Resaved c normalize email d now s fit)
  account_step-NoNewAdmin (resets t salt password now) s fit =
      Resaved-NoNewAdmin s.world (reset_password c t salt password now s).1.world fit
        (reset-Resaved c normalize t salt password now s)
  account_step-NoNewAdmin (renames id name) s fit =
      Resaved-NoNewAdmin s.world (update_user_name id name s.world).1 fit
        (rename-Resaved c normalize id name s.world)
  account_step-NoNewAdmin (promotes license_free user_id dto driver_id now) s fit =
      Resaved-NoNewAdmin s.world
        (promote_to_driver license_free user_id dto driver_id now s.world).1 fit
        (promotes-Resaved c normalize license_free user_id dto driver_id now s.world)
