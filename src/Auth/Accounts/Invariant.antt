-- ===== src/Auth/Accounts/Invariant.antt =====
-- Every request on the accounts keeps the table of users as it should be.
use logistics_dispatch.Common.{
  ==_refl, Bool, Bool-cases, List, Option-cases, [], arith, inl, inr, is_known, not, refl,
  same_text, same_text_iff, sym, ℕ, ◌||◌, ◌∷◌, ◌≡◌,
}
use Prim.Native.String.{String}
use logistics_dispatch.Auth.Accounts.{
  AccountEvent, account_run, account_step, forgets, google_logs_in, logs_in, logs_out, promotes,
  refreshes, registers, renames, resends, resets, verifies,
}
use logistics_dispatch.Auth.Accounts.Rows.{
  IsSoundUser, UsersFit, find_first-found, find_first-nobody, resave-UsersFit, save-UsersFit,
}
use logistics_dispatch.Auth.Accounts.Saves.{
  AccountsFit, Resaved, Resaved-fit, forgot-Resaved, login-users, mail_verification-Resaved,
  rename-Resaved, resend-Resaved, reset-Resaved, verify-Resaved,
}
use logistics_dispatch.Auth.Login.{
  GoogleAuthUser, enter, enter_by_email, find_user_by_google, linked, login_with_google,
  new_google_user,
}
use logistics_dispatch.Auth.Passwords.{forgot_password, reset_password}
use logistics_dispatch.Auth.Registration.{
  RegisterDto, mail_verification, new_user, register, resend_verification, verify_email,
}
use logistics_dispatch.Auth.State.{AuthState, Draw, find_user_by_email, save_user, set_world}
use logistics_dispatch.Auth.Tokens.{Crypto, of_password}
use logistics_dispatch.Drivers.Service.{find_driver_of}
use logistics_dispatch.Platform.{Platform, find, find-put}
use logistics_dispatch.Users.Entity.{AuthProvider, User, admin, driver, provider_eq, role_eq}
use logistics_dispatch.Users.Service.{PromoteToDriverDto, promote_to_driver, update_user_name}
use logistics_dispatch.World.{World}
use mathlib.Core.Path.{subst}

module _ {p : Platform} (c : Crypto) (normalize : String → String) where
  -- A registration whose email nobody has saves the new row, and saves it again with its token.
  pub registered-fit :
      (dto : RegisterDto) (id password_salt : ℕ) (d : Draw) (now : ℕ) (s : AuthState p)
      → ((e : String) → normalize (normalize e) ≡ normalize e)
      → AccountsFit c normalize s
      → AccountsFit c normalize (register c normalize dto id password_salt d now s).1
  unfolding register
  registered-fit dto id password_salt d now s idem fit =
      let email = normalize dto.email in
      let u = new_user id dto.name email (c.hash password_salt (of_password dto.password)) now in
      elim (Option-cases (find_user_by_email email s.world)) [
        | inr (x, e) ↦
            let same : (register c normalize dto id password_salt d now s).1 ≡ s = ground arith in
            subst (λ x. AccountsFit c normalize x) (sym same) fit
        | inl e ↦
            let first = set_world (save_user u s.world) s in
            let made : (register c normalize dto id password_salt d now s).1
                ≡ mail_verification c d now u first =
              ground arith in
            let saved : AccountsFit c normalize first =
              save-UsersFit normalize s.world.users u fit (new_user-IsSound id dto.name email _ now)
                (idem dto.email)
                (λ k v here mail. absurd (
                  ground (
                    arith,
                    find_first-nobody normalize s.world (λ x. same_text x.email email) k v e here,
                    (same_text_iff v.email email).1 mail,
                  ))) in
            subst (λ x. AccountsFit c normalize x) (sym made)
              (Resaved-fit c normalize first.world (mail_verification c d now u first).world
                (mail_verification-Resaved c normalize d now id u first
                  (ground (arith, find-put s.world.users id id u, ==_refl id)) refl)
                saved)
      ]
    where
      new_user-IsSound :
          (id : ℕ) (name email : String) (h now : ℕ) → IsSoundUser (new_user id name email h now)
      new_user-IsSound id name email h now = ground arith

  pub entered-world :
      (salt secret : ℕ) (u : User) (s : AuthState p)
      → (enter c salt secret u s).1.world ≡ save_user u s.world
  unfolding enter
  entered-world salt secret u s = refl

  -- A user of Google enters with a row of an account that is not local, or with a new one whose email
  -- nobody has.
  by_email-fit :
      (g : GoogleAuthUser) (id now salt secret : ℕ) (s : AuthState p)
      → ((e : String) → normalize (normalize e) ≡ normalize e)
      → AccountsFit c normalize s
      → AccountsFit c normalize (enter_by_email c normalize g id now salt secret s).1
  unfolding enter_by_email
  by_email-fit g id now salt secret s idem fit =
      let email = normalize g.email in
      elim (Option-cases (find_user_by_email email s.world)) [
        | inl e ↦
            let u = new_google_user id g email now in
            let made : (enter_by_email c normalize g id now salt secret s).1.world
                ≡ save_user u s.world =
              ground (arith, entered-world salt secret u s) in
            subst (λ w. UsersFit normalize w.users) (sym made)
              (save-UsersFit normalize s.world.users u fit (ground arith) (idem g.email)
                (λ k v here mail. absurd (
                  ground (
                    arith,
                    find_first-nobody normalize s.world (λ x. same_text x.email email) k v e here,
                    (same_text_iff v.email email).1 mail,
                  ))))
        | inr (u, e) ↦ elim (Bool-cases (provider_eq u.provider AuthProvider.local)) [
          | inl mine ↦
              let same : (enter_by_email c normalize g id now salt secret s).1 ≡ s = ground arith in
              subst (λ x. AccountsFit c normalize x) (sym same) fit
          | inr other ↦
              let r = linked g now u in
              let made : (enter_by_email c normalize g id now salt secret s).1.world
                  ≡ save_user r s.world =
                ground (arith, entered-world salt secret r s) in
              let (found, _) = find_first-found normalize s.world _ u fit e in
              subst (λ w. UsersFit normalize w.users) (sym made)
                (resave-UsersFit normalize s.world.users u.id u r fit found refl refl
                  (ground (arith, fit.sound u.id u found)))
        ]
      ]

  google-fit :
      (g : GoogleAuthUser) (id now salt secret : ℕ) (s : AuthState p)
      → ((e : String) → normalize (normalize e) ≡ normalize e)
      → AccountsFit c normalize s
      → AccountsFit c normalize (login_with_google c normalize g id now salt secret s).1
  unfolding login_with_google
  google-fit g id now salt secret s idem fit =
      elim (Option-cases (find_user_by_google g.google_id s.world)) [
        | inr (u, e) ↦
            let same : (login_with_google c normalize g id now salt secret s).1.world ≡ s.world =
              ground arith in
            subst (λ w. UsersFit normalize w.users) (sym same) fit
        | inl e ↦ elim (Bool-cases g.email_verified) [
          | inr stop ↦
              let same : (login_with_google c normalize g id now salt secret s).1 ≡ s =
                ground arith in
              subst (λ x. AccountsFit c normalize x) (sym same) fit
          | inl go ↦
              let same : (login_with_google c normalize g id now salt secret s).1
                  ≡ (enter_by_email c normalize g id now salt secret s).1 =
                ground arith in
              subst (λ x. AccountsFit c normalize x) (sym same)
                (by_email-fit g id now salt secret s idem fit)
        ]
      ]

  pub promotes-Resaved :
      (license_free : Bool) (user_id : ℕ) (dto : PromoteToDriverDto) (driver_id now : ℕ)
      (w : World p)
      → Resaved c normalize w (promote_to_driver license_free user_id dto driver_id now w).1
  unfolding promote_to_driver
  promotes-Resaved license_free user_id dto driver_id now w =
      elim (Option-cases (find w.users user_id)) [
        | inl e ↦ inl (ground arith)
        | inr (u, e) ↦
            elim (Bool-cases (
              role_eq u.role driver
              || role_eq u.role admin
              || is_known (find_driver_of u.id w)
              || not license_free)) [
                | inl stop ↦ inl (ground arith)
                | inr go ↦ inr (
                  user_id,
                  u,
                  record u { role = driver },
                  e,
                  refl,
                  refl,
                  (λ v. ground arith),
                  (λ v. ground arith),
                  ground arith,
                )
              ]
      ]

  -- Every request on the accounts keeps the table.
  pub account_step-fit :
      (e : AccountEvent) (s : AuthState p)
      → ((e : String) → normalize (normalize e) ≡ normalize e)
      → AccountsFit c normalize s
      → AccountsFit c normalize (account_step c normalize e s)
  unfolding account_step
  account_step-fit (registers dto id password_salt d now) s idem fit =
      registered-fit dto id password_salt d now s idem fit
  account_step-fit (verifies t now) s idem fit =
      Resaved-fit c normalize s.world (verify_email c t now s).1.world
        (verify-Resaved c normalize t now s) fit
  account_step-fit (resends email d now) s idem fit =
      Resaved-fit c normalize s.world (resend_verification c normalize email d now s).world
        (resend-Resaved c normalize email d now s fit) fit
  account_step-fit (logs_in email password salt secret) s idem fit =
      rw (login-users c normalize email password salt secret s) fit
  account_step-fit (google_logs_in g id now salt secret) s idem fit =
      google-fit g id now salt secret s idem fit
  account_step-fit (refreshes t salt secret) s idem fit = fit
  account_step-fit (logs_out user) s idem fit = fit
  account_step-fit (forgets email d now) s idem fit =
      Resaved-fit c normalize s.world (forgot_password c normalize email d now s).world
        (forgot-Resaved c normalize email d now s fit) fit
  account_step-fit (resets t salt password now) s idem fit =
      Resaved-fit c normalize s.world (reset_password c t salt password now s).1.world
        (reset-Resaved c normalize t salt password now s) fit
  account_step-fit (renames id name) s idem fit =
      Resaved-fit c normalize s.world (update_user_name id name s.world).1
        (rename-Resaved c normalize id name s.world) fit
  account_step-fit (promotes license_free user_id dto driver_id now) s idem fit =
      Resaved-fit c normalize s.world
        (promote_to_driver license_free user_id dto driver_id now s.world).1
        (promotes-Resaved license_free user_id dto driver_id now s.world) fit

  -- If `normalize` is idempotent and the table of users is as it should be, then it is so after any
  -- sequence of requests on the accounts: no two users have the same email, every email is in its normal
  -- form, a user with a password login has its hash, a user of Google a verified email, and no token
  -- waits for an email that is verified.
  pub account_run-fit :
      (es : List AccountEvent) (s : AuthState p)
      → ((e : String) → normalize (normalize e) ≡ normalize e)
      → AccountsFit c normalize s
      → AccountsFit c normalize (account_run c normalize es s)
  unfolding account_run
  account_run-fit [] s idem fit = fit
  account_run-fit (e ∷ es) s idem fit =
      account_run-fit es (account_step c normalize e s) idem (account_step-fit e s idem fit)
