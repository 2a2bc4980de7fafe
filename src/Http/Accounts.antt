-- ===== src/Http/Accounts.antt =====
-- src/auth/controllers/auth.controller.ts: its routes behind their guards, without the limits of
-- @Throttle. The bodies are valid ones; what a handler draws comes last. The guard of Google, which is
-- passport's, gives the profile that Google sends, or none.
use logistics_dispatch.Common.{Option, Result, [], err, none, ok, some, unauthorized, ℕ, ◌∷◌}
use Prim.Native.String.{String}
use logistics_dispatch.Auth.Login.{Profile, login, login_with_google, validate_google}
use logistics_dispatch.Auth.Passwords.{forgot_password, reset_password}
use logistics_dispatch.Auth.Registration.{RegisterDto, register, resend_verification, verify_email}
use logistics_dispatch.Auth.State.{AuthState, Draw}
use logistics_dispatch.Auth.Tokens.{Crypto, JwtPayload, OwnedToken, logout, refresh}
use logistics_dispatch.Http.Guards.{authorize}
use logistics_dispatch.Http.Routes.{done}
use logistics_dispatch.Platform.{Platform}
use logistics_dispatch.Throttler.Config.{Limits, ThrottleConfig}
use logistics_dispatch.Users.Entity.{admin}

pub data PublicRequest : Type 0 where
  post_register : RegisterDto → ℕ → ℕ → Draw → ℕ → PublicRequest
  post_login : String → ℕ → ℕ → ℕ → PublicRequest
  -- `POST` and `GET /auth/verify-email`
  post_verify_email get_verify_email : Option OwnedToken → ℕ → PublicRequest
  post_resend_verification_email : String → Draw → ℕ → PublicRequest
  post_forgot_password : String → Draw → ℕ → PublicRequest
  post_reset_password : Option OwnedToken → ℕ → ℕ → ℕ → PublicRequest
  get_google : PublicRequest
  get_google_callback : Option Profile → ℕ → ℕ → ℕ → ℕ → PublicRequest
  post_refresh : Option OwnedToken → ℕ → ℕ → PublicRequest

-- The routes with `@Public()`, and those that ask for a token.
pub data AuthRequest : Type 0 where
  opens : PublicRequest → AuthRequest
  post_logout get_admin_ping : AuthRequest

-- The throttle of a public route: its own, or that of the application.
unfoldable pub limits_for : ThrottleConfig → PublicRequest → Limits
limits_for cfg (post_register dto id salt d now) = cfg.register
limits_for cfg (post_login email password salt secret) = cfg.login
limits_for cfg (post_resend_verification_email email d now) = cfg.resend_verification_email
limits_for cfg (post_forgot_password email d now) = cfg.forgot_password
limits_for cfg (post_refresh token salt secret) = cfg.refresh
limits_for cfg _ = cfg.global

module _ {p : Platform} (c : Crypto) (normalize local_part : String → String) where
  -- The guard of Google, and then `loginWithGoogle`.
  unfoldable pub google_callback :
      Option Profile → ℕ → ℕ → ℕ → ℕ → AuthState p → Result (Unit {0}) × AuthState p
  unfolding validate_google login_with_google
  google_callback none id now salt secret s = (err unauthorized, s)
  google_callback (some profile) id now salt secret s =
      elim (validate_google normalize local_part profile) [
        | err e ↦ (err e, s)
        | ok g ↦ let x = login_with_google c normalize g id now salt secret s in (done x.0, x.1)
      ]

  -- The methods of `AuthController` that are public.
  unfoldable pub call_public : PublicRequest → AuthState p → Result (Unit {0}) × AuthState p
  unfolding register login verify_email resend_verification forgot_password reset_password
      google_callback refresh
  call_public (post_register dto id password_salt d now) s =
      let x = register c normalize dto id password_salt d now s in (done x.0, x.1)
  call_public (post_login email password salt secret) s =
      let x = login c normalize email password salt secret s in (done x.0, x.1)
  call_public (post_verify_email token now) s =
      let x = verify_email c token now s in (done x.0, x.1)
  call_public (get_verify_email token now) s = let x = verify_email c token now s in (done x.0, x.1)
  call_public (post_resend_verification_email email d now) s =
      (ok tt, resend_verification c normalize email d now s)
  call_public (post_forgot_password email d now) s =
      (ok tt, forgot_password c normalize email d now s)
  call_public (post_reset_password token salt password now) s =
      reset_password c token salt password now s
  call_public get_google s = (ok tt, s)
  call_public (get_google_callback profile id now salt secret) s =
      google_callback profile id now salt secret s
  call_public (post_refresh token salt secret) s =
      let x = refresh c salt secret token s.world s.keys in (done x.0, record s { keys = x.1 })

  unfoldable pub auth_request :
      Option JwtPayload → AuthRequest → AuthState p → Result (Unit {0}) × AuthState p
  unfolding authorize logout call_public
  auth_request token (opens r) s = call_public r s
  auth_request token post_logout s = elim (authorize [] token s.world) [
    | err e ↦ (err e, s)
    | ok user ↦ (ok tt, record s { keys = logout user s.keys })
  ]
  auth_request token get_admin_ping s = elim (authorize (admin ∷ []) token s.world) [
    | err e ↦ (err e, s)
    | ok user ↦ (ok tt, s)
  ]
