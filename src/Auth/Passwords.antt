-- ===== src/Auth/Passwords.antt =====
-- src/auth/services/auth.service.ts: `forgotPassword` and `resetPassword`.
use logistics_dispatch.Common.{
  Option, Result, err, if◌then◌else◌, none, not, ok, some, unauthorized, ℕ, ◌+◌, ◌==◌,
}
use Prim.Native.String.{String}
use logistics_dispatch.Auth.Registration.{check_token}
use logistics_dispatch.Auth.State.{
  AuthState, Draw, find_user_by_email, reset_mail, save_user, send_mail, set_world, token_ttl_ms,
}
use logistics_dispatch.Auth.Tokens.{Crypto, OwnedToken, of_password, of_token}
use logistics_dispatch.Platform.{Platform, find}
use logistics_dispatch.Users.Entity.{AuthProvider, User, provider_eq}

-- The row after `resetPassword`.
unfoldable pub with_password : ℕ → User → User
with_password password_hash u = record u {
  password_hash = some password_hash;
  password_reset_token_hash = none;
  password_reset_expires_at = none;
}

module _ (c : Crypto) where
  -- The row with the hash of the token `t`.
  unfoldable pub with_reset : ℕ → OwnedToken → ℕ → User → User
  with_reset salt t now u = record u {
    password_reset_token_hash = some (c.hash salt (of_token t));
    password_reset_expires_at = some (now + token_ttl_ms);
  }

module _ {p : Platform} (c : Crypto) where
  -- `createPasswordResetToken`, and the mail with it.
  unfoldable pub mail_reset : Draw → ℕ → User → AuthState p → AuthState p
  unfolding with_reset
  mail_reset d now u s =
      let t : OwnedToken = record { owner = u.id; secret = d.secret } in
      send_mail d.sent (reset_mail u.email t)
        (set_world (save_user (with_reset c d.salt t now u) s.world) s)

  -- The one response tells nothing of the account.
  unfoldable pub forgot_password : (String → String) → String → Draw → ℕ → AuthState p → AuthState p
  unfolding mail_reset
  forgot_password normalize email d now s = elim (find_user_by_email (normalize email) s.world) [
    | none ↦ s
    | some u ↦ if not (provider_eq u.provider AuthProvider.local) then s else mail_reset d now u s
  ]

  unfoldable pub reset_checked :
      Result (Unit {0}) → ℕ → ℕ → User → AuthState p → Result (Unit {0}) × AuthState p
  unfolding with_password
  reset_checked (err e) salt password u s = (err e, s)
  reset_checked (ok checked) salt password u s = (
    ok tt,
    set_world (save_user (with_password (c.hash salt (of_password password)) u) s.world) s,
  )

  -- `resetPassword`, where no token, or an empty one, is none.
  unfoldable pub reset_password :
      Option OwnedToken → ℕ → ℕ → ℕ → AuthState p → Result (Unit {0}) × AuthState p
  unfolding check_token reset_checked
  reset_password none salt password now s = (err unauthorized, s)
  reset_password (some t) salt password now s =
      if t.owner == 0 then (err unauthorized, s) else elim (find s.world.users t.owner) [
        | none ↦ (err unauthorized, s)
        | some u ↦
            reset_checked
              (check_token c u.password_reset_token_hash u.password_reset_expires_at t now) salt
              password u s
      ]
