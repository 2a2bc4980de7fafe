-- ===== src/Auth/Registration.antt =====
-- src/auth/services/auth.service.ts: `register`, `verifyEmail` and `resendVerificationEmail`.
use logistics_dispatch.Common.{
  Option, Result, conflict, err, false, if◌then◌else◌, is_known, ltb, none, not, ok, some, throw_if,
  true, unauthorized, ℕ, ◌+◌, ◌==◌, ◌>>◌,
}
use Prim.Native.String.{String}
use logistics_dispatch.Auth.State.{
  AuthState, Draw, find_user_by_email, save_user, send_mail, set_world, token_ttl_ms,
  verification_mail,
}
use logistics_dispatch.Auth.Tokens.{AuthResponse, Crypto, OwnedToken, of_password, of_token}
use logistics_dispatch.Platform.{Platform, find}
use logistics_dispatch.Users.Entity.{AuthProvider, User, customer}

pub record RegisterDto : Type 0 where
  pub name : String
  pub email : String
  pub password : ℕ

-- The row that `userRepo.create` builds.
unfoldable pub new_user : ℕ → String → String → ℕ → ℕ → User
new_user id name email password_hash now = record {
  id = id;
  name = name;
  email = email;
  password_hash = some password_hash;
  role = customer;
  google_id = none;
  provider = AuthProvider.local;
  is_email_verified = false;
  email_verification_token_hash = none;
  email_verification_expires_at = none;
  email_verified_at = none;
  password_reset_token_hash = none;
  password_reset_expires_at = none;
  created_at = now;
}

-- The response to a registration, which has no tokens.
unfoldable pub registration_response : User → AuthResponse
registration_response u = record {
  id = u.id;
  name = u.name;
  email = u.email;
  role = u.role;
  provider = u.provider;
  is_email_verified = u.is_email_verified;
  email_verified_at = u.email_verified_at;
  tokens = none;
  email_verification_required = true;
}

-- The row after `verifyEmail`.
unfoldable pub marked_verified : ℕ → User → User
marked_verified now u = record u {
  is_email_verified = true;
  email_verified_at = some now;
  email_verification_token_hash = none;
  email_verification_expires_at = none;
}

-- The messages of `verifyEmail`.
pub data VerifyReply : Type 0 where
  already_verified verified_now : VerifyReply

module _ (c : Crypto) where
  -- The row with the hash of the token `t`.
  unfoldable pub with_verification : ℕ → OwnedToken → ℕ → User → User
  with_verification salt t now u = record u {
    email_verification_token_hash = some (c.hash salt (of_token t));
    email_verification_expires_at = some (now + token_ttl_ms);
  }

  -- The checks on the hash and the time that are kept with a token.
  unfoldable pub check_token : Option ℕ → Option ℕ → OwnedToken → ℕ → Result (Unit {0})
  check_token none expires t now = err unauthorized
  check_token (some kept) none t now = err unauthorized
  check_token (some kept) (some expires) t now = do
    throw_if (ltb expires now) unauthorized
    throw_if (not (c.verify_hash kept (of_token t))) unauthorized

module _ {p : Platform} (c : Crypto) where
  -- `createEmailVerificationToken`, and the mail with it.
  unfoldable pub mail_verification : Draw → ℕ → User → AuthState p → AuthState p
  unfolding with_verification
  mail_verification d now u s =
      let t : OwnedToken = record { owner = u.id; secret = d.secret } in
      send_mail d.sent (verification_mail u.email t)
        (set_world (save_user (with_verification c d.salt t now u) s.world) s)

  module _ (normalize : String → String) where
    unfoldable pub register :
        RegisterDto → ℕ → ℕ → Draw → ℕ → AuthState p → Result AuthResponse × AuthState p
    unfolding mail_verification new_user registration_response
    register dto id password_salt d now s =
        let email = normalize dto.email in
        let u = new_user id dto.name email (c.hash password_salt (of_password dto.password)) now in
        if is_known (find_user_by_email email s.world) then (err conflict, s) else (
          ok (registration_response u),
          mail_verification d now u (set_world (save_user u s.world) s),
        )

    -- The one response tells nothing of the account.
    unfoldable pub resend_verification : String → Draw → ℕ → AuthState p → AuthState p
    unfolding mail_verification
    resend_verification email d now s =
        elim (find_user_by_email (normalize (normalize email)) s.world) [
          | none ↦ s
          | some u ↦ if u.is_email_verified then s else mail_verification d now u s
        ]

  unfoldable pub verify_checked :
      Result (Unit {0}) → ℕ → User → AuthState p → Result VerifyReply × AuthState p
  unfolding marked_verified
  verify_checked (err e) now u s = (err e, s)
  verify_checked (ok checked) now u s =
      (ok verified_now, set_world (save_user (marked_verified now u) s.world) s)

  unfoldable pub verify_user :
      OwnedToken → ℕ → User → AuthState p → Result VerifyReply × AuthState p
  unfolding check_token verify_checked
  verify_user t now u s =
      if u.is_email_verified
      then (ok already_verified, s)
      else verify_checked
          (check_token c u.email_verification_token_hash u.email_verification_expires_at t now) now
          u s

  -- `verifyEmail`, where no token, or an empty one, is none.
  unfoldable pub verify_email :
      Option OwnedToken → ℕ → AuthState p → Result VerifyReply × AuthState p
  unfolding verify_user
  verify_email none now s = (err unauthorized, s)
  verify_email (some t) now s =
      if t.owner == 0 then (err unauthorized, s) else elim (find s.world.users t.owner) [
        | none ↦ (err unauthorized, s)
        | some u ↦ verify_user t now u s
      ]
