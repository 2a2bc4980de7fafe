-- ===== src/Auth/Accounts/Signup.antt =====
-- A new account, from the registration to the first login (src/auth/services/auth.service.ts).
use logistics_dispatch.Common.{
  ==_refl, ap, arith, err, false, is_ok, none, ok, refl, some, true, unauthorized, ℕ, ◌+◌, ◌<◌, ◌≡◌,
  ◌≤◌,
}
use Prim.Native.String.{String}
use logistics_dispatch.Auth.Accounts.Entry.{login_right, login_unverified}
use logistics_dispatch.Auth.Accounts.Invariant.{registered-fit}
use logistics_dispatch.Auth.Accounts.Rows.{UsersFit}
use logistics_dispatch.Auth.Accounts.Saves.{Resaved-fit, verify-Resaved}
use logistics_dispatch.Auth.Login.{login}
use logistics_dispatch.Auth.Registration.{
  RegisterDto, marked_verified, new_user, register, registration_response, verified_now,
  verify_email, with_verification,
}
use logistics_dispatch.Auth.State.{AuthState, Draw, find_user_by_email, token_ttl_ms}
use logistics_dispatch.Auth.Tokens.{Crypto, OwnedToken, of_password, of_token}
use logistics_dispatch.Http.Routes.{done}
use logistics_dispatch.Platform.{Platform, find, find-put, put}
use logistics_dispatch.Users.Entity.{User}

module _ {p : Platform} (c : Crypto) (normalize : String → String) where
  -- The row after a registration whose email nobody has.
  registered_row :
      (dto : RegisterDto) (id password_salt : ℕ) (d : Draw) (now : ℕ) (s : AuthState p)
      → find_user_by_email (normalize dto.email) s.world ≡ none
      → let u =
          new_user id dto.name
            (normalize dto.email)
            (c.hash password_salt (of_password dto.password))
            now in
        let x = register c normalize dto id password_salt d now s in
        (x.0 ≡ ok (registration_response u))
        × (find x.1.world.users id
            ≡ some (with_verification c d.salt (record { owner = id; secret = d.secret }) now u))
  unfolding register
  registered_row dto id password_salt d now s free =
      let u =
        new_user id dto.name (normalize dto.email) (c.hash password_salt (of_password dto.password))
          now in
      let r = with_verification c d.salt (record { owner = id; secret = d.secret }) now u in
      (
        ground (arith, free),
        ground (arith, free, find-put (put s.world.users id u) id id r, ==_refl id),
      )

  -- The row after `verifyEmail` with a token that is kept and in time.
  verified_row :
      (t : OwnedToken) (kept_salt expires now : ℕ) (u : User) (s : AuthState p)
      → find s.world.users t.owner ≡ some u
      → u.id ≡ t.owner
      → 0 < t.owner
      → u.is_email_verified ≡ false
      → u.email_verification_token_hash ≡ some (c.hash kept_salt (of_token t))
      → u.email_verification_expires_at ≡ some expires
      → now ≤ expires
      → let x = verify_email c (some t) now s in
        (x.0 ≡ ok verified_now) × (find x.1.world.users t.owner ≡ some (marked_verified now u))
  unfolding verify_email
  verified_row t kept_salt expires now u s found own positive waits kept until early = ground (
    arith,
    c.verify-hash kept_salt (of_token t),
    find-put s.world.users u.id t.owner (marked_verified now u),
    ==_refl t.owner,
  )

  -- If the table of users is as it should be and nobody has the email, then a registration succeeds,
  -- whether or not its mail could be sent; by any spelling of the email, a login with the password is
  -- refused before the email is verified, and changes nothing; the token that the mail carries verifies
  -- it up to ten minutes later; and then the login succeeds.
  pub signup_enters :
      (dto : RegisterDto) (email : String) (id password_salt : ℕ) (d : Draw)
      (now later salt secret : ℕ) (s : AuthState p)
      → ((e : String) → normalize (normalize e) ≡ normalize e)
      → UsersFit normalize s.world.users
      → find_user_by_email (normalize dto.email) s.world ≡ none
      → normalize email ≡ normalize dto.email
      → 0 < id
      → later ≤ now + token_ttl_ms
      → let x = register c normalize dto id password_salt d now s in
        let y = verify_email c (some (record { owner = id; secret = d.secret })) later x.1 in
        (is_ok x.0 ≡ true)
        × (login c normalize email dto.password salt secret x.1 ≡ (err unauthorized, x.1))
        × (y.0 ≡ ok verified_now)
        × (is_ok (login c normalize email dto.password salt secret y.1).0 ≡ true)
  unfolding with_verification marked_verified new_user
  signup_enters dto email id password_salt d now later salt secret s idem fit free mail positive
        early =
      let t : OwnedToken = record { owner = id; secret = d.secret } in
      let h = c.hash password_salt (of_password dto.password) in
      let r = with_verification c d.salt t now (new_user id dto.name (normalize dto.email) h now) in
      let x = (register c normalize dto id password_salt d now s).1 in
      let y = (verify_email c (some t) later x).1 in
      let (made, row) = registered_row dto id password_salt d now s free in
      let fit' = registered-fit c normalize dto id password_salt d now s idem fit in
      let (done, row') =
        verified_row t d.salt (now + token_ttl_ms) later r x row refl positive refl refl refl
          early in
      let fit'' =
        Resaved-fit c normalize x.world y.world (verify-Resaved c normalize (some t) later x)
          fit' in
      (
        ap is_ok made,
        login_unverified c normalize email dto.password id h salt secret r x fit' row mail refl
            refl,
        done,
        login_right c normalize email dto.password id h salt secret (marked_verified later r) y
            fit'' row' mail refl (c.verify-hash password_salt (of_password dto.password)) refl refl,
      )
