-- ===== src/Auth/Accounts/Entry.antt =====
-- Who gets in by `login` (src/auth/services/auth.service.ts), by the row of the account.
use logistics_dispatch.Common.{arith, err, false, is_ok, some, true, unauthorized, ℕ, ◌≡◌}
use Prim.Native.String.{String}
use logistics_dispatch.Auth.Accounts.Rows.{UsersFit, find_user_by_email-row}
use logistics_dispatch.Auth.Login.{login}
use logistics_dispatch.Auth.State.{AuthState, find_user_by_email}
use logistics_dispatch.Auth.Tokens.{Crypto, of_password}
use logistics_dispatch.Platform.{Platform, find}
use logistics_dispatch.Users.Entity.{AuthProvider, User}

module _ {p : Platform} (c : Crypto) (normalize : String → String) (email : String)
    (password k h : ℕ) (salt secret : ℕ) (u : User) (s : AuthState p)
    (fit : UsersFit normalize s.world.users) (found : find s.world.users k ≡ some u)
    (mail : normalize email ≡ u.email) (kept : u.password_hash ≡ some h) where
  hit : find_user_by_email (normalize email) s.world ≡ some u
  hit = rw mail (find_user_by_email-row normalize s.world k u fit found)

  pub login_right :
      c.verify_hash h (of_password password) ≡ true
      → u.provider ≡ AuthProvider.local
      → u.is_email_verified ≡ true
      → is_ok (login c normalize email password salt secret s).0 ≡ true
  unfolding login
  login_right right mine known = ground (arith, hit)

  pub login_wrong :
      c.verify_hash h (of_password password) ≡ false
      → login c normalize email password salt secret s ≡ (err unauthorized, s)
  unfolding login
  login_wrong wrong = ground (arith, hit)

  pub login_unverified :
      u.is_email_verified ≡ false
      → login c normalize email password salt secret s ≡ (err unauthorized, s)
  unfolding login
  login_unverified waits = ground (arith, hit)
