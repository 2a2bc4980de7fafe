-- ===== src/Auth/Accounts.antt =====
-- The accounts as a whole: the requests of src/auth/services/auth.service.ts and of
-- src/users/users.service.ts that change a user, in any order.
pub mod Rows
pub mod Saves
pub mod Invariant
pub mod Entry
pub mod Signup
pub mod Reset
pub mod Admins
use logistics_dispatch.Common.{Bool, List, Option, [], ℕ, ◌∷◌}
use Prim.Native.String.{String}
use logistics_dispatch.Auth.Login.{GoogleAuthUser, login, login_with_google}
use logistics_dispatch.Auth.Passwords.{forgot_password, reset_password}
use logistics_dispatch.Auth.Registration.{RegisterDto, register, resend_verification, verify_email}
use logistics_dispatch.Auth.State.{AuthState, Draw, set_world}
use logistics_dispatch.Auth.Tokens.{Crypto, OwnedToken, logout, refresh}
use logistics_dispatch.Platform.{Platform}
use logistics_dispatch.Users.Entity.{JwtUser}
use logistics_dispatch.Users.Service.{PromoteToDriverDto, promote_to_driver, update_user_name}

pub data AccountEvent : Type 0 where
  -- `POST /auth/register`, with the id and the salt of the password's hash that are drawn.
  registers : RegisterDto → ℕ → ℕ → Draw → ℕ → AccountEvent
  verifies : Option OwnedToken → ℕ → AccountEvent
  resends : String → Draw → ℕ → AccountEvent
  logs_in : String → ℕ → ℕ → ℕ → AccountEvent
  google_logs_in : GoogleAuthUser → ℕ → ℕ → ℕ → ℕ → AccountEvent
  refreshes : Option OwnedToken → ℕ → ℕ → AccountEvent
  logs_out : JwtUser → AccountEvent
  forgets : String → Draw → ℕ → AccountEvent
  resets : Option OwnedToken → ℕ → ℕ → ℕ → AccountEvent
  renames : ℕ → String → AccountEvent
  promotes : Bool → ℕ → PromoteToDriverDto → ℕ → ℕ → AccountEvent

module _ {p : Platform} (c : Crypto) (normalize : String → String) where
  unfoldable pub account_step : AccountEvent → AuthState p → AuthState p
  account_step (registers dto id password_salt d now) s =
      (register c normalize dto id password_salt d now s).1
  account_step (verifies t now) s = (verify_email c t now s).1
  account_step (resends email d now) s = resend_verification c normalize email d now s
  account_step (logs_in email password salt secret) s =
      (login c normalize email password salt secret s).1
  account_step (google_logs_in g id now salt secret) s =
      (login_with_google c normalize g id now salt secret s).1
  account_step (refreshes t salt secret) s = record s {
    keys = (refresh c salt secret t s.world s.keys).1;
  }
  account_step (logs_out user) s = record s { keys = logout user s.keys }
  account_step (forgets email d now) s = forgot_password c normalize email d now s
  account_step (resets t salt password now) s = (reset_password c t salt password now s).1
  account_step (renames id name) s = set_world (update_user_name id name s.world).1 s
  account_step (promotes license_free user_id dto driver_id now) s =
      set_world (promote_to_driver license_free user_id dto driver_id now s.world).1 s

  unfoldable pub account_run : List AccountEvent → AuthState p → AuthState p
  unfolding account_step
  account_run [] s = s
  account_run (e ∷ es) s = account_run es (account_step e s)
