-- ===== src/Auth/State.antt =====
-- What src/auth/services/auth.service.ts works on: the database, the refresh tokens in Redis and the
-- mails that were sent. The ids, secrets and salts that are drawn, the time in milliseconds, and whether
-- the mailer delivers, are arguments. `toLowerCase().trim()` on an email is a parameter.
use logistics_dispatch.Common.{
  Bool, List, Option, Result, find_first, if◌then◌else◌, ok, same_text, ℕ, ◌*◌, ◌∷◌,
}
use Prim.Native.String.{String}
use logistics_dispatch.Auth.Tokens.{
  AuthResponse, Crypto, OwnedToken, RefreshKeys, auth_response, generate_tokens,
}
use logistics_dispatch.Platform.{Platform, put, rows_of}
use logistics_dispatch.Users.Entity.{User}
use logistics_dispatch.World.{World}

-- The mails of src/mail/mail.service.ts, with the token that stands in the link.
pub data Mail : Type 0 where
  verification_mail reset_mail : String → OwnedToken → Mail

pub record AuthState (p : Platform) : Type 0 where
  pub world : World p
  pub keys : RefreshKeys p
  -- The last one first.
  pub mails : List Mail

-- What a new token takes: its secret, the salt of its hash, and whether its mail is delivered.
pub record Draw : Type 0 where
  pub secret : ℕ
  pub salt : ℕ
  pub sent : Bool

-- The life of both tokens in milliseconds.
abbrev pub token_ttl_ms : ℕ
token_ttl_ms = 1000 * 60 * 10

module _ {p : Platform} where
  -- `userRepo.save(user)`
  abbrev pub save_user : User → World p → World p
  save_user u w = record w { users = put w.users u.id u }

  -- `usersService.findByEmail`, on a text that is in its normal form.
  abbrev pub find_user_by_email : String → World p → Option User
  find_user_by_email email w = find_first (λ u. same_text u.email email) (rows_of w.users)

  abbrev pub set_world : World p → AuthState p → AuthState p
  set_world w s = record s { world = w }

  -- A mail that the mailer fails to deliver is only logged.
  abbrev pub send_mail : Bool → Mail → AuthState p → AuthState p
  send_mail sent m s = if sent then record s { mails = m ∷ s.mails } else s

  -- The new tokens of a user, and the response.
  unfoldable pub sign_in : Crypto → ℕ → ℕ → User → AuthState p → Result AuthResponse × AuthState p
  unfolding generate_tokens auth_response
  sign_in c salt secret u s =
      let (tokens, keys) = generate_tokens c salt secret u s.world s.keys in
      (ok (auth_response u tokens), record s { keys = keys })
