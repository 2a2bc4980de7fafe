-- ===== src/Auth/Tokens.antt =====
-- src/auth/services/token.service.ts, and the requests of src/auth/services/auth.service.ts and
-- src/auth/strategy/refresh.strategy.ts that use it. A token is the user's id and a secret, with 0
-- for an empty part. The secret and the salt that are drawn are arguments.
use logistics_dispatch.Common.{
  Bool, Option, Result, err, false, if◌then◌else◌, none, not, ok, some, true, unauthorized, ℕ, ◌*◌,
  ◌==◌, ◌||◌, ◌≡◌,
}
use Prim.Native.String.{String}
use logistics_dispatch.Drivers.Service.{find_driver_of}
use logistics_dispatch.Platform.{Expiring, Platform, Table, find, put, remove}
use logistics_dispatch.Users.Entity.{AuthProvider, JwtUser, User, UserRole, driver, role_eq}
use logistics_dispatch.World.{World}

-- `JwtPayload`
pub record JwtPayload : Type 0 where
  pub sub : ℕ
  pub email : String
  pub role : UserRole
  pub driver_profile_id : Option ℕ

-- A text `<user id>.<secret>`: a token for a refresh, for the verification of an email or for the reset
-- of a password.
pub record OwnedToken : Type 0 where
  pub owner : ℕ
  pub secret : ℕ

-- What is hashed. A password is a number that stands for its text.
pub data Secret : Type 0 where
  of_token : OwnedToken → Secret
  of_password : ℕ → Secret

-- The libraries jsonwebtoken and argon2: a signature, a hash under a salt, and its verification. A
-- hash is never the empty text.
pub record Crypto : Type 0 where
  pub sign : JwtPayload → ℕ
  pub hash : ℕ → Secret → ℕ
  pub verify_hash : ℕ → Secret → Bool
  pub verify-hash : (salt : ℕ) (t : Secret) → verify_hash (hash salt t) t ≡ true

pub record Tokens : Type 0 where
  pub access_token : ℕ
  pub refresh_token : OwnedToken

-- What `sanitizeUser` leaves of a user, and the tokens.
pub record AuthResponse : Type 0 where
  pub id : ℕ
  pub name : String
  pub email : String
  pub role : UserRole
  pub provider : AuthProvider
  pub is_email_verified : Bool
  pub email_verified_at : Option ℕ
  pub tokens : Option Tokens
  pub email_verification_required : Bool

-- `sanitizeUser`, and the tokens.
unfoldable pub auth_response : User → Tokens → AuthResponse
auth_response u tokens = record {
  id = u.id;
  name = u.name;
  email = u.email;
  role = u.role;
  provider = u.provider;
  is_email_verified = u.is_email_verified;
  email_verified_at = u.email_verified_at;
  tokens = some tokens;
  email_verification_required = false;
}

abbrev pub refresh_ttl : ℕ
refresh_ttl = 60 * 60 * 24 * 7

-- The keys `refresh:…` of Redis.
abbrev pub RefreshKeys : Platform → Type 0
RefreshKeys p = Table p (Expiring ℕ)

module _ {p : Platform} where
  unfoldable pub resolve_driver_profile_id : ℕ → UserRole → World p → Option ℕ
  resolve_driver_profile_id user_id role w =
      if not (role_eq role driver)
      then none
      else elim (find_driver_of user_id w) [ none ↦ none | some d ↦ some d.id ]

  unfoldable pub revoke_refresh_token : ℕ → RefreshKeys p → RefreshKeys p
  revoke_refresh_token user_id keys = remove keys user_id

  -- `logout`
  unfoldable pub logout : JwtUser → RefreshKeys p → RefreshKeys p
  unfolding revoke_refresh_token
  logout user keys = revoke_refresh_token user.user_id keys

module _ {p : Platform} (c : Crypto) where
  unfoldable pub generate_tokens : ℕ → ℕ → User → World p → RefreshKeys p → Tokens × RefreshKeys p
  unfolding resolve_driver_profile_id
  generate_tokens salt secret user w keys =
      let token : OwnedToken = record { owner = user.id; secret = secret } in
      (
        record {
          access_token = c.sign (record {
            sub = user.id;
            email = user.email;
            role = user.role;
            driver_profile_id = resolve_driver_profile_id user.id user.role w;
          });
          refresh_token = token;
        },
        put keys user.id (record { value = c.hash salt (of_token token); ttl = refresh_ttl }),
      )

  -- `verifyOwnedToken`; a token that passes is used up.
  unfoldable pub verify_refresh_token : OwnedToken → RefreshKeys p → Result ℕ × RefreshKeys p
  verify_refresh_token t keys =
      if t.owner == 0 || t.secret == 0 then (err unauthorized, keys) else elim (find keys t.owner) [
        | none ↦ (err unauthorized, keys)
        | some stored ↦
            if c.verify_hash stored.value (of_token t)
            then (ok t.owner, remove keys t.owner)
            else (err unauthorized, keys)
      ]

  -- The user that the strategy attaches to the request.
  unfoldable pub jwt_user_of : User → World p → JwtUser
  unfolding resolve_driver_profile_id
  jwt_user_of u w = record {
    user_id = u.id;
    email = u.email;
    role = u.role;
    driver_profile_id = resolve_driver_profile_id u.id u.role w;
  }

  identified : World p → Result ℕ × RefreshKeys p → Result JwtUser × RefreshKeys p
  unfolding jwt_user_of
  identified w (err e, keys) = (err e, keys)
  identified w (ok user_id, keys) = elim (find w.users user_id) [
    | none ↦ (err unauthorized, keys)
    | some u ↦
        if not u.is_email_verified then (err unauthorized, keys) else (ok (jwt_user_of u w), keys)
  ]

  -- `RefreshStrategy.validate`, on the token of the request's cookie, body or header.
  unfoldable pub validate_refresh :
      Option OwnedToken → World p → RefreshKeys p → Result JwtUser × RefreshKeys p
  unfolding identified verify_refresh_token
  validate_refresh none w keys = (err unauthorized, keys)
  validate_refresh (some t) w keys = identified w (verify_refresh_token t keys)

  -- `refreshTokens`
  unfoldable pub refresh_tokens :
      ℕ → ℕ → JwtUser → World p → RefreshKeys p → Result AuthResponse × RefreshKeys p
  unfolding generate_tokens auth_response
  refresh_tokens salt secret user w keys = elim (find w.users user.user_id) [
    | none ↦ (err unauthorized, keys)
    | some u ↦ if not u.is_email_verified then (err unauthorized, keys) else (
      ok (auth_response u (generate_tokens salt secret u w keys).0),
      (generate_tokens salt secret u w keys).1,
    )
  ]

  after_guard :
      ℕ → ℕ → World p → Result JwtUser × RefreshKeys p → Result AuthResponse × RefreshKeys p
  unfolding refresh_tokens
  after_guard salt secret w (err e, keys) = (err e, keys)
  after_guard salt secret w (ok user, keys) = refresh_tokens salt secret user w keys

  -- The request to refresh: the guard, and then the service.
  unfoldable pub refresh :
      ℕ → ℕ → Option OwnedToken → World p → RefreshKeys p → Result AuthResponse × RefreshKeys p
  unfolding after_guard validate_refresh
  refresh salt secret token w keys = after_guard salt secret w (validate_refresh token w keys)
