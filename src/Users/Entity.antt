-- ===== src/Users/Entity.antt =====
-- src/users/entities, src/users/enums and src/auth/enums: the row of an account. A stored hash is
-- an opaque value.
use logistics_dispatch.Common.{Bool, Option, arith, false, true, ℕ, ◌==◌, ◌≡◌}
use Prim.Native.String.{String}

pub data UserRole : Type 0 where
  customer driver admin : UserRole

abbrev role_rank : UserRole → ℕ
role_rank customer = 0
role_rank driver = 1
role_rank admin = 2

-- `a === b` on two roles.
abbrev pub role_eq : UserRole → UserRole → Bool
role_eq a b = role_rank a == role_rank b

pub data AuthProvider : Type 0 where
  local google : AuthProvider

-- `JwtUser`, what the guards attach to a request.
pub record JwtUser : Type 0 where
  pub user_id : ℕ
  pub email : String
  pub role : UserRole
  pub driver_profile_id : Option ℕ

-- `User`. A stored hash is the value that the hash function gave.
pub record User : Type 0 where
  pub id : ℕ
  pub name : String
  pub email : String
  pub password_hash : Option ℕ
  pub role : UserRole
  pub google_id : Option ℕ
  pub provider : AuthProvider
  pub is_email_verified : Bool
  pub email_verification_token_hash : Option ℕ
  pub email_verification_expires_at : Option ℕ
  pub email_verified_at : Option ℕ
  pub password_reset_token_hash : Option ℕ
  pub password_reset_expires_at : Option ℕ
  pub created_at : ℕ

pub role_eq→eq : (a b : UserRole) → role_eq a b ≡ true → a ≡ b
role_eq→eq customer b h = ground arith
role_eq→eq a b h = ground arith

-- `a === b` on two providers.
abbrev pub provider_eq : AuthProvider → AuthProvider → Bool
provider_eq AuthProvider.local AuthProvider.local = true
provider_eq AuthProvider.google AuthProvider.google = true
provider_eq _ _ = false
