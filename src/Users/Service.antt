-- ===== src/Users/Service.antt =====
-- src/users/users.service.ts, but for the listing by pages: the profile of a user, and the promotion to a
-- driver. `updatedAt`, which the database keeps, is not modelled.
use logistics_dispatch.Common.{
  Bool, Result, conflict, err, false, if◌then◌else◌, internal, is_known, none, not, not_found, ok,
  some, throw_if, unprocessable, ℕ, ◌>>◌,
}
use Prim.Native.String.{String}
use logistics_dispatch.Drivers.Entity.{Driver, VehincleType}
use logistics_dispatch.Drivers.Service.{find_driver_of}
use logistics_dispatch.Platform.{Platform, find, put}
use logistics_dispatch.Users.Entity.{AuthProvider, User, UserRole, admin, driver, role_eq}
use logistics_dispatch.World.{World}

-- `UserResponse`
pub record UserResponse : Type 0 where
  pub id : ℕ
  pub name : String
  pub email : String
  pub role : UserRole
  pub provider : AuthProvider
  pub verified : Bool
  pub created_at : ℕ

-- `toUserResponse`
unfoldable pub to_user_response : User → UserResponse
to_user_response u = record {
  id = u.id;
  name = u.name;
  email = u.email;
  role = u.role;
  provider = u.provider;
  verified = u.is_email_verified;
  created_at = u.created_at;
}

pub record PromoteToDriverDto : Type 0 where
  pub vehincle_type : VehincleType
  pub license_number : String

-- The row that `manager.create(Driver, …)` builds, with the defaults of its columns.
unfoldable pub new_driver : (p : Platform) → PromoteToDriverDto → ℕ → ℕ → ℕ → Driver p.Float
new_driver p dto user_id driver_id now = record {
  id = driver_id;
  user_id = user_id;
  vehincle_type = dto.vehincle_type;
  license_number = dto.license_number;
  online_status = false;
  current_latitude = none;
  current_longitude = none;
  rating = p.of_ℕ 5;
  is_suspended = false;
  created_at = now;
}

-- The checks on the role of the user.
check_promotion : UserRole → Result (Unit {0})
check_promotion role = do
  throw_if (role_eq role driver) conflict
  throw_if (role_eq role admin) unprocessable

module _ {p : Platform} where
  unfoldable pub get_user_profile : ℕ → World p → Result UserResponse
  unfolding to_user_response
  get_user_profile id w = elim (find w.users id) [
    | none ↦ err not_found
    | some u ↦ ok (to_user_response u)
  ]

  unfoldable pub update_user_name : ℕ → String → World p → Result UserResponse × World p
  unfolding to_user_response
  update_user_name id name w = elim (find w.users id) [
    | none ↦ (err not_found, w)
    | some u ↦
        let renamed = record u { name = name } in
        (ok (to_user_response renamed), record w { users = put w.users u.id renamed })
  ]

  -- The transaction: the role, the check for a profile, and the profile. The index of the license
  -- numbers refuses one that is taken, which `license_free` says; then all is rolled back.
  promotion : Bool → PromoteToDriverDto → User → ℕ → ℕ → World p → Result UserResponse × World p
  unfolding new_driver to_user_response
  promotion license_free dto u driver_id now w =
      if is_known (find_driver_of u.id w)
      then (err conflict, w)
      else if not license_free
      then (err internal, w)
      else (
        ok (to_user_response (record u { role = driver })),
        record w {
          users = put w.users u.id (record u { role = driver });
          drivers = put w.drivers driver_id (new_driver p dto u.id driver_id now);
        },
      )

  promote_found : Bool → PromoteToDriverDto → User → ℕ → ℕ → World p → Result UserResponse × World p
  unfolding check_promotion promotion
  promote_found license_free dto u driver_id now w = elim (check_promotion u.role) [
    | err e ↦ (err e, w)
    | ok checked ↦ promotion license_free dto u driver_id now w
  ]

  unfoldable pub promote_to_driver :
      Bool → ℕ → PromoteToDriverDto → ℕ → ℕ → World p → Result UserResponse × World p
  unfolding promote_found
  promote_to_driver license_free user_id dto driver_id now w = elim (find w.users user_id) [
    | none ↦ (err not_found, w)
    | some u ↦ promote_found license_free dto u driver_id now w
  ]
