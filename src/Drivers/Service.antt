-- ===== src/Drivers/Service.antt =====
-- src/drivers/drivers.service.ts and src/drivers/mappers: the requests of drivers and admins about a
-- driver's profile, but for the listing by pages.
use logistics_dispatch.Common.{
  Bool, Option, Result, bad_request, err, false, find_first, forbidden, if◌then◌else◌, internal,
  none, not, not_found, ok, some, truthy, ℕ, ◌&&◌, ◌==◌,
}
use Prim.Native.String.{String}
use logistics_dispatch.Dispatch.Answers.{
  AcceptResult, RejectResult, accept_dispatch, reject_dispatch,
}
use logistics_dispatch.Dispatch.Config.{DispatchConfig}
use logistics_dispatch.Drivers.Entity.{Driver, VehincleType}
use logistics_dispatch.Platform.{Platform, find, put, rows_of}
use logistics_dispatch.Tracking.{update_position}
use logistics_dispatch.Users.Entity.{JwtUser, User}
use logistics_dispatch.World.{World}

-- `DriverResponse`
pub record DriverResponse (Float : Type 0) : Type 0 where
  pub id : ℕ
  pub user_id : ℕ
  pub name : String
  pub email : String
  pub vehincle_type : VehincleType
  pub license_number : String
  pub online_status : Bool
  pub current_latitude : Option Float
  pub current_longitude : Option Float
  pub rating : Float
  pub is_suspended : Bool
  pub created_at : ℕ

module _ {Float : Type 0} where
  -- `toDriverResponse`; with no user beside the driver the read of its name throws.
  unfoldable pub to_driver_response : Driver Float → Option User → Result (DriverResponse Float)
  to_driver_response d none = err internal
  to_driver_response d (some u) = ok (record {
    id = d.id;
    user_id = d.user_id;
    name = u.name;
    email = u.email;
    vehincle_type = d.vehincle_type;
    license_number = d.license_number;
    online_status = d.online_status;
    current_latitude = d.current_latitude;
    current_longitude = d.current_longitude;
    rating = d.rating;
    is_suspended = d.is_suspended;
    created_at = d.created_at;
  })

  -- The row after `toggleAvailability`.
  unfoldable pub toggled : Driver Float → Driver Float
  toggled d = record d { online_status = not d.online_status }

  -- The row after `toggleSuspension`: who is suspended goes offline.
  unfoldable pub suspension_toggled : Driver Float → Driver Float
  suspension_toggled d = record d {
    online_status = if not d.is_suspended && d.online_status then false else d.online_status;
    is_suspended = not d.is_suspended;
  }

module _ {p : Platform} where
  -- `findOne({ where: { userId } })`
  abbrev pub find_driver_of : ℕ → World p → Option (Driver p.Float)
  find_driver_of user_id w = find_first (λ d. d.user_id == user_id) (rows_of w.drivers)

  -- `driverRepo.save(driver)`
  abbrev pub save_driver : Driver p.Float → World p → World p
  save_driver d w = record w { drivers = put w.drivers d.id d }

  unfoldable pub get_my_profile : JwtUser → World p → Result (DriverResponse p.Float)
  unfolding to_driver_response
  get_my_profile user w = elim (find_driver_of user.user_id w) [
    | none ↦ err not_found
    | some d ↦ to_driver_response d (find w.users d.user_id)
  ]

  -- `toggleAvailability` from the row `d` that was read.
  unfoldable pub availability_from :
      Driver p.Float → World p → Result (DriverResponse p.Float) × World p
  unfolding toggled to_driver_response
  availability_from d w =
      if d.is_suspended && not d.online_status
      then (err forbidden, w)
      else (to_driver_response (toggled d) (find w.users d.user_id), save_driver (toggled d) w)

  unfoldable pub toggle_availability : JwtUser → World p → Result (DriverResponse p.Float) × World p
  unfolding availability_from
  toggle_availability user w = elim (find_driver_of user.user_id w) [
    | none ↦ (err not_found, w)
    | some d ↦ availability_from d w
  ]

  unfoldable pub update_location :
      JwtUser → p.Float → p.Float → World p → Result (Unit {0}) × World p
  unfolding update_position
  update_location user lat lng w = elim (find_driver_of user.user_id w) [
    | none ↦ (err not_found, w)
    | some d ↦ (ok tt, update_position d.id lat lng w)
  ]

  unfoldable pub find_driver_by_id : ℕ → World p → Result (DriverResponse p.Float)
  unfolding to_driver_response
  find_driver_by_id driver_id w = elim (find w.drivers driver_id) [
    | none ↦ err not_found
    | some d ↦ to_driver_response d (find w.users d.user_id)
  ]

  unfoldable pub toggle_suspension : ℕ → World p → Result (DriverResponse p.Float) × World p
  unfolding suspension_toggled to_driver_response
  toggle_suspension driver_id w = elim (find w.drivers driver_id) [
    | none ↦ (err not_found, w)
    | some d ↦ (
      to_driver_response (suspension_toggled d) (find w.users d.user_id),
      save_driver (suspension_toggled d) w,
    )
  ]

  -- `acceptOrderDispatch`
  unfoldable pub accept_order_dispatch : ℕ → JwtUser → World p → Result AcceptResult × World p
  unfolding accept_dispatch
  accept_order_dispatch order_id user w = elim user.driver_profile_id [
    | none ↦ (err bad_request, w)
    | some profile ↦
        if truthy (some profile) then accept_dispatch order_id profile w else (err bad_request, w)
  ]

  -- `rejectOrderDispatch`
  unfoldable pub reject_order_dispatch :
      DispatchConfig → ℕ → JwtUser → World p → Result RejectResult × World p
  unfolding reject_dispatch
  reject_order_dispatch cfg order_id user w = elim user.driver_profile_id [
    | none ↦ (err bad_request, w)
    | some profile ↦
        if truthy (some profile)
        then reject_dispatch cfg order_id profile w
        else (err bad_request, w)
  ]
