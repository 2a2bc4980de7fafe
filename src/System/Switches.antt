-- ===== src/System/Switches.antt =====
-- What each request of src/drivers/drivers.service.ts and src/users/users.service.ts does to the table
-- of drivers: nothing, or one row that keeps its id, and stays offline if it is suspended, or a row for
-- a driver who is not both.
use logistics_dispatch.Common.{
  ==→eq, All, Bool-cases, Option-cases, arith, find_first-All, inl, inr, not, refl, some, sym, ℕ,
  ◌&&◌, ◌==◌, ◌≡◌, ◌⊎◌,
}
use logistics_dispatch.Drivers.Duty.{IsOffDuty}
use logistics_dispatch.Drivers.Entity.{Driver}
use logistics_dispatch.Drivers.Service.{
  find_driver_of, suspension_toggled, toggle_availability, toggle_suspension, toggled,
}
use logistics_dispatch.Orders.Lifecycle.Tables.{IsKeyed}
use logistics_dispatch.Platform.{Platform, Table, find, find-rows_of, put, rows_of}
use logistics_dispatch.Tracking.{handle_location_update, update_position}
use logistics_dispatch.Users.Entity.{JwtUser}
use logistics_dispatch.World.{World}
use mathlib.Core.Path.{subst}

abbrev pub OneDriver : {p : Platform} → World p → Table p (Driver p.Float) → Type 0
OneDriver {p} w t =
    (t ≡ w.drivers)
    ⊎ ((d : Driver p.Float) × (r : Driver p.Float) × (find w.drivers d.id ≡ some d)
        × (r.id ≡ d.id)
        × (IsOffDuty d → IsOffDuty r)
        × (t ≡ put w.drivers d.id r))
    ⊎ ((r : Driver p.Float) × IsOffDuty r × (t ≡ put w.drivers r.id r))

module _ {p : Platform} where
  -- Every driver that a query without a key finds is the row under its id.
  listed_drivers :
      (w : World p) → IsKeyed w → All (λ d. find w.drivers d.id ≡ some d) (rows_of w.drivers)
  listed_drivers w keyed =
      find-rows_of (λ d. find w.drivers d.id ≡ some d) w.drivers
        λ k d e. subst (λ i. find w.drivers i ≡ some d) (sym (keyed.driver_ids k d e)) e

  pub driver_of_user :
      (user_id : ℕ) (d : Driver p.Float) (w : World p)
      → IsKeyed w
      → find_driver_of user_id w ≡ some d
      → (find w.drivers d.id ≡ some d) × (d.user_id ≡ user_id)
  driver_of_user user_id d w keyed h =
      let (found, mine) =
        find_first-All (λ d. find w.drivers d.id ≡ some d) (λ d. d.user_id == user_id)
          (rows_of w.drivers) d (listed_drivers w keyed) h in
      (found, ==→eq d.user_id user_id mine)

  pub availability-OneDriver :
      (user : JwtUser) (w : World p)
      → IsKeyed w
      → OneDriver w (toggle_availability user w).1.drivers
  unfolding toggle_availability
  availability-OneDriver user w keyed = elim (Option-cases (find_driver_of user.user_id w)) [
    | inl e ↦ inl (ground arith)
    | inr (d, e) ↦ elim (Bool-cases (d.is_suspended && not d.online_status)) [
      | inl stop ↦ inl (ground arith)
      | inr go ↦ inr (
          inl (
            d,
            toggled d,
            (driver_of_user user.user_id d w keyed e).0,
            refl,
            λ off. ground arith,
            ground arith,
          ))
    ]
  ]

  pub suspension-OneDriver :
      (k : ℕ) (w : World p) → IsKeyed w → OneDriver w (toggle_suspension k w).1.drivers
  unfolding toggle_suspension
  suspension-OneDriver k w keyed = elim (Option-cases (find w.drivers k)) [
    | inl e ↦ inl (ground arith)
    | inr (d, e) ↦ inr (
        inl (
          d,
          suspension_toggled d,
          ground (arith, keyed.driver_ids k d e),
          refl,
          λ off. ground arith,
          ground arith,
        ))
  ]

  pub location-OneDriver :
      (k : ℕ) (lat lng : p.Float) (w : World p)
      → IsKeyed w
      → OneDriver w (update_position k lat lng w).drivers
  unfolding update_position
  location-OneDriver k lat lng w keyed = elim (Option-cases (find w.drivers k)) [
    | inl e ↦ inl (ground arith)
    | inr (d, e) ↦ inr (
        inl (
          d,
          record d { current_latitude = some lat; current_longitude = some lng },
          ground (arith, keyed.driver_ids k d e),
          refl,
          λ off. off,
          ground (arith, keyed.driver_ids k d e),
        ))
  ]

  pub broadcast-drivers :
      (d : ℕ) (lat lng : p.Float) (w : World p)
      → (handle_location_update d lat lng w).1.drivers ≡ (update_position d lat lng w).drivers
  unfolding handle_location_update
  broadcast-drivers d lat lng w = ground arith
