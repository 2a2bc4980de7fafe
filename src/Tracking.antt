-- ===== src/Tracking.antt =====
-- src/tracking/tracking.service.ts: the position of a driver, and the job that estimates the time of
-- arrival. A failure of Redis, of the queue or of the database itself is not modelled, so the handlers
-- that log such a failure have nothing to catch.
pub mod Estimates
pub mod Processor
use logistics_dispatch.Common.{
  Bool, Option, Result, [], find_first, if◌then◌else◌, is_id, is_known, none, not, ok, some, truthy,
  ℕ, ◌&&◌, ◌*◌, ◌>>◌, ◌∷◌,
}
use logistics_dispatch.Dispatch.Config.{adds}
use logistics_dispatch.Distance.{calculate_distance}
use logistics_dispatch.Drivers.Entity.{Driver}
use logistics_dispatch.Orders.Entity.{Order}
use logistics_dispatch.Orders.Status.{driver_arriving, has_status, in_transit, picked_up}
use logistics_dispatch.Platform.{
  Job, JobId, Platform, add_job, find, get_job, put, recalculate_eta, remove, remove_job, rows_of,
}
use logistics_dispatch.World.{World, find_order, location_broadcast, notify}

-- `Number(x)` on a coordinate, where null counts as 0.
abbrev pub coordinate : (p : Platform) → Option p.Float → p.Float
coordinate p none = p.of_ℕ 0
coordinate p (some x) = x

abbrev pub eta_ttl : ℕ
eta_ttl = 60 * 60 * 24

abbrev pub active_order_ttl : ℕ
active_order_ttl = 60

abbrev pub eta_recalculate_delay_ms : ℕ
eta_recalculate_delay_ms = 30000

abbrev pub eta_average_speed_kmh : ℕ
eta_average_speed_kmh = 30

-- The payload of the job `recalculate_eta`.
abbrev pub eta_job : ℕ → ℕ → ℕ → Job
eta_job order_id driver_id delay = record {
  order_id = order_id;
  driver_id = some driver_id;
  delay = delay;
}

-- The query for the driver's order under way.
abbrev is_under_way : {Float : Type 0} → ℕ → Order Float → Bool
is_under_way driver_id o =
    not (is_known o.deleted_at)
    && is_id o.assigned_driver_id driver_id
    && has_status (driver_arriving ∷ picked_up ∷ in_transit ∷ []) o.order_status

-- The estimate in seconds, from the driver's position to the place of delivery.
unfoldable pub eta_seconds : (p : Platform) → Driver p.Float → Order p.Float → p.Float
unfolding calculate_distance
eta_seconds p d o =
    let distance =
      calculate_distance p (coordinate p d.current_latitude) (coordinate p d.current_longitude)
        o.delivery_latitude o.delivery_longitude in
    p.round (p.times (p.over distance (p.of_ℕ eta_average_speed_kmh)) (p.of_ℕ 3600))

module _ {p : Platform} where
  -- Adds the job, and keeps its id under the order's key; an `add` that throws leaves both as they were.
  unfoldable pub schedule_eta : ℕ → ℕ → ℕ → World p → World p
  schedule_eta order_id driver_id delay w = record w {
    tracking_queue =
        add_job w.tracking_queue (recalculate_eta order_id) (eta_job order_id driver_id delay);
    eta_keys =
        if p.takes_id (recalculate_eta order_id)
        then put w.eta_keys order_id (record { value = recalculate_eta order_id; ttl = eta_ttl })
        else w.eta_keys;
  }

  unfoldable pub ensure_eta_job_scheduled : ℕ → ℕ → World p → World p
  unfolding schedule_eta
  ensure_eta_job_scheduled order_id driver_id w = elim (find w.eta_keys order_id) [
    | none ↦ schedule_eta order_id driver_id 0 w
    | some key ↦ w
  ]

  -- Whether `ensureEtaJobScheduled` throws.
  unfoldable pub eta_added : ℕ → World p → Result (Unit {0})
  unfolding adds
  eta_added order_id w = elim (find w.eta_keys order_id) [
    | none ↦ adds p (recalculate_eta order_id)
    | some key ↦ ok tt
  ]

  -- The job with this id, if the queue has it, is removed.
  drop_eta_job : JobId → World p → World p
  drop_eta_job job_id w = elim (get_job w.tracking_queue job_id) [
    | none ↦ w
    | some job ↦ record w { tracking_queue = remove_job w.tracking_queue job_id }
  ]

  unfoldable pub cancel_eta_job : ℕ → World p → World p
  unfolding drop_eta_job
  cancel_eta_job order_id w = elim (find w.eta_keys order_id) [
    | none ↦ w
    | some key ↦ record (drop_eta_job key.value w) { eta_keys = remove w.eta_keys order_id }
  ]

  -- The broadcast of the estimate, and the job for the next one.
  eta_tick : Order p.Float → Driver p.Float → ℕ → ℕ → World p → World p
  unfolding eta_seconds schedule_eta
  eta_tick o d order_id driver_id w = schedule_eta order_id driver_id eta_recalculate_delay_ms (
      notify
        (location_broadcast order_id (coordinate p d.current_latitude)
          (coordinate p d.current_longitude) (some (eta_seconds p d o)))
        w)

  eta_for_driver : Order p.Float → Option (Driver p.Float) → ℕ → ℕ → World p → World p
  unfolding eta_tick cancel_eta_job
  eta_for_driver o none order_id driver_id w = cancel_eta_job order_id w
  eta_for_driver o (some d) order_id driver_id w =
      if is_known d.current_latitude && is_known d.current_longitude
      then eta_tick o d order_id driver_id w
      else cancel_eta_job order_id w

  unfoldable pub handle_eta_recalculation : ℕ → ℕ → World p → World p
  unfolding eta_for_driver cancel_eta_job
  handle_eta_recalculation order_id driver_id w = elim (find_order order_id w) [
    | none ↦ cancel_eta_job order_id w
    | some o ↦
        if not (truthy o.assigned_driver_id)
        then cancel_eta_job order_id w
        else if not (is_id o.assigned_driver_id driver_id)
        then cancel_eta_job order_id w
        else eta_for_driver o (find w.drivers driver_id) order_id driver_id w
  ]

  -- `driverRepo.update({ id }, { currentLatitude, currentLongitude })`
  unfoldable pub update_position : ℕ → p.Float → p.Float → World p → World p
  update_position driver_id lat lng w = elim (find w.drivers driver_id) [
    | none ↦ w
    | some d ↦ record w {
      drivers =
          put w.drivers driver_id
            (record d { current_latitude = some lat; current_longitude = some lng });
    }
  ]

  -- The order in the driver's key, or else one from the database, which is then kept in the key.
  active_order : ℕ → World p → Option ℕ × World p
  active_order driver_id w = elim (find w.active_order_keys driver_id) [
    | some key ↦ (some key.value, w)
    | none ↦ elim (find_first (is_under_way driver_id) (rows_of w.orders)) [
      | none ↦ (none, w)
      | some o ↦ (
        some o.id,
        record w {
          active_order_keys =
              put w.active_order_keys driver_id (record { value = o.id; ttl = active_order_ttl });
        },
      )
    ]
  ]

  broadcast_position : ℕ → p.Float → p.Float → Option ℕ × World p → Result (Option ℕ) × World p
  unfolding ensure_eta_job_scheduled eta_added
  broadcast_position driver_id lat lng (none, w) = (ok none, w)
  broadcast_position driver_id lat lng (some order_id, w) =
      let told = notify (location_broadcast order_id lat lng none) w in
      (
        eta_added order_id told >> ok (some order_id),
        ensure_eta_job_scheduled order_id driver_id told,
      )

  unfoldable pub handle_location_update :
      ℕ → p.Float → p.Float → World p → Result (Option ℕ) × World p
  unfolding update_position active_order broadcast_position
  handle_location_update driver_id lat lng w =
      broadcast_position driver_id lat lng
        (active_order driver_id (update_position driver_id lat lng w))
