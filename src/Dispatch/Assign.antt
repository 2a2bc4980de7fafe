-- ===== src/Dispatch/Assign.antt =====
-- src/dispatch/dispatch.service.ts: the job ASSIGN_DRIVER. `free` says which rows of drivers no other
-- transaction has locked (`skip_locked`).
use logistics_dispatch.Common.{
  Bool, List, Option, [], if◌then◌else◌, includes, leb, none, not, some, to_set, ℕ, ◌&&◌, ◌*◌, ◌++◌,
  ◌+◌, ◌∷◌,
}
use logistics_dispatch.Dispatch.Candidates.{find_nearest_eligible_drivers, non_empty}
use logistics_dispatch.Dispatch.Config.{DispatchConfig, should_skip_assignment, timeout_job}
use logistics_dispatch.Drivers.Entity.{Driver, VehincleType, vehincle_eq}
use logistics_dispatch.Orders.Entity.{Order, system}
use logistics_dispatch.Orders.Status.{driver_assigned, expired}
use logistics_dispatch.Platform.{Platform, add_job, dispatch_timeout, find, put}
use logistics_dispatch.Tracking.{cancel_eta_job}
use logistics_dispatch.World.{
  World, driver_assigned_notice, find_order, history_row, notify, save_change, status_changed,
}

-- The row of an order that is offered to the driver, in `assignDriverWithLock`.
unfoldable pub assigned : {Float : Type 0} → ℕ → Order Float → Order Float
assigned driver_id o = record o {
  assigned_driver_id = some driver_id;
  order_status = driver_assigned;
  dispatch_attempts = o.dispatch_attempts + 1;
  version = o.version + 1;
  attempted_driver_ids = to_set (non_empty o.attempted_driver_ids) ++ driver_id ∷ [];
}

-- The row of an order that found no driver, in `expireOrder`.
unfoldable pub expired_order : {Float : Type 0} → Order Float → Order Float
expired_order o = record o {
  order_status = expired;
  assigned_driver_id = none;
  dispatch_attempts = o.dispatch_attempts + 1;
  version = o.version + 1;
}

module _ {p : Platform} (free : ℕ → Bool) where
  -- The locking query for one candidate.
  unfoldable pub lock_driver : VehincleType → World p → ℕ → Option (Driver p.Float)
  lock_driver v w driver_id = elim (find w.drivers driver_id) [
    | none ↦ none
    | some d ↦
        if free driver_id && d.online_status && not d.is_suspended && vehincle_eq d.vehincle_type v
        then some d
        else none
  ]

  -- The loop over the candidates: the first that was not tried and whose row is free and fits.
  unfoldable pub pick_driver :
      List ℕ → VehincleType → World p → List (Driver p.Float) → Option (Driver p.Float)
  unfolding lock_driver
  pick_driver tried v w [] = none
  pick_driver tried v w (c ∷ cs) =
      let rest = pick_driver tried v w cs in
      if includes tried c.id
      then rest
      else elim (lock_driver v w c.id) [ none ↦ rest | some d ↦ some d ]

  unfoldable pub offer : Order p.Float → Option (Driver p.Float) → World p → Option ℕ × World p
  unfolding assigned
  offer o none w = (none, w)
  offer o (some d) w = (
    some d.id,
    save_change (assigned d.id o) (history_row o.id o.order_status driver_assigned system) w,
  )

  unfoldable pub assign_locked :
      List (Driver p.Float) → Order p.Float → World p → Option ℕ × World p
  unfolding offer pick_driver should_skip_assignment
  assign_locked candidates o w =
      if should_skip_assignment o.order_status
      then (none, w)
      else offer o
          (pick_driver (to_set (non_empty o.attempted_driver_ids)) o.vehincle_type w candidates) w

  unfoldable pub assign_driver_with_lock : ℕ → List (Driver p.Float) → World p → Option ℕ × World p
  unfolding assign_locked
  assign_driver_with_lock order_id candidates w = elim (find_order order_id w) [
    | none ↦ (none, w)
    | some o ↦ assign_locked candidates o w
  ]

module _ {p : Platform} where
  expire_locked : Order p.Float → World p → World p
  unfolding should_skip_assignment expired_order
  expire_locked o w =
      if should_skip_assignment o.order_status
      then w
      else save_change (expired_order o) (history_row o.id o.order_status expired system) w

  -- The transaction of `expireOrder`.
  expire_transaction : ℕ → World p → World p
  unfolding expire_locked
  expire_transaction order_id w = elim (find_order order_id w) [
    | none ↦ w
    | some o ↦ expire_locked o w
  ]

  unfoldable pub expire_order : ℕ → World p → World p
  unfolding expire_transaction cancel_eta_job
  expire_order order_id w = cancel_eta_job order_id (expire_transaction order_id w)

  -- `expireOrder` and the message to the customer.
  unfoldable pub give_up : ℕ → World p → World p
  unfolding expire_order
  give_up order_id w = notify (status_changed order_id expired) (expire_order order_id w)

  -- The delayed timeout job, its id under the order's key, and the message to the driver; an `add` that
  -- throws leaves all of them out.
  unfoldable pub schedule_timeout : DispatchConfig → ℕ → ℕ → World p → World p
  schedule_timeout cfg order_id driver_id w = record w {
    dispatch_queue =
        add_job w.dispatch_queue (dispatch_timeout order_id driver_id)
          (timeout_job cfg order_id driver_id);
    timeout_keys =
        if p.takes_id (dispatch_timeout order_id driver_id)
        then put w.timeout_keys order_id
            (record { value = dispatch_timeout order_id driver_id; ttl = cfg.timeout_seconds * 2 })
        else w.timeout_keys;
    notices =
        if p.takes_id (dispatch_timeout order_id driver_id)
        then driver_assigned_notice order_id driver_id ∷ w.notices
        else w.notices;
  }

  unfoldable pub finish_assignment : DispatchConfig → ℕ → Option ℕ × World p → World p
  unfolding give_up schedule_timeout
  finish_assignment cfg order_id (none, w) = give_up order_id w
  finish_assignment cfg order_id (some driver_id, w) = schedule_timeout cfg order_id driver_id w

  unfoldable pub offer_to :
      DispatchConfig → (ℕ → Bool) → ℕ → List (Driver p.Float) → World p → World p
  unfolding finish_assignment assign_driver_with_lock
  offer_to cfg free order_id [] w = give_up order_id w
  offer_to cfg free order_id (c ∷ cs) w =
      finish_assignment cfg order_id (assign_driver_with_lock free order_id (c ∷ cs) w)

  -- `handleAssignDriver` from the row `o` that it read first; `w` is the state when it goes on.
  unfoldable pub assign_from : DispatchConfig → (ℕ → Bool) → Order p.Float → World p → World p
  unfolding should_skip_assignment offer_to find_nearest_eligible_drivers
  assign_from cfg free o w =
      if should_skip_assignment o.order_status
      then w
      else if leb cfg.max_attempts o.dispatch_attempts
      then give_up o.id w
      else offer_to cfg free o.id (find_nearest_eligible_drivers o w) w

  unfoldable pub handle_assign_driver : DispatchConfig → (ℕ → Bool) → ℕ → World p → World p
  unfolding assign_from
  handle_assign_driver cfg free order_id w = elim (find_order order_id w) [
    | none ↦ w
    | some o ↦ assign_from cfg free o w
  ]
