-- ===== src/Dispatch/Answers.antt =====
-- src/dispatch/dispatch.service.ts: what ends an offer, by the timeout job or by the driver's answer.
use logistics_dispatch.Common.{
  List, Result, [], conflict, err, forbidden, if◌then◌else◌, is_id, leb, none, not, not_found, ok,
  some, ℕ, ◌&&◌, ◌++◌, ◌+◌, ◌>>◌, ◌||◌, ◌∷◌,
}
use logistics_dispatch.Dispatch.Config.{
  DispatchConfig, adds, cancel_dispatch_timeout, trigger_dispatch,
}
use logistics_dispatch.Orders.Entity.{Actor, Order, actor, system}
use logistics_dispatch.Orders.Status.{
  driver_arriving, driver_assigned, expired, is_terminal, pending, status_eq,
}
use logistics_dispatch.Platform.{Platform, assign_driver, remove}
use logistics_dispatch.Tracking.{cancel_eta_job, ensure_eta_job_scheduled, eta_added}
use logistics_dispatch.World.{
  World, driver_timeout, find_order, history_row, notify, save_change, status_changed,
}

-- The results of the three transactions. The id is the order's.
pub data TimeoutResult : Type 0 where
  skip : TimeoutResult
  expire redispatch : ℕ → TimeoutResult

pub data AcceptResult : Type 0 where
  already_accepted : AcceptResult
  accepted : ℕ → AcceptResult

pub data RejectResult : Type 0 where
  already_handled : RejectResult
  rejected_last rejected : ℕ → RejectResult

-- An offer that was not accepted is taken back: the order expires when the attempts are used up, and
-- waits again otherwise.
unfoldable pub taken_back : {Float : Type 0} → DispatchConfig → List ℕ → Order Float → Order Float
taken_back cfg attempted o = record o {
  assigned_driver_id = none;
  dispatch_attempts = o.dispatch_attempts + 1;
  version = o.version + 1;
  attempted_driver_ids = attempted;
  order_status = if leb cfg.max_attempts (o.dispatch_attempts + 1) then expired else pending;
}

-- The row of an order whose driver has accepted.
unfoldable pub arriving : {Float : Type 0} → Order Float → Order Float
arriving o = record o { order_status = driver_arriving; version = o.version + 1 }

module _ {p : Platform} where
  -- The two saves that take an offer back.
  take_back : DispatchConfig → List ℕ → Actor → Order p.Float → World p → World p
  unfolding taken_back
  take_back cfg attempted who o w =
      let t = taken_back cfg attempted o in
      save_change t (history_row o.id o.order_status t.order_status who) w

  timeout_locked : DispatchConfig → ℕ → Order p.Float → World p → TimeoutResult × World p
  unfolding take_back
  timeout_locked cfg driver_id o w =
      if is_terminal o.order_status
      then (skip, w)
      else if not (status_eq o.order_status driver_assigned)
      then (skip, w)
      else if not (is_id o.assigned_driver_id driver_id)
      then (skip, w)
      else (
        if leb cfg.max_attempts (o.dispatch_attempts + 1) then expire o.id else redispatch o.id,
        take_back cfg o.attempted_driver_ids system o w,
      )

  unfoldable pub timeout_transaction : DispatchConfig → ℕ → ℕ → World p → TimeoutResult × World p
  unfolding timeout_locked
  timeout_transaction cfg order_id driver_id w = elim (find_order order_id w) [
    | none ↦ (skip, w)
    | some o ↦ timeout_locked cfg driver_id o w
  ]

  drop_timeout_key : ℕ → World p → World p
  drop_timeout_key order_id w = record w { timeout_keys = remove w.timeout_keys order_id }

  after_timeout : ℕ → ℕ → TimeoutResult × World p → World p
  unfolding drop_timeout_key cancel_eta_job trigger_dispatch
  after_timeout order_id driver_id (skip, w) = w
  after_timeout order_id driver_id (expire id, w) =
      notify (driver_timeout order_id driver_id)
        (notify (status_changed id expired) (cancel_eta_job id (drop_timeout_key order_id w)))
  after_timeout order_id driver_id (redispatch id, w) =
      trigger_dispatch id (notify (driver_timeout order_id driver_id) (drop_timeout_key order_id w))

  unfoldable pub handle_dispatch_timeout : DispatchConfig → ℕ → ℕ → World p → World p
  unfolding timeout_transaction after_timeout
  handle_dispatch_timeout cfg order_id driver_id w =
      after_timeout order_id driver_id (timeout_transaction cfg order_id driver_id w)

  accept_locked : ℕ → Order p.Float → World p → Result AcceptResult × World p
  unfolding arriving
  accept_locked driver_id o w =
      if status_eq o.order_status driver_arriving && is_id o.assigned_driver_id driver_id
      then (ok already_accepted, w)
      else if not (status_eq o.order_status driver_assigned)
      then (err conflict, w)
      else if not (is_id o.assigned_driver_id driver_id)
      then (err forbidden, w)
      else (
        ok (accepted o.id),
        save_change (arriving o) (history_row o.id o.order_status driver_arriving (actor driver_id))
            w,
      )

  unfoldable pub accept_transaction : ℕ → ℕ → World p → Result AcceptResult × World p
  unfolding accept_locked
  accept_transaction order_id driver_id w = elim (find_order order_id w) [
    | none ↦ (err not_found, w)
    | some o ↦ accept_locked driver_id o w
  ]

  after_accept : ℕ → ℕ → Result AcceptResult × World p → Result AcceptResult × World p
  unfolding cancel_dispatch_timeout ensure_eta_job_scheduled eta_added
  after_accept order_id driver_id (err e, w) = (err e, w)
  after_accept order_id driver_id (ok already_accepted, w) = (ok already_accepted, w)
  after_accept order_id driver_id (ok (accepted id), w) =
      let told = notify (status_changed id driver_arriving) (cancel_dispatch_timeout order_id w) in
      (eta_added id told >> ok (accepted id), ensure_eta_job_scheduled id driver_id told)

  -- The result stands for the message of the response.
  unfoldable pub accept_dispatch : ℕ → ℕ → World p → Result AcceptResult × World p
  unfolding accept_transaction after_accept
  accept_dispatch order_id driver_id w =
      after_accept order_id driver_id (accept_transaction order_id driver_id w)

  reject_locked : DispatchConfig → ℕ → Order p.Float → World p → Result RejectResult × World p
  unfolding take_back
  reject_locked cfg driver_id o w =
      if status_eq o.order_status pending || status_eq o.order_status expired
      then (ok already_handled, w)
      else if not (status_eq o.order_status driver_assigned)
      then (err conflict, w)
      else if not (is_id o.assigned_driver_id driver_id)
      then (err forbidden, w)
      else (
        ok (
            if leb cfg.max_attempts (o.dispatch_attempts + 1)
            then rejected_last o.id
            else rejected o.id),
        take_back cfg (o.attempted_driver_ids ++ driver_id ∷ []) (actor driver_id) o w,
      )

  unfoldable pub reject_transaction :
      DispatchConfig → ℕ → ℕ → World p → Result RejectResult × World p
  unfolding reject_locked
  reject_transaction cfg order_id driver_id w = elim (find_order order_id w) [
    | none ↦ (err not_found, w)
    | some o ↦ reject_locked cfg driver_id o w
  ]

  after_reject : ℕ → Result RejectResult × World p → Result RejectResult × World p
  unfolding cancel_dispatch_timeout cancel_eta_job trigger_dispatch adds
  after_reject order_id (err e, w) = (err e, w)
  after_reject order_id (ok already_handled, w) = (ok already_handled, w)
  after_reject order_id (ok (rejected_last id), w) = (
    ok (rejected_last id),
    notify (status_changed id expired) (cancel_eta_job id (cancel_dispatch_timeout order_id w)),
  )
  after_reject order_id (ok (rejected id), w) = (
    adds p (assign_driver id) >> ok (rejected id),
    trigger_dispatch id (cancel_dispatch_timeout order_id w),
  )

  -- The result stands for the message of the response.
  unfoldable pub reject_dispatch : DispatchConfig → ℕ → ℕ → World p → Result RejectResult × World p
  unfolding reject_transaction after_reject
  reject_dispatch cfg order_id driver_id w =
      after_reject order_id (reject_transaction cfg order_id driver_id w)
