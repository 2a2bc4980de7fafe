-- ===== src/Dispatch/Refinement.antt =====
-- The handlers of src/dispatch/dispatch.service.ts refine the life cycle of an order.
use logistics_dispatch.Common.{
  Bool, Bool-cases, List, Option-cases, [], arith, false, includes, includes-to_set, inl, inr,
  is_id, leb, none, refl, some, sym, to_set, ℕ, ◌&&◌, ◌++◌, ◌∙◌, ◌∷◌, ◌≡◌, ◌⊎◌,
}
use logistics_dispatch.Dispatch.Answers.{
  accept_dispatch, arriving, handle_dispatch_timeout, reject_dispatch, taken_back,
}
use logistics_dispatch.Dispatch.Assign.{
  assign_driver_with_lock, assign_from, assigned, expire_order, expired_order, finish_assignment,
  handle_assign_driver, offer_to, pick_driver,
}
use logistics_dispatch.Dispatch.Candidates.{find_nearest_eligible_drivers, non_empty}
use logistics_dispatch.Dispatch.Config.{DispatchConfig, should_skip_assignment}
use logistics_dispatch.Dispatch.Offers.{pick_driver_fits}
use logistics_dispatch.Drivers.Entity.{Driver}
use logistics_dispatch.Orders.Entity.{Order, actor, system}
use logistics_dispatch.Orders.Lifecycle.{Change}
use logistics_dispatch.Orders.Lifecycle.Tables.{IsKeyed, OneChange, find_order-find}
use logistics_dispatch.Orders.Status.{OrderStatus, driver_assigned, pending, status_eq}
use logistics_dispatch.Platform.{Platform}
use logistics_dispatch.World.{World, find_order, history_row, save_change}

pub skip_pending : (s : OrderStatus) → should_skip_assignment s ≡ false → s ≡ pending
unfolding should_skip_assignment
skip_pending pending h = refl
skip_pending s h = ground arith

module _ {p : Platform} (free : ℕ → Bool) where
  -- The two ends of `assignDriverWithLock`.
  pub assign_cases :
      (k : ℕ) (cs : List (Driver p.Float)) (w : World p)
      → (assign_driver_with_lock free k cs w ≡ (none, w))
        ⊎ ((o : Order p.Float) × (d : Driver p.Float) × (find_order k w ≡ some o)
            × (o.order_status ≡ pending)
            × (pick_driver free (to_set (non_empty o.attempted_driver_ids)) o.vehincle_type w cs
                ≡ some d)
            × (assign_driver_with_lock free k cs w ≡ (
              some d.id,
              save_change (assigned d.id o) (history_row o.id pending driver_assigned system) w,
            )))
  unfolding assign_driver_with_lock
  assign_cases k cs w = elim (Option-cases (find_order k w)) [
    | inl e ↦ inl (ground arith)
    | inr (o, e) ↦ elim (Bool-cases (should_skip_assignment o.order_status)) [
      | inl skips ↦ inl (ground arith)
      | inr goes ↦
          elim (Option-cases
            (pick_driver free (to_set (non_empty o.attempted_driver_ids)) o.vehincle_type w cs)) [
              | inl nobody ↦ inl (ground arith)
              | inr (d, picked) ↦
                  let waits = skip_pending o.order_status goes in
                  inr (o, d, e, waits, picked, ground arith)
            ]
    ]
  ]

  picked_untried :
      (k : ℕ) (o : Order p.Float) (d : Driver p.Float) (cs : List (Driver p.Float)) (w : World p)
      → IsKeyed w
      → pick_driver free (to_set (non_empty o.attempted_driver_ids)) o.vehincle_type w cs ≡ some d
      → includes (non_empty o.attempted_driver_ids) d.id ≡ false
  picked_untried k o d cs w keyed picked =
      sym (includes-to_set (non_empty o.attempted_driver_ids) d.id)
      ∙ (pick_driver_fits free (to_set (non_empty o.attempted_driver_ids)) o.vehincle_type w cs d
          keyed picked).0

module _ {p : Platform} (cfg : DispatchConfig) where
  pub expire_order-OneChange : (k : ℕ) (w : World p) → OneChange cfg w (expire_order k w)
  unfolding expire_order
  expire_order-OneChange k w = elim (Option-cases (find_order k w)) [
    | inl e ↦ inl (ground arith, ground arith)
    | inr (o, e) ↦ elim (Bool-cases (should_skip_assignment o.order_status)) [
      | inl skips ↦ inl (ground arith, ground arith)
      | inr goes ↦ inr (
        k,
        o,
        expired_order o,
        (find_order-find k w e).0,
        refl,
        Change.gives_up o (skip_pending o.order_status goes),
        ground arith,
        inl (system, ground arith),
      )
    ]
  ]

  pub timeout-OneChange :
      (k d : ℕ) (w : World p) → OneChange cfg w (handle_dispatch_timeout cfg k d w)
  unfolding handle_dispatch_timeout
  timeout-OneChange k d w = elim (Option-cases (find_order k w)) [
    | inl e ↦ inl (ground arith, ground arith)
    | inr (o, e) ↦
        elim (Bool-cases
          (status_eq o.order_status driver_assigned && is_id o.assigned_driver_id d)) [
            | inl goes ↦ inr (
              k,
              o,
              taken_back cfg o.attempted_driver_ids o,
              (find_order-find k w e).0,
              refl,
              Change.takes_back o d o.attempted_driver_ids (ground arith) (ground arith) (inl refl),
              ground arith,
              inl (system, ground arith),
            )
            | inr skips ↦ inl (ground arith, ground arith)
          ]
  ]

  pub accept-OneChange : (k d : ℕ) (w : World p) → OneChange cfg w (accept_dispatch k d w).1
  unfolding accept_dispatch
  accept-OneChange k d w = elim (Option-cases (find_order k w)) [
    | inl e ↦ inl (ground arith, ground arith)
    | inr (o, e) ↦
        elim (Bool-cases
          (status_eq o.order_status driver_assigned && is_id o.assigned_driver_id d)) [
            | inl goes ↦ inr (
              k,
              o,
              arriving o,
              (find_order-find k w e).0,
              refl,
              Change.accepts o d (ground arith) (ground arith),
              ground arith,
              inl (actor d, ground arith),
            )
            | inr skips ↦ inl (ground arith, ground arith)
          ]
  ]

  pub reject-OneChange : (k d : ℕ) (w : World p) → OneChange cfg w (reject_dispatch cfg k d w).1
  unfolding reject_dispatch
  reject-OneChange k d w = elim (Option-cases (find_order k w)) [
    | inl e ↦ inl (ground arith, ground arith)
    | inr (o, e) ↦
        elim (Bool-cases
          (status_eq o.order_status driver_assigned && is_id o.assigned_driver_id d)) [
            | inl goes ↦ inr (
              k,
              o,
              taken_back cfg (o.attempted_driver_ids ++ d ∷ []) o,
              (find_order-find k w e).0,
              refl,
              Change.takes_back o d (o.attempted_driver_ids ++ d ∷ []) (ground arith) (ground arith)
                  (inr refl),
              ground arith,
              inl (actor d, ground arith),
            )
            | inr skips ↦ inl (ground arith, ground arith)
          ]
  ]

  -- The handler of the job ASSIGN_DRIVER makes one change: an offer to a driver not tried before, or the
  -- expiry.
  finish-OneChange :
      (free : ℕ → Bool) (k : ℕ) (cs : List (Driver p.Float)) (w : World p)
      → IsKeyed w
      → OneChange cfg w (finish_assignment cfg k (assign_driver_with_lock free k cs w))
  unfolding finish_assignment assigned
  finish-OneChange free k cs w keyed = elim (assign_cases free k cs w) [
    | inl nobody ↦ rw nobody (expire_order-OneChange k w)
    | inr (o, d, found, waits, picked, e) ↦ rw e (
        inr (
          k,
          o,
          assigned d.id o,
          (find_order-find k w found).0,
          refl,
          Change.offers o d.id waits (picked_untried free k o d cs w keyed picked),
          refl,
          inl (system, ground arith),
        ))
  ]

  offer_to-OneChange :
      (free : ℕ → Bool) (k : ℕ) (cs : List (Driver p.Float)) (w : World p)
      → IsKeyed w
      → OneChange cfg w (offer_to cfg free k cs w)
  unfolding offer_to
  offer_to-OneChange free k [] w keyed = expire_order-OneChange k w
  offer_to-OneChange free k (c ∷ cs) w keyed = finish-OneChange free k (c ∷ cs) w keyed

  -- If the rows stand under their ids, then `handleAssignDriver`, from whatever row it has read first,
  -- leaves the orders and the history alone, or makes one change of the life cycle to one order as it is
  -- now, and records it.
  pub assign_from-OneChange :
      (free : ℕ → Bool) (o : Order p.Float) (w : World p)
      → IsKeyed w
      → OneChange cfg w (assign_from cfg free o w)
  unfolding assign_from
  assign_from-OneChange free o w keyed = elim (Bool-cases (should_skip_assignment o.order_status)) [
    | inl skips ↦ inl (rw skips refl, rw skips refl)
    | inr goes ↦ elim (Bool-cases (leb cfg.max_attempts o.dispatch_attempts)) [
      | inl spent ↦ rw (goes, spent) (expire_order-OneChange o.id w)
      | inr left ↦
          rw (goes, left) (offer_to-OneChange free o.id (find_nearest_eligible_drivers o w) w keyed)
    ]
  ]

  pub assign-OneChange :
      (free : ℕ → Bool) (k : ℕ) (w : World p)
      → IsKeyed w
      → OneChange cfg w (handle_assign_driver cfg free k w)
  unfolding handle_assign_driver
  assign-OneChange free k w keyed = elim (Option-cases (find_order k w)) [
    | inl e ↦ inl (ground arith, ground arith)
    | inr (o, e) ↦ rw (e, handle_assign_driver) (assign_from-OneChange free o w keyed)
  ]
