-- ===== src/Dispatch/Rounds.antt =====
-- How the attempts of an order are counted (src/dispatch/dispatch.service.ts).
use logistics_dispatch.Common.{
  ==_refl, Bool, List, [], arith, false, if◌then◌else◌, leb, refl, some, to_set, ℕ, ◌++◌, ◌+◌, ◌/◌,
  ◌<◌, ◌∷◌, ◌≡◌,
}
use logistics_dispatch.Dispatch.Answers.{handle_dispatch_timeout, taken_back}
use logistics_dispatch.Dispatch.Assign.{
  assign_driver_with_lock, assign_from, assigned, finish_assignment, give_up, handle_assign_driver,
  offer_to, pick_driver,
}
use logistics_dispatch.Dispatch.Candidates.{find_nearest_eligible_drivers, non_empty}
use logistics_dispatch.Dispatch.Config.{
  DispatchConfig, EnvNumber, dispatch_config, fraction, should_skip_assignment,
}
use logistics_dispatch.Drivers.Entity.{Driver}
use logistics_dispatch.Orders.Entity.{Order, system}
use logistics_dispatch.Orders.Lifecycle.Tables.{find_order-find}
use logistics_dispatch.Orders.Status.{driver_assigned, expired, pending}
use logistics_dispatch.Platform.{Platform, find-put}
use logistics_dispatch.World.{World, find_order, history_row, save_change}
use native.Mathlib.Nat.{div-eq_of_lt}

module _ {p : Platform} (cfg : DispatchConfig) where
  pub locked_offer :
      (free : ℕ → Bool) (k : ℕ) (o : Order p.Float) (d : Driver p.Float)
      (cs : List (Driver p.Float)) (w : World p)
      → find_order k w ≡ some o
      → o.order_status ≡ pending
      → pick_driver free (to_set (non_empty o.attempted_driver_ids)) o.vehincle_type w cs ≡ some d
      → assign_driver_with_lock free k cs w ≡ (
        some d.id,
        save_change (assigned d.id o) (history_row o.id o.order_status driver_assigned system) w,
      )
  unfolding assign_driver_with_lock
  locked_offer free k o d cs w found waits picked = ground arith

  -- The row after an offer.
  pub offered_row :
      (free : ℕ → Bool) (k : ℕ) (o : Order p.Float) (d c : Driver p.Float)
      (cs : List (Driver p.Float)) (w : World p)
      → o.id ≡ k
      → find_order k w ≡ some o
      → o.order_status ≡ pending
      → o.dispatch_attempts < cfg.max_attempts
      → find_nearest_eligible_drivers o w ≡ c ∷ cs
      → pick_driver free (to_set (non_empty o.attempted_driver_ids)) o.vehincle_type w (c ∷ cs)
        ≡ some d
      → find_order k (handle_assign_driver cfg free k w) ≡ some (assigned d.id o)
  unfolding handle_assign_driver assign_from offer_to finish_assignment assigned
  offered_row free k o d c cs w own found waits left ranked picked =
      let goes : should_skip_assignment o.order_status ≡ false = rw waits refl in
      let more : leb cfg.max_attempts o.dispatch_attempts ≡ false = ground (arith, left) in
      rw
        (
          found,
          goes,
          more,
          ranked,
          own,
          locked_offer free k o d (c ∷ cs) w found waits picked,
          handle_assign_driver,
        )
        (ground (
          arith,
          own,
          find_order-find k w found,
          find-put w.orders o.id k (assigned d.id o),
          ==_refl k,
        ))

  -- The row after the timeout of its offer.
  timed_out_row :
      (k d : ℕ) (o : Order p.Float) (w : World p)
      → o.id ≡ k
      → find_order k w ≡ some o
      → o.order_status ≡ driver_assigned
      → o.assigned_driver_id ≡ some d
      → find_order k (handle_dispatch_timeout cfg k d w)
        ≡ some (taken_back cfg o.attempted_driver_ids o)
  unfolding handle_dispatch_timeout taken_back
  timed_out_row k d o w own found is_offered mine = ground (
    arith,
    find_order-find k w found,
    find-put w.orders o.id k (taken_back cfg o.attempted_driver_ids o),
    ==_refl k,
  )

  -- If an order that stands under its id waits with attempts left, and a driver is picked from the
  -- candidates, then the job ASSIGN_DRIVER followed by the timeout of its offer counts two attempts,
  -- adds the driver to those who were tried, and lets the order wait again or, where two more attempts
  -- reach the limit, expire.
  round_counts_twice :
      (free : ℕ → Bool) (k : ℕ) (o : Order p.Float) (d c : Driver p.Float)
      (cs : List (Driver p.Float)) (w : World p)
      → o.id ≡ k
      → find_order k w ≡ some o
      → o.order_status ≡ pending
      → o.dispatch_attempts < cfg.max_attempts
      → find_nearest_eligible_drivers o w ≡ c ∷ cs
      → pick_driver free (to_set (non_empty o.attempted_driver_ids)) o.vehincle_type w (c ∷ cs)
        ≡ some d
      → (r : Order p.Float) × (find_order k
            (handle_dispatch_timeout cfg k d.id (handle_assign_driver cfg free k w))
          ≡ some r)
        × (r.dispatch_attempts ≡ o.dispatch_attempts + 2)
        × (r.order_status
            ≡ (if leb cfg.max_attempts (o.dispatch_attempts + 2) then expired else pending))
        × (r.attempted_driver_ids ≡ to_set (non_empty o.attempted_driver_ids) ++ d.id ∷ [])
  unfolding assigned taken_back
  round_counts_twice free k o d c cs w own found waits left ranked picked = (
    taken_back cfg (assigned d.id o).attempted_driver_ids (assigned d.id o),
    timed_out_row k d.id (assigned d.id o) (handle_assign_driver cfg free k w) own
        (offered_row free k o d c cs w own found waits left ranked picked) refl refl,
    omega arith,
    ground arith,
    refl,
  )

module _ {p : Platform} where
  -- A limit of attempts between 0 and 1 passes as a positive number and is rounded down to 0: then the
  -- job ASSIGN_DRIVER gives every waiting order up, without an offer.
  fraction_never_offers :
      (top bottom : ℕ) (seconds : EnvNumber) (free : ℕ → Bool) (o : Order p.Float) (w : World p)
      → 0 < top
      → top < bottom
      → o.order_status ≡ pending
      → assign_from (dispatch_config (fraction top bottom) seconds) free o w ≡ give_up o.id w
  unfolding assign_from dispatch_config
  fraction_never_offers top bottom seconds free o w positive below waits =
      let nothing : top / bottom ≡ 0 = div-eq_of_lt below in ground (arith, nothing)
