-- ===== src/System/Frames.antt =====
-- The handlers of the orders, and the estimates, leave the drivers and the outbox alone.
use logistics_dispatch.Common.{
  Bool, Bool-cases, List, Option-cases, [], arith, inl, inr, leb, refl, ℕ, ◌∷◌, ◌≡◌,
}
use logistics_dispatch.Dispatch.Answers.{handle_dispatch_timeout}
use logistics_dispatch.Dispatch.Assign.{
  assign_driver_with_lock, assign_from, finish_assignment, give_up, handle_assign_driver, offer_to,
}
use logistics_dispatch.Dispatch.Candidates.{find_nearest_eligible_drivers}
use logistics_dispatch.Dispatch.Config.{DispatchConfig, should_skip_assignment}
use logistics_dispatch.Dispatch.Refinement.{assign_cases}
use logistics_dispatch.Drivers.Entity.{Driver}
use logistics_dispatch.Drivers.Service.{accept_order_dispatch, reject_order_dispatch}
use logistics_dispatch.Orders.Entity.{Order}
use logistics_dispatch.Orders.Requests.{reassign_order, soft_delete, update_status}
use logistics_dispatch.Orders.Status.{OrderStatus}
use logistics_dispatch.Platform.{Platform}
use logistics_dispatch.Tracking.{handle_eta_recalculation}
use logistics_dispatch.Users.Entity.{JwtUser}
use logistics_dispatch.World.{World, find_order}

abbrev pub SameRest : {p : Platform} → World p → World p → Type 0
SameRest w w' = (w'.drivers ≡ w.drivers) × (w'.outbox ≡ w.outbox)

module _ {p : Platform} where
  pub eta-SameRest : (k d : ℕ) (w : World p) → SameRest w (handle_eta_recalculation k d w)
  unfolding handle_eta_recalculation
  eta-SameRest k d w = (ground arith, ground arith)

  pub timeout-SameRest :
      (cfg : DispatchConfig) (k d : ℕ) (w : World p)
      → SameRest w (handle_dispatch_timeout cfg k d w)
  unfolding handle_dispatch_timeout
  timeout-SameRest cfg k d w = (ground arith, ground arith)

  pub accept-SameRest :
      (k : ℕ) (user : JwtUser) (w : World p) → SameRest w (accept_order_dispatch k user w).1
  unfolding accept_order_dispatch
  accept-SameRest k user w = (ground arith, ground arith)

  pub reject-SameRest :
      (cfg : DispatchConfig) (k : ℕ) (user : JwtUser) (w : World p)
      → SameRest w (reject_order_dispatch cfg k user w).1
  unfolding reject_order_dispatch
  reject-SameRest cfg k user w = (ground arith, ground arith)

  pub delete-SameRest : (k now : ℕ) (w : World p) → SameRest w (soft_delete k now w).1
  unfolding soft_delete
  delete-SameRest k now w = (ground arith, ground arith)

  pub update-SameRest :
      (k : ℕ) (new : OrderStatus) (user : JwtUser) (w : World p)
      → SameRest w (update_status k new user w).1
  unfolding update_status
  update-SameRest k new user w = (ground arith, ground arith)

  pub reassign-SameRest :
      (k : ℕ) (user : JwtUser) (w : World p) → SameRest w (reassign_order k user w).1
  unfolding reassign_order
  reassign-SameRest k user w = (ground arith, ground arith)

  pub give_up-SameRest : (k : ℕ) (w : World p) → SameRest w (give_up k w)
  unfolding give_up
  give_up-SameRest k w = (ground arith, ground arith)

  pub assign-SameRest :
      (cfg : DispatchConfig) (free : ℕ → Bool) (k : ℕ) (w : World p)
      → SameRest w (handle_assign_driver cfg free k w)
  unfolding handle_assign_driver
  assign-SameRest cfg free k w = elim (Option-cases (find_order k w)) [
    | inl e ↦ (ground arith, ground arith)
    | inr (o, e) ↦ rw (e, handle_assign_driver) (from_row o)
  ]
    where
      finish :
          (k : ℕ) (cs : List (Driver p.Float))
          → SameRest w (finish_assignment cfg k (assign_driver_with_lock free k cs w))
      finish k cs = elim (assign_cases free k cs w) [
        | inl nobody ↦ rw nobody (give_up-SameRest k w)
        | inr (o, d, found, waits, picked, e) ↦ rw e (refl, refl)
      ]

      offered : (k : ℕ) (cs : List (Driver p.Float)) → SameRest w (offer_to cfg free k cs w)
      offered k [] = give_up-SameRest k w
      offered k (c ∷ cs) = finish k (c ∷ cs)

      from_row : (o : Order p.Float) → SameRest w (assign_from cfg free o w)
      from_row o = elim (Bool-cases (should_skip_assignment o.order_status)) [
        | inl skips ↦ rw skips (refl, refl)
        | inr goes ↦ elim (Bool-cases (leb cfg.max_attempts o.dispatch_attempts)) [
          | inl spent ↦ rw (goes, spent) (give_up-SameRest o.id w)
          | inr left ↦ rw (goes, left) (offered o.id (find_nearest_eligible_drivers o w))
        ]
      ]
