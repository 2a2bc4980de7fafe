-- ===== src/Dispatch/Repeats.antt =====
-- Repeated and late answers to an offer (src/dispatch/dispatch.service.ts).
use logistics_dispatch.Common.{
  ==_refl, Bool, [], arith, conflict, err, ok, some, ℕ, ◌++◌, ◌>>◌, ◌∷◌, ◌≡◌, ◌≢◌, ◌≤◌,
}
use logistics_dispatch.Dispatch.Answers.{
  accept_dispatch, accepted, already_accepted, already_handled, arriving, handle_dispatch_timeout,
  reject_dispatch, taken_back,
}
use logistics_dispatch.Dispatch.Assign.{assign_from}
use logistics_dispatch.Dispatch.Config.{DispatchConfig}
use logistics_dispatch.Orders.Entity.{Order}
use logistics_dispatch.Orders.Lifecycle.Tables.{IsKeyed, find_order-find}
use logistics_dispatch.Orders.Status.{driver_assigned, expired, pending, status_eq→eq}
use logistics_dispatch.Platform.{Platform, find-put}
use logistics_dispatch.Tracking.{eta_added}
use logistics_dispatch.World.{World, find_order, status_changed}

module _ {p : Platform} (cfg : DispatchConfig) where
  -- For a row that stands under its id, is offered to the driver `d` and is not deleted: if `d`
  -- accepts it, the answer says so, or is the error of the job of the estimate where the queue refuses
  -- its id; after that a second acceptance by `d` answers that it was accepted already, and the timeout
  -- of the offer does nothing; neither changes the state.
  pub accepted_twice :
      (k d : ℕ) (o : Order p.Float) (w : World p)
      → IsKeyed w
      → find_order k w ≡ some o
      → o.order_status ≡ driver_assigned
      → o.assigned_driver_id ≡ some d
      → let w' = (accept_dispatch k d w).1 in
        ((accept_dispatch k d w).0 ≡ (eta_added k w >> ok (accepted k)))
        × (accept_dispatch k d w' ≡ (ok already_accepted, w'))
        × (handle_dispatch_timeout cfg k d w' ≡ w')
  unfolding accept_dispatch handle_dispatch_timeout
  accepted_twice k d o w keyed found is_offered mine = ground (
    arith,
    keyed.order_ids k o,
    find_order-find k w found,
    find-put w.orders (arriving o).id k (arriving o),
    ==_refl k,
  )

  -- For a row that stands under its id, is offered to the driver `d` and is not deleted: after `d` has
  -- rejected it, a second rejection answers that it was handled already, the timeout of the offer does
  -- nothing, and an acceptance by `d` is a conflict; none of them changes the state.
  pub rejected_twice :
      (k d : ℕ) (o : Order p.Float) (w : World p)
      → IsKeyed w
      → find_order k w ≡ some o
      → o.order_status ≡ driver_assigned
      → o.assigned_driver_id ≡ some d
      → let w' = (reject_dispatch cfg k d w).1 in
        (reject_dispatch cfg k d w' ≡ (ok already_handled, w'))
        × (handle_dispatch_timeout cfg k d w' ≡ w')
        × (accept_dispatch k d w' ≡ (err conflict, w'))
  unfolding accept_dispatch handle_dispatch_timeout reject_dispatch
  rejected_twice k d o w keyed found is_offered mine =
      let t = taken_back cfg (o.attempted_driver_ids ++ d ∷ []) o in
      ground (
        arith,
        keyed.order_ids k o,
        find_order-find k w found,
        find-put w.orders t.id k t,
        ==_refl k,
      )

  -- If the job ASSIGN_DRIVER has read an order as waiting with its attempts used up, and the order has
  -- left that state since, then the orders stay as they are, and still the customer is told that the
  -- order has expired.
  pub expiry_of_taken_order :
      (free : ℕ → Bool) (o r : Order p.Float) (w : World p)
      → o.order_status ≡ pending
      → cfg.max_attempts ≤ o.dispatch_attempts
      → find_order o.id w ≡ some r
      → r.order_status ≢ pending
      → let w' = assign_from cfg free o w in
        (w'.orders ≡ w.orders) × (w'.notices ≡ status_changed o.id expired ∷ w.notices)
  unfolding assign_from
  expiry_of_taken_order free o r w waits spent found taken =
      ground (arith, status_eq→eq r.order_status pending)
