-- ===== src/System/Outbox.antt =====
-- What each event of the service does to the outbox: only a creation adds an event, and only the worker
-- changes one.
use logistics_dispatch.Common.{
  All, Bool, List, Option, [], arith, inl, inr, sym, ℕ, ◌++◌, ◌∷◌, ◌≡◌, ◌⊎◌,
}
use logistics_dispatch.Dispatch.Config.{DispatchConfig}
use logistics_dispatch.Drivers.Service.{toggle_availability, toggle_suspension, update_location}
use logistics_dispatch.Orders.Create.{CreateOrderDto, IdempotencyKey, create_order, trigger_event}
use logistics_dispatch.Outbox.Delivery.{IsSoundEvent, IsSoundOutbox, process_outbox-IsSoundOutbox}
use logistics_dispatch.Outbox.Entity.{OutboxEvent}
use logistics_dispatch.Platform.{Platform}
use logistics_dispatch.System.{
  Event, accepts_order, assigns, creates, moves, polls_outbox, promotes_customer, reassigns,
  recalculates, rejects_order, sets_location, soft_deletes, step, times_out, toggles_availability,
  toggles_suspension, updates,
}
use logistics_dispatch.System.Frames.{
  accept-SameRest, assign-SameRest, delete-SameRest, eta-SameRest, reassign-SameRest,
  reject-SameRest, timeout-SameRest, update-SameRest,
}
use logistics_dispatch.Tracking.{handle_location_update}
use logistics_dispatch.Users.Entity.{JwtUser}
use logistics_dispatch.Users.Service.{PromoteToDriverDto, promote_to_driver}
use logistics_dispatch.World.{World}
use mathlib.Core.Path.{subst}

append-All {ℓ} :
    (P : OutboxEvent → Type ℓ) (es : List OutboxEvent) (e : OutboxEvent)
    → All P es
    → P e
    → All P (es ++ e ∷ [])
append-All P [] e all h = (h, tt)
append-All P (x ∷ es) e all h = (all.0, append-All P es e all.1 h)

module _ {p : Platform} where
  create-outbox :
      (dto : CreateOrderDto p.Float) (c : ℕ) (key : Option IdempotencyKey) (k b now : ℕ)
      (w : World p)
      → ((create_order dto c key k b now w).1.outbox ≡ w.outbox)
        ⊎ ((create_order dto c key k b now w).1.outbox ≡ w.outbox ++ trigger_event b k now ∷ [])
  unfolding create_order
  create-outbox dto c key k b now w = ground arith

  create-IsSoundOutbox :
      (dto : CreateOrderDto p.Float) (c : ℕ) (key : Option IdempotencyKey) (k b now : ℕ)
      (w : World p)
      → IsSoundOutbox w
      → IsSoundOutbox (create_order dto c key k b now w).1
  create-IsSoundOutbox dto c key k b now w h = elim (create-outbox dto c key k b now w) [
    | inl same ↦ subst (All IsSoundEvent) (sym same) h
    | inr made ↦
        subst (All IsSoundEvent) (sym made)
          (append-All IsSoundEvent w.outbox (trigger_event b k now) h (ground arith))
  ]

  availability-outbox :
      (user : JwtUser) (w : World p) → (toggle_availability user w).1.outbox ≡ w.outbox
  unfolding toggle_availability
  availability-outbox user w = ground arith

  suspension-outbox : (d : ℕ) (w : World p) → (toggle_suspension d w).1.outbox ≡ w.outbox
  unfolding toggle_suspension
  suspension-outbox d w = ground arith

  location-outbox :
      (d : ℕ) (lat lng : p.Float) (w : World p)
      → (handle_location_update d lat lng w).1.outbox ≡ w.outbox
  unfolding handle_location_update
  location-outbox d lat lng w = ground arith

  set_location-outbox :
      (user : JwtUser) (lat lng : p.Float) (w : World p)
      → (update_location user lat lng w).1.outbox ≡ w.outbox
  unfolding update_location
  set_location-outbox user lat lng w = ground arith

  promotion-outbox :
      (license_free : Bool) (user_id driver_id now : ℕ) (dto : PromoteToDriverDto) (w : World p)
      → (promote_to_driver license_free user_id dto driver_id now w).1.outbox ≡ w.outbox
  unfolding promote_to_driver
  promotion-outbox license_free user_id driver_id now dto w = ground arith

  -- Every event keeps the events of the outbox sound.
  pub step-IsSoundOutbox :
      (cfg : DispatchConfig) (e : Event p) (w : World p)
      → IsSoundOutbox w
      → IsSoundOutbox (step cfg e w)
  unfolding step
  step-IsSoundOutbox cfg (creates dto c key k b now) w h =
      create-IsSoundOutbox dto c key k b now w h
  step-IsSoundOutbox cfg (updates k new user) w h = rw (update-SameRest k new user w).1 h
  step-IsSoundOutbox cfg (reassigns k user) w h = rw (reassign-SameRest k user w).1 h
  step-IsSoundOutbox cfg (soft_deletes k now) w h = rw (delete-SameRest k now w).1 h
  step-IsSoundOutbox cfg (assigns free k) w h = rw (assign-SameRest cfg free k w).1 h
  step-IsSoundOutbox cfg (times_out k d) w h = rw (timeout-SameRest cfg k d w).1 h
  step-IsSoundOutbox cfg (accepts_order k user) w h = rw (accept-SameRest k user w).1 h
  step-IsSoundOutbox cfg (rejects_order k user) w h = rw (reject-SameRest cfg k user w).1 h
  step-IsSoundOutbox cfg (toggles_availability user) w h = rw (availability-outbox user w) h
  step-IsSoundOutbox cfg (toggles_suspension d) w h = rw (suspension-outbox d w) h
  step-IsSoundOutbox cfg (moves d lat lng) w h = rw (location-outbox d lat lng w) h
  step-IsSoundOutbox cfg (sets_location user lat lng) w h =
      rw (set_location-outbox user lat lng w) h
  step-IsSoundOutbox cfg (promotes_customer license_free user_id dto driver_id now) w h =
      rw (promotion-outbox license_free user_id driver_id now dto w) h
  step-IsSoundOutbox cfg (recalculates k d) w h = rw (eta-SameRest k d w).1 h
  step-IsSoundOutbox cfg (polls_outbox reachable now) w h =
      process_outbox-IsSoundOutbox reachable now w h
