-- ===== src/System/Orders.antt =====
-- What each event of the service does to the table of orders: nothing, one change of one row, or one
-- new row.
use logistics_dispatch.Common.{
  Bool, Bool-cases, List, Option, Result, [], arith, err, inl, inr, none, ok, refl, some, truthy, ℕ,
  ◌∙◌, ◌∷◌, ◌≡◌, ◌⊎◌,
}
use logistics_dispatch.Dispatch.Config.{DispatchConfig}
use logistics_dispatch.Dispatch.Refinement.{
  accept-OneChange, assign-OneChange, reject-OneChange, timeout-OneChange,
}
use logistics_dispatch.Drivers.Service.{
  accept_order_dispatch, reject_order_dispatch, toggle_availability, toggle_suspension,
  update_location,
}
use logistics_dispatch.Orders.Create.{
  CreateOrderDto, IdempotencyKey, create_checks, create_order, new_order,
}
use logistics_dispatch.Orders.Entity.{actor}
use logistics_dispatch.Orders.Lifecycle.Tables.{IsKeyed, OneChange, SameBooks}
use logistics_dispatch.Orders.Refinement.{
  reassign_order-OneChange, soft_delete-OneChange, update_status-OneChange,
}
use logistics_dispatch.Orders.Status.{pending}
use logistics_dispatch.Outbox.Entity.{
  OutboxBody, OutboxEvent, dispatch_trigger, malformed_trigger, unknown_event,
}
use logistics_dispatch.Outbox.Worker.{attempt, handle_row, handle_rows, next_batch, process_outbox}
use logistics_dispatch.Platform.{Platform, put}
use logistics_dispatch.System.{
  Event, accepts_order, assigns, creates, moves, polls_outbox, promotes_customer, reassigns,
  recalculates, rejects_order, sets_location, soft_deletes, step, times_out, toggles_availability,
  toggles_suspension, updates,
}
use logistics_dispatch.Tracking.{handle_eta_recalculation, handle_location_update}
use logistics_dispatch.Users.Entity.{JwtUser}
use logistics_dispatch.Users.Service.{PromoteToDriverDto, promote_to_driver}
use logistics_dispatch.World.{World}

-- The events of the worker, of the estimates and of the drivers leave the orders alone.
module _ {p : Platform} where
  row-SameBooks :
      (reachable : ℕ → Bool) (now : ℕ) (e : OutboxEvent) (b : OutboxBody) (w : World p)
      → SameBooks w (attempt reachable now e b w)
  unfolding attempt
  row-SameBooks reachable now e (dispatch_trigger k) w = (ground arith, ground arith)
  row-SameBooks reachable now e malformed_trigger w = (refl, refl)
  row-SameBooks reachable now e unknown_event w = (refl, refl)

  handle_rows-SameBooks :
      (reachable : ℕ → Bool) (now : ℕ) (es : List OutboxEvent) (w : World p)
      → SameBooks w (handle_rows reachable now es w)
  unfolding handle_rows
  handle_rows-SameBooks reachable now [] w = (refl, refl)
  handle_rows-SameBooks reachable now (e ∷ es) w =
      let first = row-SameBooks reachable now e e.body w in
      let rest = handle_rows-SameBooks reachable now es (handle_row reachable now e w) in
      (rest.0 ∙ first.0, rest.1 ∙ first.1)

  eta-SameBooks : (k d : ℕ) (w : World p) → SameBooks w (handle_eta_recalculation k d w)
  unfolding handle_eta_recalculation
  eta-SameBooks k d w = (ground arith, ground arith)

  location-SameBooks :
      (d : ℕ) (lat lng : p.Float) (w : World p) → SameBooks w (handle_location_update d lat lng w).1
  unfolding handle_location_update
  location-SameBooks d lat lng w = (ground arith, ground arith)

  availability-SameBooks :
      (user : JwtUser) (w : World p) → SameBooks w (toggle_availability user w).1
  unfolding toggle_availability
  availability-SameBooks user w = (ground arith, ground arith)

  suspension-SameBooks : (d : ℕ) (w : World p) → SameBooks w (toggle_suspension d w).1
  unfolding toggle_suspension
  suspension-SameBooks d w = (ground arith, ground arith)

-- The books after an order is created.
abbrev pub Created :
    {p : Platform} → CreateOrderDto p.Float → ℕ → ℕ → ℕ → World p → World p → Type 0
Created {p} dto c k now w w' =
    (w'.orders ≡ put w.orders k (new_order p dto c k now))
    × (w'.history
        ≡ record { order_id = k; previous_status = none; new_status = pending; actor_id = actor c }
          ∷ w.history)

module _ {p : Platform} (cfg : DispatchConfig) where
  -- The guard on the driver's profile comes first.
  accept_order-OneChange :
      (k : ℕ) (profile : Option ℕ) (user : JwtUser) (w : World p)
      → user.driver_profile_id ≡ profile
      → OneChange cfg w (accept_order_dispatch k user w).1
  unfolding accept_order_dispatch
  accept_order-OneChange k none user w e = inl (ground arith, ground arith)
  accept_order-OneChange k (some d) user w e = elim (Bool-cases (truthy (some d))) [
    | inl known ↦ rw (e, known, accept_order_dispatch) (accept-OneChange cfg k d w)
    | inr empty ↦ inl (ground arith, ground arith)
  ]

  reject_order-OneChange :
      (k : ℕ) (profile : Option ℕ) (user : JwtUser) (w : World p)
      → user.driver_profile_id ≡ profile
      → OneChange cfg w (reject_order_dispatch cfg k user w).1
  unfolding reject_order_dispatch
  reject_order-OneChange k none user w e = inl (ground arith, ground arith)
  reject_order-OneChange k (some d) user w e = elim (Bool-cases (truthy (some d))) [
    | inl known ↦ rw (e, known, reject_order_dispatch) (reject-OneChange cfg k d w)
    | inr empty ↦ inl (ground arith, ground arith)
  ]

  set_location-SameBooks :
      (user : JwtUser) (lat lng : p.Float) (w : World p)
      → SameBooks w (update_location user lat lng w).1
  unfolding update_location
  set_location-SameBooks user lat lng w = (ground arith, ground arith)

  promotion-SameBooks :
      (license_free : Bool) (user_id driver_id now : ℕ) (dto : PromoteToDriverDto) (w : World p)
      → SameBooks w (promote_to_driver license_free user_id dto driver_id now w).1
  unfolding promote_to_driver
  promotion-SameBooks license_free user_id driver_id now dto w = (ground arith, ground arith)

  -- A creation that passes its checks writes the new row and the first row of its history.
  create-books :
      (dto : CreateOrderDto p.Float) (c : ℕ) (key : Option IdempotencyKey) (k b now : ℕ)
      (w : World p) (checks : Result (Unit {0}))
      → create_checks dto key w ≡ checks
      → SameBooks w (create_order dto c key k b now w).1
        ⊎ Created dto c k now w (create_order dto c key k b now w).1
  unfolding create_order
  create-books dto c key k b now w (err x) e = inl (ground arith, ground arith)
  create-books dto c none k b now w (ok x) e = inr (ground arith, ground arith)
  create-books dto c (some key) k b now w (ok x) e = inr (ground arith, ground arith)

  -- Every event but a creation changes one order at most, by one step of its life cycle.
  pub step-OneChange :
      (e : Event p) (w : World p)
      → IsKeyed w
      → OneChange cfg w (step cfg e w)
        ⊎ ((dto : CreateOrderDto p.Float) × (c : ℕ) × (key : Option IdempotencyKey) × (k : ℕ)
            × (b : ℕ) × (now : ℕ) × (e ≡ creates dto c key k b now)
            × Created dto c k now w (step cfg e w))
  unfolding step process_outbox
  step-OneChange (creates dto c key k b now) w keyed =
      elim (create-books dto c key k b now w (create_checks dto key w) refl) [
        | inl same ↦ inl (inl same)
        | inr made ↦ inr (dto, c, key, k, b, now, refl, made)
      ]
  step-OneChange (updates k new user) w keyed = inl (update_status-OneChange cfg k new user w keyed)
  step-OneChange (reassigns k user) w keyed = inl (reassign_order-OneChange cfg k user w keyed)
  step-OneChange (soft_deletes k now) w keyed = inl (soft_delete-OneChange cfg k now w)
  step-OneChange (assigns free k) w keyed = inl (assign-OneChange cfg free k w keyed)
  step-OneChange (times_out k d) w keyed = inl (timeout-OneChange cfg k d w)
  step-OneChange (accepts_order k user) w keyed =
      inl (accept_order-OneChange k user.driver_profile_id user w refl)
  step-OneChange (rejects_order k user) w keyed =
      inl (reject_order-OneChange k user.driver_profile_id user w refl)
  step-OneChange (toggles_availability user) w keyed = inl (inl (availability-SameBooks user w))
  step-OneChange (toggles_suspension d) w keyed = inl (inl (suspension-SameBooks d w))
  step-OneChange (moves d lat lng) w keyed = inl (inl (location-SameBooks d lat lng w))
  step-OneChange (sets_location user lat lng) w keyed =
      inl (inl (set_location-SameBooks user lat lng w))
  step-OneChange (promotes_customer license_free user_id dto driver_id now) w keyed =
      inl (inl (promotion-SameBooks license_free user_id driver_id now dto w))
  step-OneChange (recalculates k d) w keyed = inl (inl (eta-SameBooks k d w))
  step-OneChange (polls_outbox reachable now) w keyed =
      inl (inl (handle_rows-SameBooks reachable now (next_batch w) w))
