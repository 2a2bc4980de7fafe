-- ===== src/Orders/Lifecycle.antt =====
-- The life of an order: every way in which a handler changes its row, as a relation that the
-- dispatch service (src/dispatch/dispatch.service.ts) and the order requests
-- (src/orders/orders.service.ts) refine, and what follows for the version, the state and the driver.
pub mod Laws
pub mod Tables
use logistics_dispatch.Common.{
  Bool, List, [], false, includes, is_known, none, ok, some, true, ℕ, ◌++◌, ◌∷◌, ◌≡◌, ◌⊎◌,
}
use logistics_dispatch.Dispatch.Answers.{arriving, taken_back}
use logistics_dispatch.Dispatch.Assign.{assigned, expired_order}
use logistics_dispatch.Dispatch.Candidates.{non_empty}
use logistics_dispatch.Dispatch.Config.{DispatchConfig}
use logistics_dispatch.Orders.Entity.{Order}
use logistics_dispatch.Orders.Requests.{reopened, with_status}
use logistics_dispatch.Orders.Rules.{validate_actor, validate_transition}
use logistics_dispatch.Orders.Status.{
  OrderStatus, cancelled, delivered, driver_arriving, driver_assigned, expired, failed, has_status,
  in_transit, pending, picked_up,
}
use logistics_dispatch.Users.Entity.{JwtUser}

module _ {Float : Type 0} (cfg : DispatchConfig) where
  -- One change of a row, with the conditions under which a handler makes it.
  pub data Change : Order Float → Order Float → Type 0 where
    offers :
        (o : Order Float) (driver_id : ℕ)
        → o.order_status ≡ pending
        → includes (non_empty o.attempted_driver_ids) driver_id ≡ false
        → Change o (assigned driver_id o)
    gives_up : (o : Order Float) → o.order_status ≡ pending → Change o (expired_order o)
    takes_back :
        (o : Order Float) (driver_id : ℕ) (attempted : List ℕ)
        → o.order_status ≡ driver_assigned
        → o.assigned_driver_id ≡ some driver_id
        → (attempted ≡ o.attempted_driver_ids)
          ⊎ (attempted ≡ o.attempted_driver_ids ++ driver_id ∷ [])
        → Change o (taken_back cfg attempted o)
    accepts :
        (o : Order Float) (driver_id : ℕ)
        → o.order_status ≡ driver_assigned
        → o.assigned_driver_id ≡ some driver_id
        → Change o (arriving o)
    requests :
        (o : Order Float) (new : OrderStatus) (user : JwtUser)
        → validate_actor o new user ≡ ok tt
        → validate_transition o.order_status new ≡ ok tt
        → Change o (with_status new o.version o)
    reopens : (o : Order Float) → o.order_status ≡ expired → Change o (reopened o.version o)
    deletes :
        (o : Order Float) (now : ℕ)
        → has_status
            (driver_assigned ∷ driver_arriving ∷ picked_up ∷ in_transit ∷ [])
            o.order_status
          ≡ false
        → Change o (record o { deleted_at = some now })

  -- Any number of changes, one after another.
  pub data Changes (o : Order Float) : Order Float → Type 0 where
    unchanged : Changes o o
    then_change : {r s : Order Float} → Changes o r → Change r s → Changes o s

-- The states that may follow a state, by whatever handler.
abbrev pub lifecycle : OrderStatus → List OrderStatus
lifecycle pending = driver_assigned ∷ expired ∷ cancelled ∷ []
lifecycle driver_assigned = pending ∷ expired ∷ driver_arriving ∷ cancelled ∷ []
lifecycle driver_arriving = picked_up ∷ cancelled ∷ []
lifecycle picked_up = in_transit ∷ []
lifecycle in_transit = delivered ∷ failed ∷ []
lifecycle expired = pending ∷ []
lifecycle _ = []

-- The states that no handler leaves.
abbrev pub is_final : OrderStatus → Bool
is_final s = has_status (delivered ∷ cancelled ∷ failed ∷ []) s

-- The order is with a driver.
abbrev pub offered_to : {Float : Type 0} → Order Float → Bool
offered_to o = elim o.assigned_driver_id [
  | none ↦ false
  | some d ↦ includes o.attempted_driver_ids d
]

-- What holds of every row between two handlers: an order that waits or has expired has no driver, one
-- on its way has, and the driver to whom it is offered is noted as tried.
pub record IsSound {Float : Type 0} (o : Order Float) : Type 0 where
  pub waits_free : o.order_status ≡ pending → o.assigned_driver_id ≡ none
  pub expired_free : o.order_status ≡ expired → o.assigned_driver_id ≡ none
  pub on_way_held :
      has_status
          (driver_assigned ∷ driver_arriving ∷ picked_up ∷ in_transit ∷ delivered ∷ failed ∷ [])
          o.order_status
        ≡ true
      → is_known o.assigned_driver_id ≡ true
  pub offer_noted : o.order_status ≡ driver_assigned → offered_to o ≡ true

-- A state, and those that the table reaches from it, one step after another.
pub data Reaches (s : OrderStatus) : OrderStatus → Type 0 where
  stays_put : Reaches s s
  then_moves : {t u : OrderStatus} → Reaches s t → has_status (lifecycle t) u ≡ true → Reaches s u
