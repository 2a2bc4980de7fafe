-- ===== src/Http/Routes.antt =====
-- The routes of src/orders/orders.controller.ts and src/drivers/drivers.controller.ts that change orders
-- and drivers.
use logistics_dispatch.Common.{
  Bool, Exception, List, Option, Result, Result-cases, [], arith, err, false, inl, inr, none, ok,
  refl, some, true, ℕ, ◌&&◌, ◌||◌, ◌∷◌, ◌≡◌, ◌⊎◌,
}
use logistics_dispatch.Auth.Tokens.{JwtPayload}
use logistics_dispatch.Dispatch.Config.{DispatchConfig}
use logistics_dispatch.Drivers.Service.{
  accept_order_dispatch, reject_order_dispatch, toggle_availability, toggle_suspension,
  update_location,
}
use logistics_dispatch.Http.Guards.{IsAdmitted, authorize, authorize-IsAdmitted, can_activate}
use logistics_dispatch.Orders.Create.{CreateOrderDto, IdempotencyKey, create_order}
use logistics_dispatch.Orders.Requests.{cancel_order, reassign_order, soft_delete, update_status}
use logistics_dispatch.Orders.Status.{OrderStatus, cancelled, status_eq}
use logistics_dispatch.Platform.{Platform}
use logistics_dispatch.System.{
  Event, accepts_order, creates, reassigns, rejects_order, sets_location, soft_deletes, step,
  toggles_availability, toggles_suspension, updates,
}
use logistics_dispatch.Users.Entity.{JwtUser, UserRole, admin, customer, driver, role_eq}
use logistics_dispatch.World.{World}

-- A request, with its parameters; the ids and the time that its handler draws come last.
pub data Request (p : Platform) : Type 0 where
  post_order : CreateOrderDto p.Float → Option IdempotencyKey → ℕ → ℕ → ℕ → Request p
  patch_status : ℕ → OrderStatus → Request p
  patch_reassign patch_cancel : ℕ → Request p
  delete_order : ℕ → ℕ → Request p
  patch_availability : Request p
  patch_location : p.Float → p.Float → Request p
  patch_accept patch_reject patch_suspension : ℕ → Request p

-- The result without its value.
abbrev pub done : {A : Type 0} → Result A → Result (Unit {0})
done (ok a) = ok tt
done (err e) = err e

module _ {p : Platform} where
  -- `@Roles(…)`
  unfoldable pub roles_of : Request p → List UserRole
  roles_of (post_order dto key order_id outbox_id now) = customer ∷ []
  roles_of (patch_status order_id new) = driver ∷ admin ∷ []
  roles_of (patch_reassign order_id) = admin ∷ []
  roles_of (patch_cancel order_id) = customer ∷ admin ∷ []
  roles_of (delete_order order_id now) = admin ∷ []
  roles_of patch_availability = driver ∷ []
  roles_of (patch_location lat lng) = driver ∷ []
  roles_of (patch_accept order_id) = driver ∷ []
  roles_of (patch_reject order_id) = driver ∷ []
  roles_of (patch_suspension driver_id) = admin ∷ []

  -- What the request asks of the service.
  abbrev pub event_of : Request p → JwtUser → Event p
  event_of (post_order dto key order_id outbox_id now) user =
      creates dto user.user_id key order_id outbox_id now
  event_of (patch_status order_id new) user = updates order_id new user
  event_of (patch_reassign order_id) user = reassigns order_id user
  event_of (patch_cancel order_id) user = updates order_id cancelled user
  event_of (delete_order order_id now) user = soft_deletes order_id now
  event_of patch_availability user = toggles_availability user
  event_of (patch_location lat lng) user = sets_location user lat lng
  event_of (patch_accept order_id) user = accepts_order order_id user
  event_of (patch_reject order_id) user = rejects_order order_id user
  event_of (patch_suspension driver_id) user = toggles_suspension driver_id

  -- Who may do what: customers create orders and cancel them, drivers work on the orders and look after
  -- their own profile, and admins handle orders and suspensions. The rest is nobody's request.
  abbrev pub may_cause : UserRole → Event p → Bool
  may_cause role (creates dto customer_id key order_id outbox_id now) = role_eq role customer
  may_cause role (updates order_id new user) =
      role_eq role driver
      || role_eq role admin
      || (role_eq role customer && status_eq new cancelled)
  may_cause role (reassigns order_id user) = role_eq role admin
  may_cause role (soft_deletes order_id now) = role_eq role admin
  may_cause role (accepts_order order_id user) = role_eq role driver
  may_cause role (rejects_order order_id user) = role_eq role driver
  may_cause role (toggles_availability user) = role_eq role driver
  may_cause role (sets_location user lat lng) = role_eq role driver
  may_cause role (toggles_suspension driver_id) = role_eq role admin
  may_cause role _ = false

  -- Whose name an event carries.
  abbrev pub asker_of : Event p → Option ℕ
  asker_of (creates dto customer_id key order_id outbox_id now) = some customer_id
  asker_of (updates order_id new user) = some user.user_id
  asker_of (reassigns order_id user) = some user.user_id
  asker_of (accepts_order order_id user) = some user.user_id
  asker_of (rejects_order order_id user) = some user.user_id
  asker_of (toggles_availability user) = some user.user_id
  asker_of (sets_location user lat lng) = some user.user_id
  asker_of _ = none

  roles_of-may_cause :
      (r : Request p) (user : JwtUser)
      → can_activate (roles_of r) user ≡ true
      → may_cause user.role (event_of r user) ≡ true
  unfolding roles_of can_activate
  roles_of-may_cause (post_order dto key order_id outbox_id now) user h = ground arith
  roles_of-may_cause (patch_status order_id new) user h = ground arith
  roles_of-may_cause (patch_reassign order_id) user h = ground arith
  roles_of-may_cause (patch_cancel order_id) user h = ground arith
  roles_of-may_cause (delete_order order_id now) user h = ground arith
  roles_of-may_cause patch_availability user h = ground arith
  roles_of-may_cause (patch_location lat lng) user h = ground arith
  roles_of-may_cause (patch_accept order_id) user h = ground arith
  roles_of-may_cause (patch_reject order_id) user h = ground arith
  roles_of-may_cause (patch_suspension driver_id) user h = ground arith

  event_of-asker :
      (r : Request p) (user : JwtUser)
      → (asker_of (event_of r user) ≡ none) ⊎ (asker_of (event_of r user) ≡ some user.user_id)
  event_of-asker (post_order dto key order_id outbox_id now) user = inr refl
  event_of-asker (patch_status order_id new) user = inr refl
  event_of-asker (patch_reassign order_id) user = inr refl
  event_of-asker (patch_cancel order_id) user = inr refl
  event_of-asker (delete_order order_id now) user = inl refl
  event_of-asker patch_availability user = inr refl
  event_of-asker (patch_location lat lng) user = inr refl
  event_of-asker (patch_accept order_id) user = inr refl
  event_of-asker (patch_reject order_id) user = inr refl
  event_of-asker (patch_suspension driver_id) user = inl refl

module _ {p : Platform} (cfg : DispatchConfig) where
  -- The methods of the controllers.
  unfoldable pub call_service : Request p → JwtUser → World p → Result (Unit {0}) × World p
  unfolding create_order update_status reassign_order cancel_order soft_delete toggle_availability
      update_location accept_order_dispatch reject_order_dispatch toggle_suspension
  call_service (post_order dto key order_id outbox_id now) user w =
      let x = create_order dto user.user_id key order_id outbox_id now w in (done x.0, x.1)
  call_service (patch_status order_id new) user w =
      let x = update_status order_id new user w in (done x.0, x.1)
  call_service (patch_reassign order_id) user w =
      let x = reassign_order order_id user w in (done x.0, x.1)
  call_service (patch_cancel order_id) user w =
      let x = cancel_order order_id user w in (done x.0, x.1)
  call_service (delete_order order_id now) user w =
      let x = soft_delete order_id now w in (done x.0, x.1)
  call_service patch_availability user w = let x = toggle_availability user w in (done x.0, x.1)
  call_service (patch_location lat lng) user w =
      let x = update_location user lat lng w in (done x.0, x.1)
  call_service (patch_accept order_id) user w =
      let x = accept_order_dispatch order_id user w in (done x.0, x.1)
  call_service (patch_reject order_id) user w =
      let x = reject_order_dispatch cfg order_id user w in (done x.0, x.1)
  call_service (patch_suspension driver_id) user w =
      let x = toggle_suspension driver_id w in (done x.0, x.1)

  -- The guards, and then the method.
  unfoldable pub handle_request :
      Option JwtPayload → Request p → World p → Result (Unit {0}) × World p
  unfolding authorize roles_of call_service
  handle_request token r w = elim (authorize (roles_of r) token w) [
    | err e ↦ (err e, w)
    | ok user ↦ call_service r user w
  ]

  call_service-step :
      (r : Request p) (user : JwtUser) (w : World p)
      → (call_service r user w).1 ≡ step cfg (event_of r user) w
  unfolding call_service step cancel_order
  call_service-step (post_order dto key order_id outbox_id now) user w = refl
  call_service-step (patch_status order_id new) user w = refl
  call_service-step (patch_reassign order_id) user w = refl
  call_service-step (patch_cancel order_id) user w = refl
  call_service-step (delete_order order_id now) user w = refl
  call_service-step patch_availability user w = refl
  call_service-step (patch_location lat lng) user w = refl
  call_service-step (patch_accept order_id) user w = refl
  call_service-step (patch_reject order_id) user w = refl
  call_service-step (patch_suspension driver_id) user w = refl

  -- A request is refused and changes nothing, or it comes from a user who is in the table, with a verified
  -- email, and its effect is the step of the service that it asks for; the role of that user in the
  -- table may cause such an event, and the event carries the user's id where it carries one.
  pub handle_request-step :
      (token : Option JwtPayload) (r : Request p) (w : World p)
      → ((e : Exception) × (handle_request token r w ≡ (err e, w)))
        ⊎ ((user : JwtUser) × IsAdmitted (roles_of r) token user w
            × ((handle_request token r w).1 ≡ step cfg (event_of r user) w)
            × (may_cause user.role (event_of r user) ≡ true)
            × ((asker_of (event_of r user) ≡ none)
                ⊎ (asker_of (event_of r user) ≡ some user.user_id)))
  unfolding handle_request
  handle_request-step token r w = elim (Result-cases (authorize (roles_of r) token w)) [
    | inl (user, e) ↦
        let by = authorize-IsAdmitted (roles_of r) token user w e in
        let (_, _, _, _, _, _, _, role) = by in
        inr (
          user,
          by,
          rw (e, handle_request) (call_service-step r user w),
          roles_of-may_cause r user role,
          event_of-asker r user,
        )
    | inr (e, h) ↦ inl (e, rw (h, handle_request) refl)
  ]
