-- ===== src/Orders/Access.antt =====
-- Who may bring an order into which state, said apart from the order in which
-- src/orders/orders.service.ts tests it.
use logistics_dispatch.Common.{
  Option, [], arith, false, inl, inr, none, ok, refl, some, sym, true, truthy, ℕ, ◌↔◌, ◌∷◌, ◌≡◌,
  ◌⊎◌,
}
use logistics_dispatch.Orders.Entity.{Order}
use logistics_dispatch.Orders.Rules.{check_request, driver_allowed_transitions}
use logistics_dispatch.Orders.Status.{
  OrderStatus, cancelled, delivered, driver_arriving, driver_assigned, expired, failed, has_status,
  in_transit, is_terminal, order_transitions, pending, picked_up, status_eq→eq,
}
use logistics_dispatch.System.{step}
use logistics_dispatch.Users.Entity.{JwtUser, UserRole, admin, customer, driver}
use mathlib.Core.Path.{subst}

-- The steps of a driver on the way.
pub data Progress : OrderStatus → OrderStatus → Type 0 where
  arrives : Progress driver_assigned driver_arriving
  picks_up : Progress driver_arriving picked_up
  sets_out : Progress picked_up in_transit
  delivers : Progress in_transit delivered
  fails : Progress in_transit failed

module _ {Float : Type 0} (o : Order Float) where
  -- The owner may cancel an order that is not yet on its way; an admin may cancel it until the pickup,
  -- and give it up in transit; the driver who has it moves it on.
  pub data MayRequest : OrderStatus → JwtUser → Type 0 where
    owner_cancels :
        (user : JwtUser)
        → user.role ≡ customer
        → o.customer_id ≡ user.user_id
        → (o.order_status ≡ pending) ⊎ (o.order_status ≡ driver_assigned)
        → MayRequest cancelled user
    admin_cancels :
        (user : JwtUser)
        → user.role ≡ admin
        → (o.order_status ≡ pending)
          ⊎ ((o.order_status ≡ driver_assigned) ⊎ (o.order_status ≡ driver_arriving))
        → MayRequest cancelled user
    admin_fails :
        (user : JwtUser) → user.role ≡ admin → o.order_status ≡ in_transit → MayRequest failed user
    driver_moves :
        (user : JwtUser) (driver_id : ℕ) (new : OrderStatus)
        → user.role ≡ driver
        → user.driver_profile_id ≡ some driver_id
        → truthy (some driver_id) ≡ true
        → o.assigned_driver_id ≡ some driver_id
        → Progress o.order_status new
        → MayRequest new user

driver_step :
    (s t : OrderStatus) → has_status (driver_allowed_transitions s) t ≡ true → Progress s t
driver_step driver_assigned driver_arriving h = Progress.arrives
driver_step driver_arriving picked_up h = Progress.picks_up
driver_step picked_up in_transit h = Progress.sets_out
driver_step in_transit delivered h = Progress.delivers
driver_step in_transit failed h = Progress.fails
driver_step s t h = absurd (ground arith)

Progress-transition :
    (s t : OrderStatus)
    → Progress s t
    → (has_status (driver_allowed_transitions s) t ≡ true)
      × (has_status (order_transitions s) t ≡ true)
      × (has_status (driver_assigned ∷ expired ∷ []) t ≡ false)
      × (is_terminal s ≡ false)
Progress-transition s t Progress.arrives = (refl, refl, refl, refl)
Progress-transition s t Progress.picks_up = (refl, refl, refl, refl)
Progress-transition s t Progress.sets_out = (refl, refl, refl, refl)
Progress-transition s t Progress.delivers = (refl, refl, refl, refl)
Progress-transition s t Progress.fails = (refl, refl, refl, refl)

module _ {Float : Type 0} (o : Order Float) where
  granted :
      (new : OrderStatus) (user : JwtUser)
      → MayRequest o new user
      → check_request o new user ≡ ok tt
  unfolding check_request
  granted new user (MayRequest.owner_cancels u r c s) = ground arith
  granted new user (MayRequest.admin_cancels u r s) = ground arith
  granted new user (MayRequest.admin_fails u r s) = ground arith
  granted new user (MayRequest.driver_moves u d n r mine real held step) =
      ground (arith, Progress-transition o.order_status n step)

  by_owner :
      (new : OrderStatus) (user : JwtUser)
      → user.role ≡ customer
      → check_request o new user ≡ ok tt
      → (new ≡ cancelled)
        × (o.customer_id ≡ user.user_id)
        × ((o.order_status ≡ pending) ⊎ (o.order_status ≡ driver_assigned))
  unfolding check_request
  by_owner new user f h = ground (
    arith,
    status_eq→eq new cancelled,
    status_eq→eq o.order_status pending,
    status_eq→eq o.order_status driver_assigned,
  )

  by_admin :
      (new : OrderStatus) (user : JwtUser)
      → user.role ≡ admin
      → check_request o new user ≡ ok tt
      → ((new ≡ cancelled)
          × ((o.order_status ≡ pending)
              ⊎ ((o.order_status ≡ driver_assigned) ⊎ (o.order_status ≡ driver_arriving))))
        ⊎ ((new ≡ failed) × (o.order_status ≡ in_transit))
  unfolding check_request
  by_admin new user f h = ground arith

  by_driver :
      (new : OrderStatus) (user : JwtUser) (profile : Option ℕ)
      → user.role ≡ driver
      → user.driver_profile_id ≡ profile
      → check_request o new user ≡ ok tt
      → (d : ℕ) × (profile ≡ some d)
        × (truthy (some d) ≡ true)
        × (o.assigned_driver_id ≡ some d)
        × (has_status (driver_allowed_transitions o.order_status) new ≡ true)
  unfolding check_request
  by_driver new user none f e h = absurd (ground arith)
  by_driver new user (some d) f e h = (d, refl, ground arith, ground arith, ground arith)

  admitted :
      (new : OrderStatus) (user : JwtUser) (role : UserRole)
      → user.role ≡ role
      → check_request o new user ≡ ok tt
      → MayRequest o new user
  admitted new user customer f h =
      let (a, b, c) = by_owner new user f h in
      subst (λ s. MayRequest o s user) (sym a) (MayRequest.owner_cancels user f b c)
  admitted new user admin f h = elim (by_admin new user f h) [
    | inl (a, b) ↦ subst (λ s. MayRequest o s user) (sym a) (MayRequest.admin_cancels user f b)
    | inr (a, b) ↦ subst (λ s. MayRequest o s user) (sym a) (MayRequest.admin_fails user f b)
  ]
  admitted new user driver f h =
      let (d, mine, real, held, step) = by_driver new user user.driver_profile_id f refl h in
      MayRequest.driver_moves user d new f mine real held (driver_step o.order_status new step)

  -- The two checks of `updateStatus` pass for exactly the requests that `MayRequest` lists.
  pub check_request_iff :
      (new : OrderStatus) (user : JwtUser)
      → (check_request o new user ≡ ok tt) ↔ MayRequest o new user
  check_request_iff new user = (admitted new user user.role refl, granted new user)
