-- ===== src/Orders/Rules.antt =====
-- src/orders/orders.service.ts: who may change an order to which state.
use logistics_dispatch.Common.{
  List, Option, Result, [], err, forbidden, if◌then◌else◌, is_id, none, not, ok, some, throw_if,
  truthy, unprocessable, ℕ, ◌&&◌, ◌==◌, ◌>>◌, ◌∷◌,
}
use logistics_dispatch.Drivers.Entity.{VehincleType, bike, car, truck, van}
use logistics_dispatch.Orders.Entity.{
  Order, OrderType, goods_large, goods_small, package_item, person,
}
use logistics_dispatch.Orders.Status.{
  OrderStatus, cancelled, delivered, driver_arriving, driver_assigned, expired, failed, has_status,
  in_transit, is_terminal, order_transitions, pending, picked_up, status_eq,
}
use logistics_dispatch.Users.Entity.{JwtUser, UserRole, admin, customer, driver}

-- `ORDER_VEHINCLE_MAP`
abbrev pub order_vehincle_map : OrderType → List VehincleType
order_vehincle_map person = car ∷ []
order_vehincle_map package_item = bike ∷ car ∷ []
order_vehincle_map goods_small = car ∷ van ∷ []
order_vehincle_map goods_large = van ∷ truck ∷ []

-- `driverAllowedTransitions`
abbrev pub driver_allowed_transitions : OrderStatus → List OrderStatus
driver_allowed_transitions driver_assigned = driver_arriving ∷ []
driver_allowed_transitions driver_arriving = picked_up ∷ []
driver_allowed_transitions picked_up = in_transit ∷ []
driver_allowed_transitions in_transit = delivered ∷ failed ∷ []
driver_allowed_transitions _ = []

module _ {Float : Type 0} where
  validate_admin : Order Float → OrderStatus → Result (Unit {0})
  validate_admin o new =
      if status_eq new cancelled
      then ok tt
      else if status_eq new failed && status_eq o.order_status in_transit
      then ok tt
      else err forbidden

  validate_customer : Order Float → OrderStatus → JwtUser → Result (Unit {0})
  validate_customer o new user = do
    throw_if (not (o.customer_id == user.user_id)) forbidden
    throw_if (not (status_eq new cancelled)) forbidden
    throw_if (not (has_status (pending ∷ driver_assigned ∷ []) o.order_status)) forbidden

  validate_driver : Order Float → OrderStatus → Option ℕ → Result (Unit {0})
  validate_driver o new none = err forbidden
  validate_driver o new (some profile) = do
    throw_if (not (truthy (some profile))) forbidden
    throw_if (not (truthy o.assigned_driver_id)) forbidden
    throw_if (not (is_id o.assigned_driver_id profile)) forbidden
    throw_if (not (has_status (driver_allowed_transitions o.order_status) new)) forbidden

  by_role : UserRole → Order Float → OrderStatus → JwtUser → Result (Unit {0})
  unfolding validate_admin validate_customer validate_driver
  by_role admin o new user = validate_admin o new
  by_role customer o new user = validate_customer o new user
  by_role driver o new user = validate_driver o new user.driver_profile_id

  -- `validateActor`
  unfoldable pub validate_actor : Order Float → OrderStatus → JwtUser → Result (Unit {0})
  unfolding by_role
  validate_actor o new user = do
    throw_if (has_status (driver_assigned ∷ expired ∷ []) new) forbidden
    throw_if (is_terminal o.order_status) forbidden
    by_role user.role o new user

-- `validateTransition`
unfoldable pub validate_transition : OrderStatus → OrderStatus → Result (Unit {0})
validate_transition current new =
    throw_if (not (has_status (order_transitions current) new)) unprocessable

-- The two checks of `updateStatus`, in their order.
unfoldable pub check_request :
    {Float : Type 0} → Order Float → OrderStatus → JwtUser → Result (Unit {0})
unfolding validate_actor validate_transition
check_request o new user = do validate_actor o new user; validate_transition o.order_status new
