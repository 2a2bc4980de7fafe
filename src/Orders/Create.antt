-- ===== src/Orders/Create.antt =====
-- src/orders/orders.service.ts: `createOrder`. The ids of the new rows, and the time, are arguments.
use logistics_dispatch.Common.{
  Option, Result, [], conflict, err, false, is_known, ltb, none, not, ok, some, throw_if,
  unprocessable, ℕ, ◌++◌, ◌==◌, ◌>>◌, ◌||◌, ◌∷◌,
}
use Prim.Native.String.{String}
use logistics_dispatch.Distance.{calculate_distance}
use logistics_dispatch.Drivers.Entity.{VehincleType, bike, car, has_vehincle, truck, van}
use logistics_dispatch.Orders.Entity.{Order, OrderResponse, OrderType, actor, to_order_response}
use logistics_dispatch.Orders.Rules.{order_vehincle_map}
use logistics_dispatch.Orders.Status.{pending}
use logistics_dispatch.Outbox.Entity.{OutboxEvent, OutboxStatus, dispatch_trigger}
use logistics_dispatch.Platform.{Platform, find, put}
use logistics_dispatch.World.{World}

pub record CreateOrderDto (Float : Type 0) : Type 0 where
  pub pickup_address : String
  pub pickup_latitude : Float
  pub pickup_longitude : Float
  pub delivery_address : String
  pub delivery_latitude : Float
  pub delivery_longitude : Float
  pub order_type : OrderType
  pub vehincle_type : VehincleType
  pub notes : Option String

-- An idempotency key after `trim()`: the number that stands for its text, and its length. A missing
-- or empty header is no key.
pub record IdempotencyKey : Type 0 where
  pub code : ℕ
  pub size : ℕ

-- `PRICING`
abbrev pub base_fare : VehincleType → ℕ
base_fare bike = 500
base_fare car = 1000
base_fare van = 2000
base_fare truck = 5000

abbrev pub per_km : VehincleType → ℕ
per_km bike = 100
per_km car = 150
per_km van = 200
per_km truck = 300

abbrev pub idempotency_key_ttl_seconds : ℕ
idempotency_key_ttl_seconds = 86400

unfoldable pub estimated_price_of : (p : Platform) → CreateOrderDto p.Float → p.Float
unfolding calculate_distance
estimated_price_of p dto =
    let distance_km =
      calculate_distance p dto.pickup_latitude dto.pickup_longitude dto.delivery_latitude
        dto.delivery_longitude in
    p.plus (p.of_ℕ (base_fare dto.vehincle_type))
      (p.times (p.of_ℕ (per_km dto.vehincle_type)) distance_km)

-- The row that `manager.create(Order, …)` builds, with the defaults of its columns.
unfoldable pub new_order : (p : Platform) → CreateOrderDto p.Float → ℕ → ℕ → ℕ → Order p.Float
unfolding estimated_price_of
new_order p dto customer_id order_id now = record {
  id = order_id;
  customer_id = customer_id;
  notes = dto.notes;
  order_type = dto.order_type;
  vehincle_type = dto.vehincle_type;
  pickup_address = dto.pickup_address;
  delivery_address = dto.delivery_address;
  pickup_latitude = dto.pickup_latitude;
  pickup_longitude = dto.pickup_longitude;
  delivery_latitude = dto.delivery_latitude;
  delivery_longitude = dto.delivery_longitude;
  order_status = pending;
  assigned_driver_id = none;
  estimated_price = some (estimated_price_of p dto);
  dispatch_attempts = 0;
  attempted_driver_ids = [];
  version = 1;
  created_at = now;
  deleted_at = none;
}

-- The event `dispatch.trigger` of a new order.
abbrev pub trigger_event : ℕ → ℕ → ℕ → OutboxEvent
trigger_event outbox_id order_id now = record {
  id = outbox_id;
  body = dispatch_trigger order_id;
  status = OutboxStatus.pending;
  attempts = 0;
  has_error = false;
  created_at = now;
  processed_at = none;
}

module _ {p : Platform} where
  -- The checks on the client's key: its length, and that no response is kept under it.
  check_key : Option IdempotencyKey → World p → Result (Unit {0})
  check_key none w = ok tt
  check_key (some key) w = do
    throw_if (key.size == 0 || ltb 255 key.size) unprocessable
    throw_if (is_known (find w.idempotency_keys key.code)) conflict

  unfoldable pub create_checks :
      CreateOrderDto p.Float → Option IdempotencyKey → World p → Result (Unit {0})
  unfolding check_key
  create_checks dto key w = do
    check_key key w
    throw_if (not (has_vehincle (order_vehincle_map dto.order_type) dto.vehincle_type))
        unprocessable

  -- The transaction: the order, the first row of its history, and the event for the worker.
  insert_order : Order p.Float → ℕ → ℕ → World p → World p
  insert_order o outbox_id now w = record w {
    orders = put w.orders o.id o;
    history =
        record {
          order_id = o.id;
          previous_status = none;
          new_status = pending;
          actor_id = actor o.customer_id;
        }
        ∷ w.history;
    outbox = w.outbox ++ trigger_event outbox_id o.id now ∷ [];
  }

  keep_response : Option IdempotencyKey → OrderResponse p.Float → World p → World p
  keep_response none response w = w
  keep_response (some key) response w = record w {
    idempotency_keys =
        put w.idempotency_keys key.code
          (record { value = response; ttl = idempotency_key_ttl_seconds });
  }

  insert_and_respond :
      Option IdempotencyKey
      → Order p.Float
      → ℕ
      → ℕ
      → World p
      → Result (OrderResponse p.Float) × World p
  unfolding insert_order keep_response to_order_response
  insert_and_respond key o outbox_id now w =
      let response = to_order_response p o in
      (ok response, keep_response key response (insert_order o outbox_id now w))

  unfoldable pub create_order :
      CreateOrderDto p.Float
      → ℕ
      → Option IdempotencyKey
      → ℕ
      → ℕ
      → ℕ
      → World p
      → Result (OrderResponse p.Float) × World p
  unfolding create_checks insert_and_respond new_order
  create_order dto customer_id key order_id outbox_id now w = elim (create_checks dto key w) [
    | err e ↦ (err e, w)
    | ok checked ↦ insert_and_respond key (new_order p dto customer_id order_id now) outbox_id now w
  ]
