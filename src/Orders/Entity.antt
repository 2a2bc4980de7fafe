-- ===== src/Orders/Entity.antt =====
-- src/orders/entities and src/orders/enums: the row of an order and of its history.
-- An identifier is a number that stands for its text, 0 for the empty text. `updatedAt`, which the
-- database keeps, is not modelled.
use logistics_dispatch.Common.{List, Option, none, some, ℕ}
use Prim.Native.String.{String}
use logistics_dispatch.Drivers.Entity.{VehincleType}
use logistics_dispatch.Orders.Status.{OrderStatus}
use logistics_dispatch.Platform.{Platform}

pub data OrderType : Type 0 where
  person package_item goods_small goods_large : OrderType

pub record Order (Float : Type 0) : Type 0 where
  pub id : ℕ
  pub customer_id : ℕ
  pub notes : Option String
  pub order_type : OrderType
  pub vehincle_type : VehincleType
  pub pickup_address : String
  pub delivery_address : String
  pub pickup_latitude : Float
  pub pickup_longitude : Float
  pub delivery_latitude : Float
  pub delivery_longitude : Float
  pub order_status : OrderStatus
  pub assigned_driver_id : Option ℕ
  pub estimated_price : Option Float
  pub dispatch_attempts : ℕ
  pub attempted_driver_ids : List ℕ
  pub version : ℕ
  pub created_at : ℕ
  pub deleted_at : Option ℕ

-- `actorId`: the text 'system', or the id of a user or of a driver's profile.
pub data Actor : Type 0 where
  system : Actor
  actor : ℕ → Actor

pub record OrderStatusHistory : Type 0 where
  pub order_id : ℕ
  pub previous_status : Option OrderStatus
  pub new_status : OrderStatus
  pub actor_id : Actor

-- `OrderResponse`
pub record OrderResponse (Float : Type 0) : Type 0 where
  pub id : ℕ
  pub customer_id : ℕ
  pub order_type : OrderType
  pub vehincle_type : VehincleType
  pub pickup_address : String
  pub pickup_latitude : Float
  pub pickup_longitude : Float
  pub delivery_address : String
  pub delivery_latitude : Float
  pub delivery_longitude : Float
  pub notes : Option String
  pub status : OrderStatus
  pub assigned_driver_id : Option ℕ
  pub estimated_price : Float
  pub dispatch_attempts : ℕ
  pub created_at : ℕ

-- `toOrderResponse`. `Number(x)` on a column of decimals is the number itself, and 0 on one that is null.
unfoldable pub to_order_response : (p : Platform) → Order p.Float → OrderResponse p.Float
to_order_response p o = record {
  id = o.id;
  customer_id = o.customer_id;
  order_type = o.order_type;
  vehincle_type = o.vehincle_type;
  pickup_address = o.pickup_address;
  pickup_latitude = o.pickup_latitude;
  pickup_longitude = o.pickup_longitude;
  delivery_address = o.delivery_address;
  delivery_latitude = o.delivery_latitude;
  delivery_longitude = o.delivery_longitude;
  notes = o.notes;
  status = o.order_status;
  assigned_driver_id = o.assigned_driver_id;
  estimated_price = elim o.estimated_price [ none ↦ p.of_ℕ 0 | some price ↦ price ];
  dispatch_attempts = o.dispatch_attempts;
  created_at = o.created_at;
}
