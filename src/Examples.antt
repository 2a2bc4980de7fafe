-- ===== src/Examples.antt =====
-- Concrete inputs for the theorems: one order, two couriers, and the states of the service around them,
-- on the platform held in memory.
pub mod Orders
pub mod Dispatch
pub mod Answers
pub mod System
pub mod Accounts
pub mod Recovery
pub mod Throttle
pub mod Spoof
pub mod Listing
pub mod Http
pub mod Mail
pub mod Events
pub mod Users
use logistics_dispatch.Common.{Bool, List, Option, [], arith, false, none, some, true, ℕ, ◌+◌, ◌∷◌}
use logistics_dispatch.Dispatch.Config.{DispatchConfig}
use logistics_dispatch.Drivers.Entity.{Driver, bike}
use logistics_dispatch.Orders.Entity.{Order, OrderStatusHistory, package_item, system}
use logistics_dispatch.Orders.Lifecycle.Tables.{IsKeyed}
use logistics_dispatch.Orders.Status.{OrderStatus, driver_assigned, pending}
use logistics_dispatch.Platform.{Job, JobId, find}
use logistics_dispatch.Platform.Memory.{Signed, empty_table, memory, queue_of, signed, table_of}
use logistics_dispatch.Users.Entity.{JwtUser, customer, driver}
use logistics_dispatch.World.{World}

abbrev pub defaults : DispatchConfig
defaults = record { max_attempts = 3; timeout_seconds = 20 }

-- Nobody holds a lock.
abbrev pub unlocked : ℕ → Bool
unlocked k = true

-- Order 7 of customer 1: its state, its driver, its attempts, and whom it was offered to.
abbrev pub order_at : OrderStatus → Option ℕ → ℕ → List ℕ → Order Signed
order_at s d attempts tried = record {
  id = 7;
  customer_id = 1;
  notes = none;
  order_type = package_item;
  vehincle_type = bike;
  pickup_address = "Dock 1";
  delivery_address = "Gate 9";
  pickup_latitude = signed 10;
  pickup_longitude = signed 10;
  delivery_latitude = signed 400;
  delivery_longitude = signed 400;
  order_status = s;
  assigned_driver_id = d;
  estimated_price = none;
  dispatch_attempts = attempts;
  attempted_driver_ids = tried;
  version = 4;
  created_at = 100;
  deleted_at = none;
}

abbrev pub waiting : Order Signed
waiting = order_at pending none 0 []

abbrev pub offered : Order Signed
offered = order_at driver_assigned (some 3) 1 (3 ∷ [])

-- A courier on a bike, at a place.
abbrev pub courier : ℕ → Bool → ℕ → Driver Signed
courier k online place = record {
  id = k;
  user_id = k + 100;
  vehincle_type = bike;
  license_number = "L";
  online_status = online;
  current_latitude = some (signed place);
  current_longitude = some (signed place);
  rating = signed 5;
  is_suspended = false;
  created_at = 50;
}

abbrev pub near : Driver Signed
near = courier 3 true 190

abbrev pub far : Driver Signed
far = courier 5 true 2000

abbrev pub customer_user : JwtUser
customer_user = record { user_id = 1; email = "c@x"; role = customer; driver_profile_id = none }

abbrev pub driver_user : JwtUser
driver_user = record { user_id = 103; email = "d@x"; role = driver; driver_profile_id = some 3 }

-- The row of the history that brought the order where it is.
abbrev pub arrived_at : OrderStatus → OrderStatusHistory
arrived_at s = record { order_id = 7; previous_status = none; new_status = s; actor_id = system }

-- The service with one order, the couriers 5 and 3, and the jobs of its two queues.
abbrev pub world_of : Order Signed → List (JobId × Job) → List (JobId × Job) → World memory
world_of o dispatch tracking = record {
  orders = table_of ((7, o) ∷ []);
  drivers = table_of ((5, far) ∷ (3, near) ∷ []);
  users = empty_table;
  outbox = [];
  history = arrived_at o.order_status ∷ [];
  dispatch_queue = queue_of dispatch;
  tracking_queue = queue_of tracking;
  timeout_keys = empty_table;
  eta_keys = empty_table;
  active_order_keys = empty_table;
  idempotency_keys = empty_table;
  notices = [];
}

abbrev pub waiting_world : World memory
waiting_world = world_of waiting [] []

abbrev pub offered_world : World memory
offered_world = world_of offered [] []

pub offered-IsKeyed : IsKeyed offered_world
unfolding find
offered-IsKeyed = record { order_ids = λ k o h. ground arith; driver_ids = λ k d h. ground arith }

pub waiting-IsKeyed : IsKeyed waiting_world
unfolding find
waiting-IsKeyed = record { order_ids = λ k o h. ground arith; driver_ids = λ k d h. ground arith }
