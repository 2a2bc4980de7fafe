-- ===== src/World.antt =====
-- The state that the services share: the database's tables, the job queues, the Redis keys, and the
-- messages that the gateway has sent. Each step of a handler is a function on it.
use logistics_dispatch.Common.{List, Option, if◌then◌else◌, is_known, none, some, ℕ, ◌∷◌}
use logistics_dispatch.Drivers.Entity.{Driver}
use logistics_dispatch.Orders.Entity.{Actor, Order, OrderResponse, OrderStatusHistory}
use logistics_dispatch.Orders.Status.{OrderStatus}
use logistics_dispatch.Outbox.Entity.{OutboxEvent}
use logistics_dispatch.Platform.{Expiring, JobId, Platform, Queue, Table, find, put}
use logistics_dispatch.Users.Entity.{User}

-- What `EventPublisherService` (src/events/event-publisher.service.ts) sends, to the room of a
-- driver or of an order.
pub data Notice (Float : Type 0) : Type 0 where
  driver_assigned_notice : ℕ → ℕ → Notice Float
  status_changed : ℕ → OrderStatus → Notice Float
  driver_timeout : ℕ → ℕ → Notice Float
  location_broadcast : ℕ → Float → Float → Option Float → Notice Float

pub record World (p : Platform) : Type 0 where
  pub orders : Table p (Order p.Float)
  pub drivers : Table p (Driver p.Float)
  pub users : Table p User
  pub outbox : List OutboxEvent
  -- The rows that were inserted, the last one first.
  pub history : List OrderStatusHistory
  pub dispatch_queue : Queue p
  pub tracking_queue : Queue p
  -- The keys `dispatch_timeout:…`, `tracking:eta_job:…` and `tracking:active_order:…`.
  pub timeout_keys : Table p (Expiring JobId)
  pub eta_keys : Table p (Expiring JobId)
  pub active_order_keys : Table p (Expiring ℕ)
  -- The keys `idempotency:order:…`.
  pub idempotency_keys : Table p (Expiring (OrderResponse p.Float))
  -- The messages, the last one first.
  pub notices : List (Notice p.Float)

-- The queries skip a row that is soft-deleted.
abbrev pub live : {Float : Type 0} → Option (Order Float) → Option (Order Float)
live none = none
live (some o) = if is_known o.deleted_at then none else some o

module _ {p : Platform} where
  -- `findOneBy({ id })`, and the query that also locks the row.
  abbrev pub find_order : ℕ → World p → Option (Order p.Float)
  find_order order_id w = live (find w.orders order_id)

  -- `this.eventPublisher.notify…`: the publisher catches what the gateway throws.
  abbrev pub notify : Notice p.Float → World p → World p
  notify n w = record w { notices = n ∷ w.notices }

  -- `manager.save(Order, order)`
  abbrev pub save_order : Order p.Float → World p → World p
  save_order o w = record w { orders = put w.orders o.id o }

  -- `manager.save(OrderStatusHistory, history)`
  abbrev pub save_history : OrderStatusHistory → World p → World p
  save_history h w = record w { history = h ∷ w.history }

  -- An order and the row of its history, saved in one transaction.
  abbrev pub save_change : Order p.Float → OrderStatusHistory → World p → World p
  save_change o h w = save_history h (save_order o w)

-- The row that records a change of an order.
abbrev pub history_row : ℕ → OrderStatus → OrderStatus → Actor → OrderStatusHistory
history_row order_id previous new who = record {
  order_id = order_id;
  previous_status = some previous;
  new_status = new;
  actor_id = who;
}
