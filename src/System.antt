-- ===== src/System.antt =====
-- The whole service around orders and drivers: the jobs, the requests and the rounds of the worker, in
-- any order. Each runs to its end before the next; what happens to a row between a read and a write of
-- one request is the subject of Orders/Versions.antt and of the `…_from` functions. The requests of the
-- accounts, but for a promotion, change neither orders nor drivers: Auth/Accounts.antt runs those.
pub mod Frames
pub mod Switches
pub mod Drivers
pub mod Orders
pub mod Outbox
pub mod Invariant
pub mod History
pub mod Audit
use logistics_dispatch.Common.{Bool, List, Option, [], ℕ, ◌∷◌}
use logistics_dispatch.Dispatch.Answers.{handle_dispatch_timeout}
use logistics_dispatch.Dispatch.Assign.{handle_assign_driver}
use logistics_dispatch.Dispatch.Config.{DispatchConfig}
use logistics_dispatch.Drivers.Service.{
  accept_order_dispatch, reject_order_dispatch, toggle_availability, toggle_suspension,
  update_location,
}
use logistics_dispatch.Orders.Create.{CreateOrderDto, IdempotencyKey, create_order}
use logistics_dispatch.Orders.Requests.{reassign_order, soft_delete, update_status}
use logistics_dispatch.Orders.Status.{OrderStatus}
use logistics_dispatch.Outbox.Worker.{process_outbox}
use logistics_dispatch.Platform.{Platform}
use logistics_dispatch.Tracking.{handle_eta_recalculation, handle_location_update}
use logistics_dispatch.Users.Entity.{JwtUser}
use logistics_dispatch.Users.Service.{PromoteToDriverDto, promote_to_driver}
use logistics_dispatch.World.{World}

pub data Event (p : Platform) : Type 0 where
  -- `POST /orders`, with the ids that are drawn for the new rows, and the time.
  creates : CreateOrderDto p.Float → ℕ → Option IdempotencyKey → ℕ → ℕ → ℕ → Event p
  -- `PATCH /orders/:id/status`, which is also how an order is cancelled.
  updates : ℕ → OrderStatus → JwtUser → Event p
  reassigns : ℕ → JwtUser → Event p
  soft_deletes : ℕ → ℕ → Event p
  -- The jobs ASSIGN_DRIVER and DISPATCH_TIMEOUT.
  assigns : (ℕ → Bool) → ℕ → Event p
  times_out : ℕ → ℕ → Event p
  -- The driver's answers.
  accepts_order : ℕ → JwtUser → Event p
  rejects_order : ℕ → JwtUser → Event p
  -- The switches and the position of a driver.
  toggles_availability : JwtUser → Event p
  toggles_suspension : ℕ → Event p
  moves : ℕ → p.Float → p.Float → Event p
  -- `PATCH /drivers/me/location`, and the promotion of a customer, with whether the licence is new, the
  -- id that is drawn for the driver, and the time.
  sets_location : JwtUser → p.Float → p.Float → Event p
  promotes_customer : Bool → ℕ → PromoteToDriverDto → ℕ → ℕ → Event p
  -- The job RECALCULATE_ETA, and a round of the outbox worker.
  recalculates : ℕ → ℕ → Event p
  polls_outbox : (ℕ → Bool) → ℕ → Event p

module _ {p : Platform} (cfg : DispatchConfig) where
  unfoldable pub step : Event p → World p → World p
  step (creates dto customer_id key order_id outbox_id now) w =
      (create_order dto customer_id key order_id outbox_id now w).1
  step (updates order_id new user) w = (update_status order_id new user w).1
  step (reassigns order_id user) w = (reassign_order order_id user w).1
  step (soft_deletes order_id now) w = (soft_delete order_id now w).1
  step (assigns free order_id) w = handle_assign_driver cfg free order_id w
  step (times_out order_id driver_id) w = handle_dispatch_timeout cfg order_id driver_id w
  step (accepts_order order_id user) w = (accept_order_dispatch order_id user w).1
  step (rejects_order order_id user) w = (reject_order_dispatch cfg order_id user w).1
  step (toggles_availability user) w = (toggle_availability user w).1
  step (toggles_suspension driver_id) w = (toggle_suspension driver_id w).1
  step (moves driver_id lat lng) w = (handle_location_update driver_id lat lng w).1
  step (sets_location user lat lng) w = (update_location user lat lng w).1
  step (promotes_customer license_free user_id dto driver_id now) w =
      (promote_to_driver license_free user_id dto driver_id now w).1
  step (recalculates order_id driver_id) w = handle_eta_recalculation order_id driver_id w
  step (polls_outbox reachable now) w = process_outbox reachable now w

  unfoldable pub run : List (Event p) → World p → World p
  unfolding step
  run [] w = w
  run (e ∷ es) w = run es (step e w)
