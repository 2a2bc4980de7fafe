-- ===== src/Examples/Orders.antt =====
-- The theorems on the requests of src/orders/orders.service.ts and src/outbox, on order 7.
use logistics_dispatch.Common.{
  Exception, [], ap, arith, conflict, err, is_ok, none, ok, refl, select, some, true, ◌+◌, ◌↔◌, ◌∷◌,
  ◌≡◌, ◌⊎◌,
}
use logistics_dispatch.Dispatch.Assign.{assigned}
use logistics_dispatch.Drivers.Entity.{bike}
use logistics_dispatch.Examples.{
  customer_user, defaults, driver_user, offered, unlocked, waiting, waiting_world, world_of,
}
use logistics_dispatch.Orders.Access.{MayRequest, check_request_iff}
use logistics_dispatch.Orders.Create.{CreateOrderDto, IdempotencyKey, create_order, trigger_event}
use logistics_dispatch.Orders.Entity.{Order, actor, package_item}
use logistics_dispatch.Orders.Idempotency.{AllMade, create_all_or_nothing}
use logistics_dispatch.Orders.Lifecycle.{Change, Changes}
use logistics_dispatch.Orders.Lifecycle.Tables.{OneChange}
use logistics_dispatch.Orders.Refinement.{IsStale, update_from-OneChange}
use logistics_dispatch.Orders.Requests.{commit_status, update_from, with_status}
use logistics_dispatch.Orders.Rules.{check_request}
use logistics_dispatch.Orders.Status.{cancelled, driver_arriving, pending}
use logistics_dispatch.Orders.Versions.{commit_status_conflict, commit_status_current}
use logistics_dispatch.Outbox.Delivery.{IsSoundEvent}
use logistics_dispatch.Outbox.Entity.{OutboxEvent, OutboxStatus}
use logistics_dispatch.Outbox.Retries.{IsOldest, retries_end, rounds}
use logistics_dispatch.Platform.{find}
use logistics_dispatch.Platform.Memory.{Signed, memory, signed}
use logistics_dispatch.World.{World, history_row, save_change}
use mathlib.Core.Path.{subst}

-- The order as it was read, before a soft deletion.
abbrev read : Order Signed
read = waiting

unread-Changes : Changes defaults read waiting
unread-Changes = Changes.unchanged

commits :
    (commit_status cancelled customer_user waiting waiting_world).0
    ≡ ok (with_status cancelled 4 waiting)
unfolding commit_status with_status find
commits = refl

commit_status_current_example :
    (waiting ≡ record waiting { deleted_at = none })
    × ((commit_status cancelled customer_user waiting waiting_world).1
        ≡ save_change
            (record waiting { deleted_at = none; order_status = cancelled; version = 4 + 1 })
            (history_row 7 pending cancelled (actor 1))
            waiting_world)
unfolding find
commit_status_current_example =
    commit_status_current defaults cancelled customer_user waiting waiting
      (with_status cancelled 4 waiting) waiting_world refl unread-Changes commits

-- The order was offered to the courier 3 since it was read.
since_offered : Changes defaults waiting (assigned 3 waiting)
unfolding select
since_offered = Changes.then_change Changes.unchanged (Change.offers waiting 3 refl refl)

moved : ¬ (assigned 3 waiting ≡ record waiting { deleted_at = (assigned 3 waiting).deleted_at })
unfolding assigned
moved e = ground (arith, ap (λ (o : Order Signed). o.version) e)

commit_status_conflict_example :
    commit_status cancelled customer_user waiting (world_of (assigned 3 waiting) [] [])
    ≡ (err conflict, world_of (assigned 3 waiting) [] [])
unfolding find
commit_status_conflict_example =
    commit_status_conflict defaults cancelled customer_user waiting (assigned 3 waiting)
      (world_of (assigned 3 waiting) [] []) refl since_offered moved

check_request_iff_example :
    (check_request offered driver_arriving driver_user ≡ ok tt)
    ↔ MayRequest offered driver_arriving driver_user
check_request_iff_example = check_request_iff offered driver_arriving driver_user

stale : IsStale defaults waiting (world_of (assigned 3 waiting) [] [])
unfolding find
stale r e =
    let same : assigned 3 waiting ≡ r = ground arith in
    subst (λ x. Changes defaults waiting x) same since_offered

update_from-OneChange_example :
    OneChange defaults
      (world_of (assigned 3 waiting) [] [])
      (update_from cancelled customer_user waiting (world_of (assigned 3 waiting) [] [])).1
update_from-OneChange_example =
    update_from-OneChange defaults waiting (world_of (assigned 3 waiting) [] []) cancelled
      customer_user stale

abbrev parcel : CreateOrderDto Signed
parcel = record {
  pickup_address = "Dock 1";
  pickup_latitude = signed 10;
  pickup_longitude = signed 10;
  delivery_address = "Gate 9";
  delivery_latitude = signed 400;
  delivery_longitude = signed 400;
  order_type = package_item;
  vehincle_type = bike;
  notes = none;
}

abbrev key : IdempotencyKey
key = record { code = 77; size = 12 }

create_all_or_nothing_example :
    ((e : Exception) × (create_order parcel 1 (some key) 8 9 200 waiting_world
        ≡ (err e, waiting_world)))
    ⊎ AllMade parcel 1 (some key) 8 9 200 waiting_world
create_all_or_nothing_example = create_all_or_nothing parcel 1 (some key) 8 9 200 waiting_world

parcel_made : is_ok (create_order parcel 1 (some key) 8 9 200 waiting_world).0 ≡ true
unfolding create_order find
parcel_made = refl

-- An event after four failures; the queues in memory refuse the ids of order 700.
abbrev stuck : OutboxEvent
stuck = record (trigger_event 9 700 200) { attempts = 4; has_error = true }

stuck-IsSound : IsSoundEvent stuck
stuck-IsSound = ground arith

abbrev stuck_world : World memory
stuck_world = record waiting_world { outbox = stuck ∷ trigger_event 10 7 300 ∷ [] }

retries_end_example :
    (x : OutboxEvent) × IsOldest (rounds ((unlocked, 5) ∷ (unlocked, 6) ∷ []) stuck_world) x
    × (x.id ≡ 9)
    × (x.attempts ≡ 5)
    × (x.status ≡ OutboxStatus.failed)
retries_end_example =
    retries_end ((unlocked, 5) ∷ (unlocked, 6) ∷ []) stuck 700 stuck_world
      (trigger_event 10 7 300 ∷ [], refl, (refl, tt)) stuck-IsSound refl refl (refl, (refl, tt))
