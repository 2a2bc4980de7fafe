-- ===== src/Examples/Answers.antt =====
-- The theorems on the answers of src/dispatch, the estimates of src/tracking and the switches of
-- src/drivers, on order 7 and the courier 3.
use logistics_dispatch.Common.{
  [], ap, arith, conflict, err, false, none, ok, refl, some, true, ◌>>◌, ◌∷◌, ◌≡◌, ◌≢◌,
}
use logistics_dispatch.Dispatch.Answers.{
  accept_dispatch, accepted, already_accepted, already_handled, handle_dispatch_timeout,
  reject_dispatch,
}
use logistics_dispatch.Dispatch.Assign.{assign_from}
use logistics_dispatch.Dispatch.Repeats.{accepted_twice, expiry_of_taken_order, rejected_twice}
use logistics_dispatch.Drivers.Duty.{availability_undoes_suspension}
use logistics_dispatch.Drivers.Entity.{Driver}
use logistics_dispatch.Drivers.Service.{availability_from, toggle_suspension}
use logistics_dispatch.Examples.{
  courier, defaults, offered, offered-IsKeyed, offered_world, order_at, unlocked, waiting_world,
}
use logistics_dispatch.Orders.Entity.{Order}
use logistics_dispatch.Orders.Status.{driver_assigned, expired, in_transit, pending, rank}
use logistics_dispatch.Platform.{find}
use logistics_dispatch.Platform.Memory.{Signed, memory, table_of}
use logistics_dispatch.Tracking.{eta_added}
use logistics_dispatch.World.{World, find_order, status_changed}

offered_found : find_order 7 offered_world ≡ some offered
unfolding find
offered_found = refl

accepted_twice_example :
    let w' = (accept_dispatch 7 3 offered_world).1 in
    ((accept_dispatch 7 3 offered_world).0 ≡ (eta_added 7 offered_world >> ok (accepted 7)))
    × (accept_dispatch 7 3 w' ≡ (ok already_accepted, w'))
    × (handle_dispatch_timeout defaults 7 3 w' ≡ w')
accepted_twice_example =
    accepted_twice defaults 7 3 offered offered_world offered-IsKeyed offered_found refl refl

rejected_twice_example :
    let w' = (reject_dispatch defaults 7 3 offered_world).1 in
    (reject_dispatch defaults 7 3 w' ≡ (ok already_handled, w'))
    × (handle_dispatch_timeout defaults 7 3 w' ≡ w')
    × (accept_dispatch 7 3 w' ≡ (err conflict, w'))
rejected_twice_example =
    rejected_twice defaults 7 3 offered offered_world offered-IsKeyed offered_found refl refl

-- The order as a job read it, with no attempts left, while the courier 3 was taking it.
abbrev spent : Order Signed
spent = order_at pending none 3 []

not_waiting : driver_assigned ≢ pending
not_waiting e = ground (arith, ap rank e)

expiry_of_taken_order_example :
    let w' = assign_from defaults unlocked spent offered_world in
    (w'.orders ≡ offered_world.orders) × (w'.notices ≡ status_changed 7 expired ∷ [])
expiry_of_taken_order_example =
    expiry_of_taken_order defaults unlocked spent offered offered_world refl (omega arith)
      offered_found not_waiting

-- Order 700, whose jobs the queues in memory refuse, is offered to the courier 3.
abbrev stuck : Order Signed
stuck = record offered { id = 700 }

abbrev stuck_world : World memory
stuck_world = record offered_world { orders = table_of ((700, stuck) ∷ []) }

-- The courier is on the way with it.
abbrev on_way : Order Signed
on_way = record (order_at in_transit (some 3) 1 (3 ∷ [])) { id = 700 }

abbrev way_world : World memory
way_world = record offered_world { orders = table_of ((700, on_way) ∷ []) }

-- A courier who is offline.
abbrev idle : Driver Signed
idle = courier 9 false 40

abbrev idle_world : World memory
idle_world = record waiting_world { drivers = table_of ((9, idle) ∷ []) }

idle_row : find idle_world.drivers 9 ≡ some idle
unfolding find
idle_row = refl

availability_undoes_suspension_example :
    let w' = (toggle_suspension 9 idle_world).1 in
    let w'' = (availability_from idle w').1 in
    (find w'.drivers 9 ≡ some (record idle { is_suspended = true }))
    × (find w''.drivers 9 ≡ some (record idle { online_status = true }))
availability_undoes_suspension_example =
    availability_undoes_suspension idle idle_world idle_row refl refl
