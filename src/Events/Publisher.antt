-- ===== src/Events/Publisher.antt =====
-- src/events/event-publisher.service.ts and `emitToRoom` of src/events/events.gateway.ts: what a socket
-- receives. Which sockets socket.io delivers a message to is a parameter, on the rooms of a socket.
use logistics_dispatch.Common.{
  Bool, List, Option, [], false, if◌then◌else◌, not, ℕ, ◌==◌, ◌||◌, ◌∷◌,
}
use logistics_dispatch.Events.Gateway.{
  Claims, JoinRoomPayload, Room, handle_join, room_driver, room_order,
}
use logistics_dispatch.World.{
  Notice, driver_assigned_notice, driver_timeout, location_broadcast, status_changed,
}

-- The message of each method of `EventPublisherService`, with its payload, and the room to which
-- `notifyDriverAssigned`, `notifyCustomerStatusChanged`, `notifyDriverTimeout` and
-- `notifyLocationBroadcast` send it. No caller gives the id of the customer.
unfoldable pub room_of : {Float : Type 0} → Notice Float → Room
room_of (driver_assigned_notice order_id driver_id) = room_driver driver_id
room_of (status_changed order_id status) = room_order order_id
room_of (driver_timeout order_id driver_id) = room_driver driver_id
room_of (location_broadcast order_id lat lng eta) = room_order order_id

abbrev pub same_room : Room → Room → Bool
same_room (room_driver d) (room_driver e) = d == e
same_room (room_driver d) (room_order k) = false
same_room (room_order j) (room_driver d) = false
same_room (room_order j) (room_order k) = j == k

abbrev pub has_room : List Room → Room → Bool
has_room [] room = false
has_room (r ∷ rs) room = same_room r room || has_room rs room

-- A socket: its rooms, and what it has received, the last one first.
pub record Socket (Float : Type 0) : Type 0 where
  pub rooms : List Room
  pub received : List (Notice Float)

-- What concerns a socket: it asks to join, or the server, which may not be ready, publishes.
pub data SocketEvent (Float : Type 0) : Type 0 where
  asks : JoinRoomPayload → SocketEvent Float
  publishes : Bool → Notice Float → SocketEvent Float

module _ (verify : ℕ → Option Claims) (reaches : List Room → Room → Bool) {Float : Type 0} where
  -- `emitToRoom`
  unfoldable pub emit_to_room : Bool → Room → Notice Float → Socket Float → Socket Float
  emit_to_room ready room n s =
      if not ready
      then s
      else if reaches s.rooms room
      then record s { received = n ∷ s.received }
      else s

  unfoldable pub socket_step : SocketEvent Float → Socket Float → Socket Float
  unfolding handle_join emit_to_room room_of
  socket_step (asks payload) s = record s { rooms = (handle_join verify payload s.rooms).1 }
  socket_step (publishes ready n) s = emit_to_room ready (room_of n) n s

  unfoldable pub socket_run : List (SocketEvent Float) → Socket Float → Socket Float
  unfolding socket_step
  socket_run [] s = s
  socket_run (e ∷ es) s = socket_run es (socket_step e s)
