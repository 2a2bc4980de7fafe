-- ===== src/Events/Gateway.antt =====
-- src/events/events.gateway.ts: the rooms that a socket joins, and the positions that it sends. The
-- verification of a token by jsonwebtoken is a parameter, which gives nothing where it throws.
use logistics_dispatch.Common.{
  List, Option, [], if◌then◌else◌, map, none, not, some, truthy, ℕ, ◌++◌, ◌∷◌,
}
use logistics_dispatch.Platform.{Platform}
use logistics_dispatch.Tracking.{handle_location_update}
use logistics_dispatch.Users.Entity.{UserRole, driver, role_eq}
use logistics_dispatch.World.{World}

-- `ROOM_DRIVER` and `ROOM_ORDER`
pub data Room : Type 0 where
  room_driver room_order : ℕ → Room

-- What a token says: `sub`, `role` and `driverProfileId`.
pub record Claims : Type 0 where
  pub sub : Option ℕ
  pub role : Option UserRole
  pub driver_profile_id : Option ℕ

-- `JoinRoomPayload`
pub record JoinRoomPayload : Type 0 where
  pub token : Option ℕ
  pub order_ids : Option (List ℕ)
  pub order_id : Option ℕ

-- The message to the socket: `join:ack` with the rooms, or `join:error` with the reason.
pub data JoinReply : Type 0 where
  join_ack : List Room → JoinReply
  missing_token invalid_token invalid_token_payload : JoinReply
  no_driver_profile missing_order_id : JoinReply

-- `payload.orderIds ?? (payload.orderId ? [payload.orderId] : [])`
unfoldable pub requested_orders : JoinRoomPayload → List ℕ
requested_orders payload = elim payload.order_ids [
  | some ids ↦ ids
  | none ↦ elim payload.order_id [ none ↦ [] | some id ↦ if truthy (some id) then id ∷ [] else [] ]
]

-- A socket joins the rooms, after those that it has joined.
unfoldable pub join : List Room → List Room → JoinReply × List Room
join new rooms = (join_ack new, rooms ++ new)

unfoldable pub join_driver : Option ℕ → List Room → JoinReply × List Room
unfolding join
join_driver none rooms = (no_driver_profile, rooms)
join_driver (some d) rooms =
    if truthy (some d) then join (room_driver d ∷ []) rooms else (no_driver_profile, rooms)

unfoldable pub join_orders : List ℕ → List Room → JoinReply × List Room
unfolding join
join_orders [] rooms = (missing_order_id, rooms)
join_orders (k ∷ ks) rooms = join (map room_order (k ∷ ks)) rooms

-- What follows the verification of the token.
unfoldable pub join_as :
    Option UserRole → Claims → JoinRoomPayload → List Room → JoinReply × List Room
unfolding join_driver join_orders requested_orders
join_as none claims payload rooms = (invalid_token_payload, rooms)
join_as (some role) claims payload rooms =
    if not (truthy claims.sub)
    then (invalid_token_payload, rooms)
    else if role_eq role driver
    then join_driver claims.driver_profile_id rooms
    else join_orders (requested_orders payload) rooms

module _ (verify : ℕ → Option Claims) where
  -- `handleJoin`
  unfoldable pub handle_join : JoinRoomPayload → List Room → JoinReply × List Room
  unfolding join_as
  handle_join payload rooms = elim payload.token [
    | none ↦ (missing_token, rooms)
    | some t ↦ if not (truthy (some t)) then (missing_token, rooms) else elim (verify t) [
      | none ↦ (invalid_token, rooms)
      | some claims ↦ join_as claims.role claims payload rooms
    ]
  ]

  position_of : {p : Platform} → Claims → p.Float → p.Float → World p → World p
  unfolding handle_location_update
  position_of claims lat lng w = elim claims.role [
    | none ↦ w
    | some role ↦ if not (role_eq role driver) then w else elim claims.driver_profile_id [
      | none ↦ w
      | some d ↦ if truthy (some d) then (handle_location_update d lat lng w).1 else w
    ]
  ]

  -- `handleDriverLocationUpdate`, with the token of the handshake.
  unfoldable pub handle_driver_location_update :
      {p : Platform} → Option ℕ → p.Float → p.Float → World p → World p
  unfolding position_of
  handle_driver_location_update token lat lng w = elim token [
    | none ↦ w
    | some t ↦
        if not (truthy (some t))
        then w
        else elim (verify t) [ none ↦ w | some claims ↦ position_of claims lat lng w ]
  ]
