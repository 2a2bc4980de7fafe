-- ===== src/Events/Rooms.antt =====
-- Who gets into which room, and who may send a position (src/events/events.gateway.ts).
use logistics_dispatch.Common.{
  All, Bool-cases, List, Option, Option-cases, [], ap, arith, false, inl, inr, map, none, not, refl,
  some, sym, true, truthy, ℕ, ◌&&◌, ◌++◌, ◌<◌, ◌==◌, ◌∙◌, ◌∷◌, ◌≡◌, ◌≢◌, ◌⊎◌,
}
use logistics_dispatch.Events.Gateway.{
  Claims, JoinReply, JoinRoomPayload, Room, handle_driver_location_update, handle_join, join_ack,
  join_as, join_driver, join_orders, requested_orders, room_driver, room_order,
}
use logistics_dispatch.Platform.{Platform}
use logistics_dispatch.Tracking.{handle_location_update}
use logistics_dispatch.Users.Entity.{UserRole, driver, role_eq, role_eq→eq}
use logistics_dispatch.World.{World}

-- The rooms for which the claims of a token stand: a driver's own, or that of any order.
abbrev pub MayJoin : Claims → Room → Type 0
MayJoin claims (room_driver d) = (claims.role ≡ some driver) × (claims.driver_profile_id ≡ some d)
MayJoin claims (room_order k) = (claims.role ≢ some driver) × (truthy claims.sub ≡ true)

-- The rooms that a reply names.
abbrev pub joined : JoinReply → List Room
joined (join_ack new) = new
joined _ = []

-- The rooms of a socket after a request, and that the new ones fit the claims.
abbrev pub IsJoin : Claims → List Room → JoinReply × List Room → Type 0
IsJoin claims rooms (reply, after) =
    (after ≡ rooms ++ joined reply) × All (MayJoin claims) (joined reply)

unchanged_rooms : (rooms : List Room) → rooms ≡ rooms ++ []
unchanged_rooms [] = refl
unchanged_rooms (r ∷ rooms) = ap (◌∷◌ r) (unchanged_rooms rooms)

order_rooms :
    (claims : Claims) (ks : List ℕ)
    → claims.role ≢ some driver
    → truthy claims.sub ≡ true
    → All (MayJoin claims) (map room_order ks)
order_rooms claims [] other known = tt
order_rooms claims (k ∷ ks) other known = ((other, known), order_rooms claims ks other known)

join_orders-IsJoin :
    (claims : Claims) (ks : List ℕ) (rooms : List Room)
    → claims.role ≢ some driver
    → truthy claims.sub ≡ true
    → IsJoin claims rooms (join_orders ks rooms)
unfolding join_orders
join_orders-IsJoin claims [] rooms other known = (unchanged_rooms rooms, tt)
join_orders-IsJoin claims (k ∷ ks) rooms other known =
    (refl, order_rooms claims (k ∷ ks) other known)

join_driver-IsJoin :
    (claims : Claims) (profile : Option ℕ) (rooms : List Room)
    → claims.role ≡ some driver
    → claims.driver_profile_id ≡ profile
    → IsJoin claims rooms (join_driver profile rooms)
unfolding join_driver
join_driver-IsJoin claims none rooms r e = (unchanged_rooms rooms, tt)
join_driver-IsJoin claims (some d) rooms r e = elim (Bool-cases (truthy (some d))) [
  | inl known ↦ rw known (refl, ((r, e), tt))
  | inr empty ↦ rw empty (unchanged_rooms rooms, tt)
]

some_role : (a b : UserRole) → role_eq a b ≡ false → some a ≢ some b
some_role a b h e = ground (arith, e)

join_as-IsJoin :
    (role : Option UserRole) (claims : Claims) (payload : JoinRoomPayload) (rooms : List Room)
    → claims.role ≡ role
    → IsJoin claims rooms (join_as role claims payload rooms)
unfolding join_as
join_as-IsJoin none claims payload rooms e = (unchanged_rooms rooms, tt)
join_as-IsJoin (some role) claims payload rooms e = elim (Bool-cases (truthy claims.sub)) [
  | inr empty ↦ rw empty (unchanged_rooms rooms, tt)
  | inl known ↦ elim (Bool-cases (role_eq role driver)) [
    | inl drives ↦
        rw (known, drives)
          (join_driver-IsJoin claims claims.driver_profile_id rooms
            (e ∙ ap some (role_eq→eq role driver drives)) refl)
    | inr other ↦
        rw (known, other)
          (join_orders-IsJoin claims (requested_orders payload) rooms
            (λ same. some_role role driver other (sym e ∙ same)) known)
  ]
]

module _ (verify : ℕ → Option Claims) where
  -- With a token that is not empty and whose verification gives claims, the socket keeps its rooms and
  -- joins those that the reply names; a driver joins only the driver's own room, and only who is not a
  -- driver, and has an id, joins the room of an order.
  pub handle_join-IsJoin :
      (t : ℕ) (claims : Claims) (payload : JoinRoomPayload) (rooms : List Room)
      → payload.token ≡ some t
      → 0 < t
      → verify t ≡ some claims
      → IsJoin claims rooms (handle_join verify payload rooms)
  unfolding handle_join
  handle_join-IsJoin t claims payload rooms e positive v =
      let known : truthy (some t) ≡ true = ground (arith, positive) in
      rw (e, known, v, handle_join) (join_as-IsJoin claims.role claims payload rooms refl)

  -- A position that a socket sends changes nothing, or it is taken as that of the driver whom the
  -- verified token names.
  pub location_guarded :
      {p : Platform} (token : Option ℕ) (lat lng : p.Float) (w : World p)
      → (handle_driver_location_update verify token lat lng w ≡ w)
        ⊎ ((t : ℕ) × (claims : Claims) × (d : ℕ) × (token ≡ some t)
            × (verify t ≡ some claims)
            × (claims.role ≡ some driver)
            × (claims.driver_profile_id ≡ some d)
            × (handle_driver_location_update verify token lat lng w
                ≡ (handle_location_update d lat lng w).1))
  unfolding handle_driver_location_update
  location_guarded none lat lng w = inl refl
  location_guarded (some t) lat lng w = elim (Option-cases (verify t)) [
    | inl bad ↦ inl (ground arith)
    | inr (claims, v) ↦ elim (Option-cases claims.driver_profile_id) [
      | inl nobody ↦ inl (ground arith)
      | inr (d, mine) ↦ elim (Option-cases claims.role) [
        | inl empty ↦ inl (ground arith)
        | inr (role, r) ↦ elim (Bool-cases (not (t == 0) && role_eq role driver && not (d == 0))) [
          | inr other ↦ inl (ground arith)
          | inl drives ↦ inr (
            t,
            claims,
            d,
            refl,
            v,
            r ∙ ap some (role_eq→eq role driver (ground arith)),
            mine,
            ground arith,
          )
        ]
      ]
    ]
  ]
