-- ===== src/Events/Audience.antt =====
-- Who hears what: the joins of src/events/events.gateway.ts against the messages of
-- src/events/event-publisher.service.ts.
use logistics_dispatch.Common.{
  All, All-append, All-weak, Bool, Bool-cases, List, Option, Option-cases, [], arith, false, inl,
  inr, some, true, truthy, ℕ, ◌<◌, ◌∷◌, ◌≡◌,
}
use logistics_dispatch.Events.Gateway.{
  Claims, JoinRoomPayload, Room, handle_join, room_driver, room_order,
}
use logistics_dispatch.Events.Publisher.{
  Socket, SocketEvent, asks, emit_to_room, has_room, publishes, room_of, same_room, socket_run,
}
use logistics_dispatch.Events.Rooms.{MayJoin, handle_join-IsJoin, joined}
use logistics_dispatch.Http.Orders.{shown}
use logistics_dispatch.World.{Notice}
use mathlib.Core.Path.{subst}

same_room_eq : (a b : Room) → same_room a b ≡ true → a ≡ b
same_room_eq (room_driver d) (room_driver e) same = ground arith
same_room_eq (room_driver d) (room_order k) same = absurd (cc)
same_room_eq (room_order j) (room_driver d) same = absurd (cc)
same_room_eq (room_order j) (room_order k) same = ground arith

All-has_room :
    (P : Room → Type 0) (rooms : List Room) (room : Room)
    → All P rooms
    → has_room rooms room ≡ true
    → P room
All-has_room P [] room h found = absurd (cc)
All-has_room P (r ∷ rs) room (here, h) found = elim (Bool-cases (same_room r room)) [
  | inl same ↦ subst P (same_room_eq r room same) here
  | inr other ↦ All-has_room P rs room h (ground arith)
]

module _ (verify : ℕ → Option Claims) (Shown : Claims → Type 0) where
  -- One of the claims that are shown stands for the room.
  abbrev pub Allowed : Room → Type 0
  Allowed room = (claims : Claims) × Shown claims × MayJoin claims room

  -- The claims of a request to join are among those that are shown.
  abbrev pub Shows : JoinRoomPayload → Type 0
  Shows payload =
      (t : ℕ) (claims : Claims) → payload.token ≡ some t → verify t ≡ some claims → Shown claims

  joined-Allowed :
      (t : ℕ) (claims : Claims) (payload : JoinRoomPayload) (rooms : List Room)
      → payload.token ≡ some t
      → 0 < t
      → verify t ≡ some claims
      → Shown claims
      → All Allowed rooms
      → All Allowed (handle_join verify payload rooms).1
  joined-Allowed t claims payload rooms e positive v shown may =
      let x = handle_join verify payload rooms in
      let (after, new) = handle_join-IsJoin verify t claims payload rooms e positive v in
      let new' =
        All-weak (MayJoin claims) Allowed (joined x.0) (λ room m. (claims, shown, m)) new in
      rw after (All-append Allowed rooms (joined x.0) may new')

  -- A token that is missing, empty or does not verify changes no room.
  handle_join-Allowed :
      (payload : JoinRoomPayload) (rooms : List Room)
      → Shows payload
      → All Allowed rooms
      → All Allowed (handle_join verify payload rooms).1
  unfolding handle_join
  handle_join-Allowed payload rooms shows may = elim (Option-cases payload.token) [
    | inl e ↦ rw (handle_join, e) may
    | inr (t, e) ↦ elim (Bool-cases (truthy (some t))) [
      | inr empty ↦ rw (handle_join, e, empty) may
      | inl known ↦ elim (Option-cases (verify t)) [
        | inl bad ↦ rw (handle_join, e, known, bad) may
        | inr (claims, v) ↦
            joined-Allowed t claims payload rooms e (ground (arith, known)) v (shows t claims e v)
              may
      ]
    ]
  ]

  abbrev pub ShowsIn : {Float : Type 0} → SocketEvent Float → Type 0
  ShowsIn (asks payload) = Shows payload
  ShowsIn (publishes ready n) = Unit {0}

module _ (verify : ℕ → Option Claims) (reaches : List Room → Room → Bool) (Shown : Claims → Type 0)
    (only : (rooms : List Room) (room : Room)
      → reaches rooms room ≡ true
      → has_room rooms room ≡ true)
    {Float : Type 0} where
  abbrev IsHeard : Notice Float → Type 0
  IsHeard n = Allowed verify Shown (room_of n)

  emit_to_room-IsHeard :
      (ready : Bool) (n : Notice Float) (s : Socket Float)
      → All (Allowed verify Shown) s.rooms
      → All IsHeard s.received
      → let x = emit_to_room verify reaches ready (room_of n) n s in
        All (Allowed verify Shown) x.rooms × All IsHeard x.received
  unfolding emit_to_room
  emit_to_room-IsHeard false n s may heard = (may, heard)
  emit_to_room-IsHeard true n s may heard = elim (Bool-cases (reaches s.rooms (room_of n))) [
    | inr away ↦ rw away (may, heard)
    | inl here ↦
        let stands =
          All-has_room (Allowed verify Shown) s.rooms (room_of n) may
            (only s.rooms (room_of n) here) in
        rw here (may, (stands, heard))
  ]

  run-IsHeard :
      (es : List (SocketEvent Float)) (s : Socket Float)
      → All (ShowsIn verify Shown) es
      → All (Allowed verify Shown) s.rooms
      → All IsHeard s.received
      → All IsHeard (socket_run verify reaches es s).received
  unfolding socket_run
  run-IsHeard [] s shows may heard = heard
  run-IsHeard (asks payload ∷ es) s (here, shows) may heard =
      run-IsHeard es _ shows (handle_join-Allowed verify Shown payload s.rooms here may) heard
  run-IsHeard (publishes ready n ∷ es) s (here, shows) may heard =
      let (may', heard') = emit_to_room-IsHeard ready n s may heard in
      run-IsHeard es _ shows may' heard'

  -- If socket.io delivers a message only to the sockets in its room, then every message that a socket
  -- receives, however it asks to join and whatever is published between, is for a room for which claims
  -- stand that one of its verified tokens shows: an assignment or a timeout reaches only the driver whom
  -- it names, and the status or position of an order only who is not a driver and has an id.
  pub socket_run-Allowed :
      (es : List (SocketEvent Float))
      → All (ShowsIn verify Shown) es
      → All
          (λ n. Allowed verify Shown (room_of n))
          (socket_run verify reaches es (record { rooms = []; received = [] })).received
  socket_run-Allowed es shows = run-IsHeard es (record { rooms = []; received = [] }) shows tt tt
