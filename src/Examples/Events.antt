-- ===== src/Examples/Events.antt =====
-- The theorem on the messages that a socket receives, on the socket of the driver 3.
use logistics_dispatch.Common.{All, List, [], arith, false, refl, some, true, ℕ, ◌∷◌, ◌≡◌}
use logistics_dispatch.Events.Audience.{Allowed, socket_run-Allowed}
use logistics_dispatch.Events.Gateway.{Claims}
use logistics_dispatch.Events.Publisher.{
  Socket, SocketEvent, asks, has_room, publishes, room_of, socket_run,
}
use logistics_dispatch.Examples.Accounts.{asks_for_order, driver_claims, only_five}
use logistics_dispatch.World.{driver_assigned_notice, driver_timeout}

abbrev arrivals : List (SocketEvent ℕ)
arrivals =
    publishes true (driver_assigned_notice 6 3)
    ∷ asks asks_for_order
    ∷ publishes true (driver_assigned_notice 7 3)
    ∷ publishes true (driver_assigned_notice 8 4)
    ∷ publishes false (driver_timeout 7 3)
    ∷ []

abbrev new_socket : Socket ℕ
new_socket = record { rooms = []; received = [] }

only_driver :
    (t : ℕ) (claims : Claims) → some 5 ≡ some t → only_five t ≡ some claims → claims ≡ driver_claims
only_driver t claims e v = ground arith

socket_run-Allowed_example :
    All
      (λ n. Allowed only_five (λ claims. claims ≡ driver_claims) (room_of n))
      (socket_run only_five has_room arrivals new_socket).received
socket_run-Allowed_example =
    socket_run-Allowed only_five has_room (λ claims. claims ≡ driver_claims)
      (λ rooms room here. here) arrivals (tt, (only_driver, (tt, (tt, (tt, tt)))))

-- The assignment of the order 7 is all that the socket receives.
hears_seven :
    (socket_run only_five has_room arrivals new_socket).received ≡ driver_assigned_notice 7 3 ∷ []
unfolding socket_run
hears_seven = refl
