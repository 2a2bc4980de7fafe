-- ===== src/Orders/Status.antt =====
-- src/orders/enums and src/orders/constants: the states of an order and the table of the transitions
-- that a request may ask for.
use logistics_dispatch.Common.{Bool, List, [], arith, false, true, ℕ, ◌==◌, ◌||◌, ◌∷◌, ◌≡◌}

pub data OrderStatus : Type 0 where
  pending driver_assigned driver_arriving picked_up in_transit : OrderStatus
  delivered cancelled failed expired : OrderStatus

abbrev pub rank : OrderStatus → ℕ
rank pending = 0
rank driver_assigned = 1
rank driver_arriving = 2
rank picked_up = 3
rank in_transit = 4
rank delivered = 5
rank cancelled = 6
rank failed = 7
rank expired = 8

-- `a === b` on two states.
abbrev pub status_eq : OrderStatus → OrderStatus → Bool
status_eq a b = rank a == rank b

-- `[…].includes(s)` on a list of states.
abbrev pub has_status : List OrderStatus → OrderStatus → Bool
has_status [] s = false
has_status (t ∷ ts) s = status_eq t s || has_status ts s

-- The set `terminalStatuses` of the services.
abbrev pub terminal_statuses : List OrderStatus
terminal_statuses = delivered ∷ cancelled ∷ failed ∷ expired ∷ []

abbrev pub is_terminal : OrderStatus → Bool
is_terminal s = has_status terminal_statuses s

-- `ORDER_TRANSITIONS`
abbrev pub order_transitions : OrderStatus → List OrderStatus
order_transitions pending = driver_assigned ∷ cancelled ∷ expired ∷ []
order_transitions driver_assigned = driver_arriving ∷ cancelled ∷ []
order_transitions driver_arriving = picked_up ∷ cancelled ∷ []
order_transitions picked_up = in_transit ∷ []
order_transitions in_transit = delivered ∷ failed ∷ []
order_transitions delivered = []
order_transitions cancelled = []
order_transitions failed = []
order_transitions expired = []

pub status_eq→eq : (a b : OrderStatus) → status_eq a b ≡ true → a ≡ b
status_eq→eq pending b h = ground arith
status_eq→eq a b h = ground arith
