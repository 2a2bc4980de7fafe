-- ===== src/Examples/Http.antt =====
-- The theorems on the requests of the controllers, on a cancellation and a listing by the customer 1.
use logistics_dispatch.Common.{
  Exception, [], err, false, none, ok, refl, select, some, true, ℕ, ◌*◌, ◌∷◌, ◌≡◌, ◌⊎◌,
}
use logistics_dispatch.Auth.Tokens.{JwtPayload}
use logistics_dispatch.Dispatch.Candidates.{insert_sorted, sort}
use logistics_dispatch.Examples.{defaults, waiting}
use logistics_dispatch.Examples.Accounts.{account_world}
use logistics_dispatch.Examples.Listing.{plain_codec}
use logistics_dispatch.Http.Guards.{IsAdmitted}
use logistics_dispatch.Http.Orders.{
  IsOwn, OrdersReply, get_orders, order_page, orders_read, orders_read-IsOwn, read_roles,
}
use logistics_dispatch.Http.Routes.{
  asker_of, handle_request, handle_request-step, may_cause, patch_cancel, roles_of,
}
use logistics_dispatch.Orders.Entity.{Order, to_order_response}
use logistics_dispatch.Orders.Rules.{check_request}
use logistics_dispatch.Orders.Status.{cancelled}
use logistics_dispatch.Paging.{Cursor}
use logistics_dispatch.Platform.{find, rows_of}
use logistics_dispatch.Platform.Memory.{Signed, memory}
use logistics_dispatch.System.{step, updates}
use logistics_dispatch.Users.Entity.{JwtUser, admin, customer}

abbrev pub ada_token : JwtPayload
ada_token = record { sub = 1; email = "c@x"; role = customer; driver_profile_id = none }

handle_request-step_example :
    ((e : Exception) × (handle_request defaults (some ada_token) (patch_cancel 7) account_world
        ≡ (err e, account_world)))
    ⊎ ((user : JwtUser) × IsAdmitted (customer ∷ admin ∷ []) (some ada_token) user account_world
        × ((handle_request defaults (some ada_token) (patch_cancel 7) account_world).1
            ≡ step defaults (updates 7 cancelled user) account_world)
        × (may_cause {p = memory} user.role (updates 7 cancelled user) ≡ true)
        × ((asker_of {p = memory} (updates 7 cancelled user) ≡ none)
            ⊎ (asker_of {p = memory} (updates 7 cancelled user) ≡ some user.user_id)))
unfolding roles_of
handle_request-step_example =
    handle_request-step defaults (some ada_token) (patch_cancel 7) account_world

-- The cancellation passes the guards.
cancels : (handle_request defaults (some ada_token) (patch_cancel 7) account_world).0 ≡ ok tt
unfolding handle_request find check_request
cancels = refl

abbrev micros_of_order : Order Signed → ℕ
micros_of_order o = o.created_at * 1000

abbrev ada_orders : OrdersReply Signed Cursor
ada_orders = order_page (record {
  rows = to_order_response memory waiting ∷ [];
  next_cursor = none;
  has_next_page = false;
})

ada_reads :
    orders_read plain_codec micros_of_order (some ada_token) (get_orders 20 none none) account_world
    ≡ ok ada_orders
unfolding orders_read find rows_of sort insert_sorted select
ada_reads = refl

orders_read-IsOwn_example :
    (user : JwtUser) × IsAdmitted (customer ∷ admin ∷ []) (some ada_token) user account_world
    × IsOwn user ada_orders
unfolding read_roles
orders_read-IsOwn_example =
    orders_read-IsOwn plain_codec micros_of_order (some ada_token) (get_orders 20 none none)
      account_world ada_orders ada_reads
