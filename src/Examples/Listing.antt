-- ===== src/Examples/Listing.antt =====
-- The theorems on the listing of orders, on three orders of which two are of the same time.
use logistics_dispatch.Common.{
  All, [], arith, if◌then◌else◌, length, map, none, ok, refl, select, some, ℕ, ◌*◌, ◌+◌, ◌<◌, ◌==◌,
  ◌∷◌, ◌≡◌, ◌≢◌,
}
use logistics_dispatch.Dispatch.Candidates.{insert_sorted, sort}
use logistics_dispatch.Examples.{customer_user, waiting, waiting_world}
use logistics_dispatch.Orders.Entity.{Order, OrderResponse, to_order_response}
use logistics_dispatch.Orders.Listing.{find_all, find_all_visits, is_listed, listed_orders}
use logistics_dispatch.Orders.Precision.{same_millisecond_lost}
use logistics_dispatch.Paging.{Codec, Cursor, Page, encode_cursor, is_newer, listing}
use logistics_dispatch.Paging.Pages.{AreTimed, follow}
use logistics_dispatch.Paging.Walk.{HaveIds, IsListing}
use logistics_dispatch.Platform.{rows_of}
use logistics_dispatch.Platform.Memory.{Signed, memory, table_of}
use logistics_dispatch.World.{World}

-- A cursor that is its own text.
abbrev pub plain_codec : Codec
plain_codec = record {
  Text = Cursor;
  encode = λ c. c;
  parse = λ c. some (record { created_at = some (some c.created_at); id = some c.id });
  parse-encode = λ c named. refl;
}

abbrev order_of : ℕ → ℕ → Order Signed
order_of id time = record waiting { id = id; created_at = time }

abbrev three_orders : World memory
three_orders = record waiting_world {
  orders = table_of ((7, order_of 7 5) ∷ (8, order_of 8 5) ∷ (9, order_of 9 4) ∷ []);
}

-- The order 9 came a quarter of a millisecond late.
abbrev micros_of : Order Signed → ℕ
micros_of o = o.created_at * 1000 + (if o.id == 9 then 250 else 0)

have_ids : HaveIds micros_of (λ o. o.id) (rows_of three_orders.orders)
unfolding rows_of
have_ids = (((λ e. cc), ((λ e. cc), tt)), (((λ e. cc), tt), (tt, tt)))

are_timed : AreTimed micros_of (λ o. o.created_at) (λ o. o.id) (rows_of three_orders.orders)
unfolding rows_of
are_timed = ground arith

are_named : All (λ o. 0 < o.id) (rows_of three_orders.orders)
unfolding rows_of
are_named = (omega arith, (omega arith, (omega arith, tt)))

find_all_visits_example :
    let orders = listed_orders plain_codec micros_of customer_user none three_orders in
    (follow
        (λ c. find_all plain_codec micros_of customer_user 1 c none three_orders)
        (length orders)
        none
      ≡ map (to_order_response memory) orders)
    × IsListing micros_of (λ o. o.id) orders
find_all_visits_example =
    find_all_visits plain_codec micros_of customer_user 1 none three_orders have_ids are_timed
      are_named

-- The pages hold all three orders.
three_listed :
    listed_orders plain_codec micros_of customer_user none three_orders
    ≡ order_of 8 5 ∷ order_of 7 5 ∷ order_of 9 4 ∷ []
unfolding listing rows_of is_listed sort insert_sorted is_newer select
three_listed = refl

-- The order 8 is 300 microseconds newer than the order 7.
abbrev precise : Order Signed → ℕ
precise o = if o.id == 8 then 5700 else if o.id == 7 then 5400 else 4000

one_seven : All (λ o. o.id ≡ 7 → o ≡ order_of 7 5) (rows_of three_orders.orders)
unfolding rows_of
one_seven = ((λ e. refl), ((λ e. absurd (cc)), ((λ e. absurd (cc)), tt)))

same_millisecond_lost_example :
    let t =
      encode_cursor plain_codec (λ (o : Order Signed). o.created_at) (λ o. o.id) (order_of 8 5) in
    (page : Page (OrderResponse Signed) Cursor) × (find_all plain_codec precise customer_user 1
        (some t)
        none
        three_orders
      ≡ ok page)
    × All (λ r. r.id ≢ 7) page.rows
same_millisecond_lost_example =
    same_millisecond_lost plain_codec precise customer_user 1 none (order_of 8 5) (order_of 7 5)
      three_orders one_seven (omega arith) (omega arith)
