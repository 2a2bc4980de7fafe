-- ===== src/Orders/Listing.antt =====
-- src/orders/orders.service.ts: `findAll`. `micros` is the time of a row in the database, in
-- microseconds; the row that is read has its milliseconds.
use logistics_dispatch.Common.{
  All, Bool, List, Option, Result, arith, is_known, length, map, none, not, refl, some, true, ℕ,
  ◌&&◌, ◌<◌, ◌==◌, ◌||◌, ◌≡◌,
}
use logistics_dispatch.Orders.Entity.{Order, OrderResponse, to_order_response}
use logistics_dispatch.Orders.Status.{OrderStatus, status_eq}
use logistics_dispatch.Paging.{
  Codec, Page, encode_cursor, find_page, listing, read_cursor, safe_limit_of,
}
use logistics_dispatch.Paging.Follow.{follow_whole, read-encode}
use logistics_dispatch.Paging.Pages.{AreTimed, follow}
use logistics_dispatch.Paging.Walk.{HaveIds, IsListing, listing-IsListing}
use logistics_dispatch.Platform.{Platform, rows_of}
use logistics_dispatch.Users.Entity.{JwtUser, customer, role_eq}
use logistics_dispatch.World.{World}

-- The conditions on the customer and on the status, of a row that is not soft-deleted.
unfoldable pub is_listed : {Float : Type 0} → JwtUser → Option OrderStatus → Order Float → Bool
is_listed user status o =
    not (is_known o.deleted_at)
    && (not (role_eq user.role customer) || o.customer_id == user.user_id)
    && elim status [ none ↦ true | some s ↦ status_eq o.order_status s ]

module _ {p : Platform} (k : Codec) (micros : Order p.Float → ℕ) where
  unfoldable pub find_all :
      JwtUser
      → ℕ
      → Option k.Text
      → Option OrderStatus
      → World p
      → Result (Page (OrderResponse p.Float) k.Text)
  unfolding find_page read_cursor encode_cursor is_listed
  find_all user limit cursor status w =
      find_page micros (λ o. o.id) (to_order_response p) (read_cursor k)
        (encode_cursor k (λ o. o.created_at) (λ o. o.id)) (is_listed user status)
        (safe_limit_of limit) cursor (rows_of w.orders)

  -- The orders that the user may see and asks for, the newest first.
  abbrev pub listed_orders : JwtUser → Option OrderStatus → World p → List (Order p.Float)
  listed_orders user status w =
      listing micros (λ o. o.id) (is_listed user status) (rows_of w.orders)

  -- If the table's rows have ids that are not empty and all different, are read with the milliseconds of
  -- their times, and two of them have the same millisecond only if both times have no part below it, then
  -- a client who follows the cursors of the listing of orders from the first page on,
  -- with any limit, reaches the last page, and sees each order that the user may see and asks for exactly
  -- once, the newest first.
  pub find_all_visits :
      (user : JwtUser) (limit : ℕ) (status : Option OrderStatus) (w : World p)
      → HaveIds micros (λ o. o.id) (rows_of w.orders)
      → AreTimed micros (λ o. o.created_at) (λ o. o.id) (rows_of w.orders)
      → All (λ o. 0 < o.id) (rows_of w.orders)
      → let orders = listed_orders user status w in
        (follow (λ c. find_all user limit c status w) (length orders) none
          ≡ map (to_order_response p) orders)
        × IsListing micros (λ o. o.id) orders
  unfolding find_all read_cursor
  find_all_visits user limit status w ids whole named = (
    follow_whole micros (λ o. o.created_at) (λ o. o.id) (to_order_response p) (read_cursor k)
        (encode_cursor k (λ o. o.created_at) (λ o. o.id)) refl
        (read-encode k (λ o. o.created_at) (λ o. o.id)) (is_listed user status)
        (safe_limit_of limit) (ground arith) (rows_of w.orders) ids whole named,
    listing-IsListing micros (λ o. o.id) (is_listed user status) (rows_of w.orders) ids,
  )
