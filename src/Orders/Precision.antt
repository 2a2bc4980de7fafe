-- ===== src/Orders/Precision.antt =====
-- The listing of orders (src/orders/orders.service.ts, `findAll`) where times have microseconds.
use logistics_dispatch.Common.{
  All, Bool-cases, List, Option, [], ap, arith, false, inl, inr, map, ok, refl, select, some, take,
  ℕ, ◌*◌, ◌+◌, ◌<◌, ◌∷◌, ◌≡◌, ◌≢◌,
}
use logistics_dispatch.Dispatch.Candidates.{sort}
use logistics_dispatch.Dispatch.Ranking.{sort-All}
use logistics_dispatch.Orders.Entity.{Order, OrderResponse, to_order_response}
use logistics_dispatch.Orders.Listing.{find_all, is_listed}
use logistics_dispatch.Orders.Status.{OrderStatus}
use logistics_dispatch.Paging.{
  Codec, Page, cut_page, encode_cursor, find_page, is_below, is_newer, listing, map_page, page_rows,
  safe_limit_of,
}
use logistics_dispatch.Paging.Follow.{read-encode}
use logistics_dispatch.Paging.Pages.{cursor_of, cut_page-All}
use logistics_dispatch.Paging.Walk.{All-select}
use logistics_dispatch.Platform.{Platform, rows_of}
use logistics_dispatch.Users.Entity.{JwtUser}
use logistics_dispatch.World.{World}

response-All :
    (p : Platform) (i : ℕ) (os : List (Order p.Float))
    → All (λ o. o.id ≢ i) os
    → All (λ r. r.id ≢ i) (map (to_order_response p) os)
unfolding to_order_response
response-All p i [] all = tt
response-All p i (o ∷ os) all = (all.0, response-All p i os all.1)

module _ {Float : Type 0} where
  not_below :
      (micros : Order Float → ℕ) (x y : Order Float) (os : List (Order Float))
      → x.created_at * 1000 < micros y
      → All (λ o. o.id ≡ y.id → o ≡ y) os
      → All
          (λ o. o.id ≢ y.id)
          (select
            (is_below micros
              (λ o. o.id)
              (some (cursor_of (λ (o : Order Float). o.created_at) (λ o. o.id) x)))
            os)
  unfolding is_below select
  not_below micros x y [] late keyed = tt
  not_below micros x y (o ∷ os) late keyed =
      let below =
        is_below micros (λ (o : Order Float). o.id)
          (some (cursor_of (λ (o : Order Float). o.created_at) (λ o. o.id) x)) in
      let rest = not_below micros x y os late keyed.1 in
      let out : below y ≡ false = ground arith in
      elim (Bool-cases (below o)) [
        | inl here ↦ rw here ((λ e. absurd (cc (ap below (keyed.0 e), out, here))), rest)
        | inr gone ↦ rw gone rest
      ]

module _ {p : Platform} (k : Codec) (micros : Order p.Float → ℕ) where
  -- If the table's rows have different ids and the order `x` an id that is not empty, then the page after
  -- the cursor of `x` leaves out every order whose time has passed the millisecond of `x`, also one
  -- that comes after `x` in the listing: the cursor has the milliseconds of `x` only.
  pub same_millisecond_lost :
      (user : JwtUser) (limit : ℕ) (status : Option OrderStatus) (x y : Order p.Float) (w : World p)
      → All (λ o. o.id ≡ y.id → o ≡ y) (rows_of w.orders)
      → 0 < x.id
      → x.created_at * 1000 < micros y
      → let t = encode_cursor k (λ (o : Order p.Float). o.created_at) (λ o. o.id) x in
        (page : Page (OrderResponse p.Float) k.Text) × (find_all k micros user limit
            (some t)
            status
            w
          ≡ ok page)
        × All (λ r. r.id ≢ y.id) page.rows
  unfolding find_all find_page page_rows listing map_page
  same_millisecond_lost user limit status x y w keyed named late =
      let created = λ (o : Order p.Float). o.created_at in
      let id_of = λ (o : Order p.Float). o.id in
      let c = some (cursor_of created id_of x) in
      let rows = listing micros id_of (is_listed user status) (rows_of w.orders) in
      let encode = encode_cursor k created id_of in
      let n = safe_limit_of limit in
      let kept = not_below micros x y rows late (
        All-select _ (is_listed user status) (sort (is_newer micros id_of) (rows_of w.orders))
          (sort-All (is_newer micros id_of) _ (rows_of w.orders) keyed)) in
      (
        map_page (to_order_response p)
            (cut_page encode n (take (n + 1) (select (is_below micros id_of c) rows))),
        rw (read-encode k created id_of x named) refl,
        response-All p y.id _ (cut_page-All (λ o. o.id ≢ y.id) encode n _ kept),
      )
