-- ===== src/Http/Orders.antt =====
-- The routes of src/orders/orders.controller.ts that read orders. The value of `:id` is a UUID, and a
-- status is one of the enumeration.
use logistics_dispatch.Common.{
  All, Bool-cases, List, Option, Option-cases, Result, Result-cases, [], arith, inl, inr, map, ok,
  select, take, true, ℕ, ◌+◌, ◌==◌, ◌>>=◌, ◌∷◌, ◌≡◌,
}
use logistics_dispatch.Auth.Tokens.{JwtPayload}
use logistics_dispatch.Dispatch.Candidates.{sort}
use logistics_dispatch.Http.Guards.{IsAdmitted, authorize, authorize-IsAdmitted}
use logistics_dispatch.Orders.Entity.{Order, OrderResponse, to_order_response}
use logistics_dispatch.Orders.Listing.{find_all, is_listed}
use logistics_dispatch.Orders.Requests.{find_by_id}
use logistics_dispatch.Orders.Status.{OrderStatus}
use logistics_dispatch.Paging.{
  Codec, Page, cut_page, encode_cursor, find_page, is_below, is_newer, listing, map_page, page_rows,
  read_cursor, safe_limit_of,
}
use logistics_dispatch.Paging.Pages.{cut_page-All}
use logistics_dispatch.Paging.Walk.{All-select}
use logistics_dispatch.Platform.{Platform, rows_of}
use logistics_dispatch.Users.Entity.{JwtUser, UserRole, admin, customer, driver}
use logistics_dispatch.World.{World, find_order}
use mathlib.Core.Path.{subst}

pub data OrdersRead (T : Type 0) : Type 0 where
  get_order : ℕ → OrdersRead T
  get_orders : ℕ → Option T → Option OrderStatus → OrdersRead T

pub data OrdersReply (Float T : Type 0) : Type 0 where
  one_order : OrderResponse Float → OrdersReply Float T
  order_page : Page (OrderResponse Float) T → OrdersReply Float T

-- The orders that an answer shows.
abbrev pub shown : {Float T : Type 0} → OrdersReply Float T → List (OrderResponse Float)
shown (one_order o) = o ∷ []
shown (order_page x) = x.rows

-- `@Roles(…)`
unfoldable pub read_roles : {T : Type 0} → OrdersRead T → List UserRole
read_roles (get_order id) = customer ∷ admin ∷ driver ∷ []
read_roles (get_orders limit cursor status) = customer ∷ admin ∷ []

module _ {p : Platform} (k : Codec) (micros : Order p.Float → ℕ) where
  unfoldable pub read_as :
      OrdersRead k.Text → JwtUser → World p → Result (OrdersReply p.Float k.Text)
  unfolding find_by_id find_all
  read_as (get_order id) user w = do o ← find_by_id id user w; ok (one_order o)
  read_as (get_orders limit cursor status) user w = do
    x ← find_all k micros user limit cursor status w
    ok (order_page x)

  -- The guards, and then the method.
  unfoldable pub orders_read :
      Option JwtPayload → OrdersRead k.Text → World p → Result (OrdersReply p.Float k.Text)
  unfolding authorize read_roles read_as
  orders_read token r w = do user ← authorize (read_roles r) token w; read_as r user w

-- A customer is shown only the orders of that customer.
abbrev pub IsOwn : {Float T : Type 0} → JwtUser → OrdersReply Float T → Type 0
IsOwn user reply = user.role ≡ customer → All (λ o. o.customer_id ≡ user.user_id) (shown reply)

find_by_id-own :
    {p : Platform} (id : ℕ) (user : JwtUser) (w : World p) (o : OrderResponse p.Float)
    → find_by_id id user w ≡ ok o
    → user.role ≡ customer
    → o.customer_id ≡ user.user_id
unfolding find_by_id to_order_response
find_by_id-own id user w o e role = elim (Option-cases (find_order id w)) [
  | inl nothing ↦ absurd (ground arith)
  | inr (x, found) ↦ elim (Bool-cases (x.customer_id == user.user_id)) [
    | inr other ↦ absurd (ground arith)
    | inl own ↦ ground arith
  ]
]

listed_own :
    {Float : Type 0} (user : JwtUser) (status : Option OrderStatus) (o : Order Float)
    → user.role ≡ customer
    → is_listed user status o ≡ true
    → o.customer_id ≡ user.user_id
unfolding is_listed
listed_own user status o role listed = ground arith

select_own :
    {Float : Type 0} (user : JwtUser) (status : Option OrderStatus) (os : List (Order Float))
    → user.role ≡ customer
    → All (λ o. o.customer_id ≡ user.user_id) (select (is_listed user status) os)
unfolding select
select_own user status [] role = tt
select_own user status (o ∷ os) role = elim (Bool-cases (is_listed user status o)) [
  | inl listed ↦ rw listed (listed_own user status o role listed, select_own user status os role)
  | inr hidden ↦ rw hidden (select_own user status os role)
]

responses_own :
    (p : Platform) (user : JwtUser) (os : List (Order p.Float))
    → All (λ o. o.customer_id ≡ user.user_id) os
    → All (λ o. o.customer_id ≡ user.user_id) (map (to_order_response p) os)
unfolding to_order_response
responses_own p user [] own = tt
responses_own p user (o ∷ os) (here, own) = (here, responses_own p user os own)

module _ {p : Platform} (k : Codec) (micros : Order p.Float → ℕ) where
  find_all-own :
      (limit : ℕ) (cursor : Option k.Text) (status : Option OrderStatus) (user : JwtUser)
      (w : World p) (x : Page (OrderResponse p.Float) k.Text)
      → find_all k micros user limit cursor status w ≡ ok x
      → user.role ≡ customer
      → All (λ o. o.customer_id ≡ user.user_id) x.rows
  unfolding find_all find_page map_page page_rows listing
  find_all-own limit cursor status user w x e role = elim (Result-cases (read_cursor k cursor)) [
    | inr (bad, c) ↦ absurd (ground arith)
    | inl (c, read) ↦
        let sorted = sort (is_newer micros (λ o. o.id)) (rows_of w.orders) in
        let below = is_below micros (λ o. o.id) c in
        let encode = encode_cursor k (λ (o : Order p.Float). o.created_at) (λ o. o.id) in
        let n = safe_limit_of limit in
        let rows = select below (select (is_listed user status) sorted) in
        let own =
          All-select (λ (o : Order p.Float). o.customer_id ≡ user.user_id) below
            (select (is_listed user status) sorted) (select_own user status sorted role) in
        let cut = cut_page encode n (take (n + 1) rows) in
        let kept =
          cut_page-All (λ (o : Order p.Float). o.customer_id ≡ user.user_id) encode n rows own in
        let same : map (to_order_response p) cut.rows ≡ x.rows = ground arith in
        subst (All (λ o. o.customer_id ≡ user.user_id)) same (responses_own p user cut.rows kept)
  ]

  read_as-IsOwn :
      (r : OrdersRead k.Text) (user : JwtUser) (w : World p) (reply : OrdersReply p.Float k.Text)
      → read_as k micros r user w ≡ ok reply
      → IsOwn user reply
  unfolding read_as
  read_as-IsOwn (get_order id) user w reply e role = elim (Result-cases (find_by_id id user w)) [
    | inr (x, bad) ↦ absurd (ground arith)
    | inl (o, found) ↦
        let same : one_order o ≡ reply = ground arith in
        subst (λ y. All (λ o. o.customer_id ≡ user.user_id) (shown y)) same
          (find_by_id-own id user w o found role, tt)
  ]
  read_as-IsOwn (get_orders limit cursor status) user w reply e role =
      elim (Result-cases (find_all k micros user limit cursor status w)) [
        | inr (x, bad) ↦ absurd (ground arith)
        | inl (x, found) ↦
            let same : order_page x ≡ reply = ground arith in
            subst (λ y. All (λ o. o.customer_id ≡ user.user_id) (shown y)) same
              (find_all-own limit cursor status user w x found role)
      ]

  -- Whoever gets an answer is a user in the table with a verified email and there one of the roles of the
  -- route, and a customer sees no order but the customer's own, by its id or on any page.
  pub orders_read-IsOwn :
      (token : Option JwtPayload) (r : OrdersRead k.Text) (w : World p)
      (reply : OrdersReply p.Float k.Text)
      → orders_read k micros token r w ≡ ok reply
      → (user : JwtUser) × IsAdmitted (read_roles r) token user w × IsOwn user reply
  unfolding orders_read
  orders_read-IsOwn token r w reply e = elim (Result-cases (authorize (read_roles r) token w)) [
    | inr (x, refused) ↦ absurd (ground arith)
    | inl (user, admitted) ↦
        let answered : read_as k micros r user w ≡ ok reply = ground arith in
        (
          user,
          authorize-IsAdmitted (read_roles r) token user w admitted,
          read_as-IsOwn r user w reply answered,
        )
  ]
