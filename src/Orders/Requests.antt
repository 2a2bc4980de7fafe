-- ===== src/Orders/Requests.antt =====
-- src/orders/orders.service.ts: `findById`, `updateStatus`, `cancelOrder`, `softDelete` and
-- `reassignOrder`. A request reads the row first and writes it in a later transaction, so the part
-- that writes takes the row as it was read and the state as it is then.
use logistics_dispatch.Common.{
  Result, [], conflict, err, forbidden, if◌then◌else◌, is_known, none, not, not_found, ok, some,
  unprocessable, ℕ, ◌&&◌, ◌+◌, ◌==◌, ◌>>=◌, ◌>>◌, ◌∷◌,
}
use logistics_dispatch.Dispatch.Config.{adds, trigger_dispatch}
use logistics_dispatch.Orders.Entity.{
  Order, OrderResponse, OrderStatusHistory, actor, to_order_response,
}
use logistics_dispatch.Orders.Rules.{check_request}
use logistics_dispatch.Orders.Status.{
  OrderStatus, cancelled, driver_arriving, driver_assigned, expired, has_status, in_transit,
  is_terminal, pending, picked_up, status_eq,
}
use logistics_dispatch.Platform.{Platform, assign_driver, find}
use logistics_dispatch.Tracking.{cancel_eta_job}
use logistics_dispatch.Users.Entity.{JwtUser, customer, role_eq}
use logistics_dispatch.World.{World, find_order, history_row, save_change, save_order}

module _ {Float : Type 0} where
  -- `updateStatus` sets the state, and one more than the version that was read.
  unfoldable pub with_status : OrderStatus → ℕ → Order Float → Order Float
  with_status new read_version r = record r { order_status = new; version = read_version + 1 }

  -- `reassignOrder` makes an expired order wait again.
  unfoldable pub reopened : ℕ → Order Float → Order Float
  reopened read_version r = record r {
    order_status = pending;
    assigned_driver_id = none;
    dispatch_attempts = 0;
    attempted_driver_ids = [];
    version = read_version + 1;
  }

module _ {p : Platform} where
  -- The row is still there after the update, unless it is soft-deleted: then all is rolled back.
  unfoldable pub written_row :
      Order p.Float → OrderStatusHistory → World p → Result (Order p.Float) × World p
  written_row r h w =
      if is_known r.deleted_at then (err not_found, w) else (ok r, save_change r h w)

  -- `UPDATE … WHERE id = :orderId AND version = :version`, the row of the history, and the read of
  -- the row; no row that matches is a conflict.
  unfoldable pub versioned_update :
      (Order p.Float → Order p.Float)
      → OrderStatusHistory
      → Order p.Float
      → World p
      → Result (Order p.Float) × World p
  unfolding written_row
  versioned_update change h o w = elim (find w.orders o.id) [
    | none ↦ (err conflict, w)
    | some r ↦ if r.version == o.version then written_row (change r) h w else (err conflict, w)
  ]

  unfoldable pub respond :
      Result (Order p.Float) × World p → Result (OrderResponse p.Float) × World p
  unfolding to_order_response
  respond (r, w) = (r >>= λ o. ok (to_order_response p o), w)

  unfoldable pub find_by_id : ℕ → JwtUser → World p → Result (OrderResponse p.Float)
  unfolding to_order_response
  find_by_id order_id user w = elim (find_order order_id w) [
    | none ↦ err not_found
    | some o ↦
        if role_eq user.role customer && not (o.customer_id == user.user_id)
        then err forbidden
        else ok (to_order_response p o)
  ]

  -- The transaction of `updateStatus`, from the row `o` that was read.
  unfoldable pub commit_status :
      OrderStatus → JwtUser → Order p.Float → World p → Result (Order p.Float) × World p
  unfolding versioned_update with_status
  commit_status new user o w =
      versioned_update (with_status new o.version)
        (history_row o.id o.order_status new (actor user.user_id)) o w

  -- A final state ends the estimates.
  unfoldable pub settle :
      OrderStatus → Result (Order p.Float) × World p → Result (Order p.Float) × World p
  unfolding cancel_eta_job
  settle new (err e, w) = (err e, w)
  settle new (ok o, w) = (ok o, if is_terminal new then cancel_eta_job o.id w else w)

  -- What `updateStatus` does after its checks.
  unfoldable pub after_checks :
      OrderStatus
      → JwtUser
      → Order p.Float
      → World p
      → Result (Unit {0})
      → Result (OrderResponse p.Float) × World p
  unfolding commit_status settle respond
  after_checks new user o w (err e) = (err e, w)
  after_checks new user o w (ok valid) = respond (settle new (commit_status new user o w))

  -- `updateStatus` from the row `o` that was read.
  unfoldable pub update_from :
      OrderStatus → JwtUser → Order p.Float → World p → Result (OrderResponse p.Float) × World p
  unfolding after_checks
  update_from new user o w = after_checks new user o w (check_request o new user)

  unfoldable pub update_status :
      ℕ → OrderStatus → JwtUser → World p → Result (OrderResponse p.Float) × World p
  unfolding update_from
  update_status order_id new user w = elim (find_order order_id w) [
    | none ↦ (err not_found, w)
    | some o ↦ update_from new user o w
  ]

  unfoldable pub cancel_order : ℕ → JwtUser → World p → Result (OrderResponse p.Float) × World p
  unfolding update_status
  cancel_order order_id user w = update_status order_id cancelled user w

  -- `softDelete`; the response is a fixed message.
  unfoldable pub soft_delete : ℕ → ℕ → World p → Result (Unit {0}) × World p
  soft_delete order_id now w = elim (find_order order_id w) [
    | none ↦ (err not_found, w)
    | some o ↦
        if has_status (driver_assigned ∷ driver_arriving ∷ picked_up ∷ in_transit ∷ [])
          o.order_status
        then (err unprocessable, w)
        else (ok tt, save_order (record o { deleted_at = some now }) w)
  ]

  unfoldable pub triggered : Result (Order p.Float) × World p → Result (Order p.Float) × World p
  unfolding trigger_dispatch adds
  triggered (err e, w) = (err e, w)
  triggered (ok o, w) = (adds p (assign_driver o.id) >> ok o, trigger_dispatch o.id w)

  -- The transaction of `reassignOrder`, from the row `o` that was read.
  unfoldable pub commit_reopen :
      JwtUser → Order p.Float → World p → Result (Order p.Float) × World p
  unfolding versioned_update reopened
  commit_reopen user o w =
      versioned_update (reopened o.version) (history_row o.id expired pending (actor user.user_id))
        o w

  -- `reassignOrder` from the row `o` that was read.
  unfoldable pub reassign_from :
      JwtUser → Order p.Float → World p → Result (OrderResponse p.Float) × World p
  unfolding commit_reopen triggered respond
  reassign_from user o w =
      if not (has_status (pending ∷ expired ∷ []) o.order_status)
      then (err unprocessable, w)
      else respond (
          triggered
            (if status_eq o.order_status expired then commit_reopen user o w else (ok o, w)))

  unfoldable pub reassign_order : ℕ → JwtUser → World p → Result (OrderResponse p.Float) × World p
  unfolding reassign_from
  reassign_order order_id user w = elim (find_order order_id w) [
    | none ↦ (err not_found, w)
    | some o ↦ reassign_from user o w
  ]
