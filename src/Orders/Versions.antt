-- ===== src/Orders/Versions.antt =====
-- The versions of src/orders/orders.service.ts: an update that names the version it read, where other
-- handlers may have changed the row since.
use logistics_dispatch.Common.{
  Bool-cases, Exception, Option-cases, arith, conflict, err, inl, inr, is_known, none, not_found,
  ok, some, true, ◌+◌, ◌==◌, ◌≡◌, ◌⊎◌,
}
use logistics_dispatch.Dispatch.Config.{DispatchConfig}
use logistics_dispatch.Http.Routes.{done}
use logistics_dispatch.Orders.Entity.{Order, OrderStatusHistory, actor}
use logistics_dispatch.Orders.Lifecycle.{Change, Changes}
use logistics_dispatch.Orders.Lifecycle.Laws.{Changes-version}
use logistics_dispatch.Orders.Requests.{commit_status, reopened, versioned_update, with_status}
use logistics_dispatch.Orders.Rules.{check_request, validate_actor, validate_transition}
use logistics_dispatch.Orders.Status.{OrderStatus, expired, status_eq, status_eq→eq}
use logistics_dispatch.Platform.{Platform, find}
use logistics_dispatch.Users.Entity.{JwtUser}
use logistics_dispatch.World.{World, history_row, save_change}
use mathlib.Core.Path.{subst}

-- What the two checks of `updateStatus` admit.
pub checked_both :
    {Float : Type 0} (o : Order Float) (new : OrderStatus) (user : JwtUser)
    → check_request o new user ≡ ok tt
    → (validate_actor o new user ≡ ok tt) × (validate_transition o.order_status new ≡ ok tt)
unfolding check_request
checked_both o new user h = ground arith

-- A row that has gone through any changes since it was read, and still has its version, is the row
-- that was read, but for a soft deletion.
pub same_version :
    {Float : Type 0} (cfg : DispatchConfig) (o r : Order Float)
    → Changes cfg o r
    → r.version ≡ o.version
    → r ≡ record o { deleted_at = r.deleted_at }
same_version cfg o r cs same = ground (arith, Changes-version cfg cs)

-- The checks do not look at the soft deletion.
pub checked_same :
    {Float : Type 0} (cfg : DispatchConfig) (o r : Order Float) (new : OrderStatus) (user : JwtUser)
    → Changes cfg o r
    → r.version ≡ o.version
    → validate_actor o new user ≡ ok tt
    → validate_transition o.order_status new ≡ ok tt
    → Change cfg r (with_status new o.version r)
unfolding validate_actor validate_transition
checked_same cfg o r new user cs same h k =
    let e = same_version cfg o r cs same in
    subst (λ v. Change cfg r (with_status new v r)) same
      (Change.requests r new user (ground arith) (ground arith))

pub reopen_same :
    {Float : Type 0} (cfg : DispatchConfig) (o r : Order Float)
    → Changes cfg o r
    → r.version ≡ o.version
    → status_eq o.order_status expired ≡ true
    → Change cfg r (reopened o.version r)
reopen_same cfg o r cs same over =
    let e = same_version cfg o r cs same in
    let ends = status_eq→eq o.order_status expired over in
    subst (λ v. Change cfg r (reopened v r)) same (Change.reopens r (ground arith))

module _ {p : Platform} where
  -- The two ends of an update that names the version it read.
  pub versioned_update_cases :
      (change : Order p.Float → Order p.Float) (h : OrderStatusHistory) (o : Order p.Float)
      (w : World p)
      → ((e : Exception) × (versioned_update change h o w ≡ (err e, w)))
        ⊎ ((r : Order p.Float) × (find w.orders o.id ≡ some r)
            × (r.version ≡ o.version)
            × ((change r).deleted_at ≡ none)
            × (versioned_update change h o w ≡ (ok (change r), save_change (change r) h w)))
  unfolding versioned_update
  versioned_update_cases change h o w = elim (Option-cases (find w.orders o.id)) [
    | inl e ↦ inl (conflict, ground arith)
    | inr (r, e) ↦ elim (Bool-cases (r.version == o.version)) [
      | inl same ↦ elim (Bool-cases (is_known (change r).deleted_at)) [
        | inl gone ↦ inl (not_found, ground arith)
        | inr here ↦ inr (r, e, ground arith, ground arith, ground arith)
      ]
      | inr moved ↦ inl (conflict, ground arith)
    ]
  ]

  -- If the row has gone through any changes of the life cycle since it was read, and the transaction of
  -- `updateStatus` succeeds, then the row was still as it was read and is not deleted, and the new state
  -- is written with the next version and a record: no other handler's change is lost.
  pub commit_status_current :
      (cfg : DispatchConfig) (new : OrderStatus) (user : JwtUser) (o r s : Order p.Float)
      (w : World p)
      → find w.orders o.id ≡ some r
      → Changes cfg o r
      → (commit_status new user o w).0 ≡ ok s
      → (r ≡ record o { deleted_at = none })
        × ((commit_status new user o w).1
            ≡ save_change
                (record o { deleted_at = none; order_status = new; version = o.version + 1 })
                (history_row o.id o.order_status new (actor user.user_id))
                w)
  unfolding commit_status
  commit_status_current cfg new user o r s w found cs done = ground (arith, same_version cfg o r cs)

  -- If the row has gone through changes of the life cycle since it was read, and they changed more than
  -- the mark of deletion, then the transaction of `updateStatus` is a conflict and nothing is written.
  pub commit_status_conflict :
      (cfg : DispatchConfig) (new : OrderStatus) (user : JwtUser) (o r : Order p.Float)
      (w : World p)
      → find w.orders o.id ≡ some r
      → Changes cfg o r
      → ¬ (r ≡ record o { deleted_at = r.deleted_at })
      → commit_status new user o w ≡ (err conflict, w)
  unfolding commit_status
  commit_status_conflict cfg new user o r w found cs changed =
      ground (arith, same_version cfg o r cs)
