-- ===== src/Orders/Refinement.antt =====
-- The requests of src/orders/orders.service.ts refine the life cycle of an order, also where another
-- handler has changed the row since it was read.
use logistics_dispatch.Common.{
  Bool-cases, Option-cases, Result, [], arith, err, inl, inr, ok, refl, some, true, ℕ, ◌∷◌, ◌≡◌,
}
use logistics_dispatch.Dispatch.Config.{DispatchConfig}
use logistics_dispatch.Orders.Entity.{Actor, Order, OrderStatusHistory, actor}
use logistics_dispatch.Orders.Lifecycle.{Change, Changes}
use logistics_dispatch.Orders.Lifecycle.Tables.{
  IsKeyed, OneChange, OneChange-SameBooks, SameBooks, find_order-find,
}
use logistics_dispatch.Orders.Requests.{
  after_checks, commit_reopen, commit_status, reassign_from, reassign_order, reopened, respond,
  settle, soft_delete, triggered, update_from, update_status, versioned_update, with_status,
}
use logistics_dispatch.Orders.Rules.{check_request}
use logistics_dispatch.Orders.Status.{
  OrderStatus, driver_arriving, driver_assigned, expired, has_status, in_transit, pending,
  picked_up, status_eq, status_eq→eq,
}
use logistics_dispatch.Orders.Versions.{
  checked_both, checked_same, reopen_same, same_version, versioned_update_cases,
}
use logistics_dispatch.Platform.{Platform, find}
use logistics_dispatch.Users.Entity.{JwtUser}
use logistics_dispatch.World.{World, find_order, history_row}
use mathlib.Core.Path.{subst}

module _ {p : Platform} where
  respond-SameBooks : (x : Result (Order p.Float) × World p) → SameBooks x.1 (respond x).1
  unfolding respond
  respond-SameBooks (ok o, w) = (refl, refl)
  respond-SameBooks (err e, w) = (refl, refl)

  settle-SameBooks :
      (new : OrderStatus) (x : Result (Order p.Float) × World p) → SameBooks x.1 (settle new x).1
  unfolding settle
  settle-SameBooks new (ok o, w) = (ground arith, ground arith)
  settle-SameBooks new (err e, w) = (refl, refl)

  triggered-SameBooks : (x : Result (Order p.Float) × World p) → SameBooks x.1 (triggered x).1
  unfolding triggered
  triggered-SameBooks (ok o, w) = (refl, refl)
  triggered-SameBooks (err e, w) = (refl, refl)

  -- A versioned update makes a change of the row as it is, and records it, if the change and the record
  -- fit whatever has become of the row since it was read.
  versioned_update-OneChange :
      (cfg : DispatchConfig) (change : Order p.Float → Order p.Float) (h : OrderStatusHistory)
      (who : Actor) (o : Order p.Float) (w : World p)
      → ((r : Order p.Float) → (change r).id ≡ r.id)
      → ((r : Order p.Float)
          → find w.orders o.id ≡ some r
          → r.version ≡ o.version
          → (h ≡ history_row r.id r.order_status (change r).order_status who)
            × Change cfg r (change r))
      → OneChange cfg w (versioned_update change h o w).1
  versioned_update-OneChange cfg change h who o w keeps fits =
      elim (versioned_update_cases change h o w) [
        | inl (e, same) ↦ inl (rw same refl, rw same refl)
        | inr (r, found, same, here, e) ↦
            let (recorded, c) = fits r found same in
            rw e (inr (o.id, r, change r, found, keeps r, c, refl, inl (who, rw recorded refl)))
      ]

  module _ (cfg : DispatchConfig) (o : Order p.Float) (w : World p) where
    -- The row that was read has gone through any changes.
    abbrev pub IsStale : Type 0
    IsStale = (r : Order p.Float) → find w.orders o.id ≡ some r → Changes cfg o r

    after_checks-OneChange :
        (new : OrderStatus) (user : JwtUser) (c : Result (Unit {0}))
        → check_request o new user ≡ c
        → IsStale
        → OneChange cfg w (after_checks new user o w c).1
    unfolding after_checks with_status
    after_checks-OneChange new user (err e) h stale = inl (refl, refl)
    after_checks-OneChange new user (ok valid) h stale =
        let (a, t) = checked_both o new user h in
        let x = commit_status new user o w in
        OneChange-SameBooks cfg w (settle new x).1 (respond (settle new x)).1
          (OneChange-SameBooks cfg w x.1 (settle new x).1
            (versioned_update-OneChange cfg (with_status new o.version) _ (actor user.user_id) o w
              (λ r. refl)
              (λ r found same. (
                ground (arith, same_version cfg o r (stale r found)),
                checked_same cfg o r new user (stale r found) same a t,
              )))
            (settle-SameBooks new x))
          (respond-SameBooks (settle new x))

    -- If the row has gone through any changes of the life cycle since `updateStatus` read it, then the
    -- rest of `updateStatus` leaves the orders and the history alone, or makes one change of the life
    -- cycle to the row as it is now, and records it.
    pub update_from-OneChange :
        (new : OrderStatus) (user : JwtUser)
        → IsStale
        → OneChange cfg w (update_from new user o w).1
    unfolding update_from
    update_from-OneChange new user stale =
        after_checks-OneChange new user (check_request o new user) refl stale

    reopened-OneChange :
        (user : JwtUser)
        → status_eq o.order_status expired ≡ true
        → IsStale
        → OneChange cfg w (respond (triggered (commit_reopen user o w))).1
    unfolding commit_reopen reopened
    reopened-OneChange user over stale =
        let x = commit_reopen user o w in
        OneChange-SameBooks cfg w (triggered x).1 (respond (triggered x)).1
          (OneChange-SameBooks cfg w x.1 (triggered x).1
            (versioned_update-OneChange cfg (reopened o.version) _ (actor user.user_id) o w
              (λ r. refl)
              (λ r found same. (
                ground (
                  arith,
                  same_version cfg o r (stale r found),
                  status_eq→eq o.order_status expired over,
                ),
                reopen_same cfg o r (stale r found) same over,
              )))
            (triggered-SameBooks x))
          (respond-SameBooks (triggered x))

    -- A reassignment makes one change of the row as it is now, or none.
    pub reassign_from-OneChange :
        (user : JwtUser) → IsStale → OneChange cfg w (reassign_from user o w).1
    unfolding reassign_from reopened
    reassign_from-OneChange user stale =
        elim (Bool-cases (has_status (pending ∷ expired ∷ []) o.order_status)) [
          | inr busy ↦ inl (rw busy refl, rw busy refl)
          | inl idle ↦ elim (Bool-cases (status_eq o.order_status expired)) [
            | inr waits ↦ inl (rw (idle, waits) refl, rw (idle, waits) refl)
            | inl over ↦ rw (idle, over) (reopened-OneChange user over stale)
          ]
        ]

  -- A row that was just read is not stale.
  just_read :
      (cfg : DispatchConfig) (k : ℕ) (o : Order p.Float) (w : World p)
      → IsKeyed w
      → find_order k w ≡ some o
      → IsStale cfg o w
  just_read cfg k o w keyed found r e =
      let (row, here) = find_order-find k w found in
      let same : o ≡ r = ground (arith, keyed.order_ids k o row) in
      subst (λ x. Changes cfg o x) same Changes.unchanged

  pub update_status-OneChange :
      (cfg : DispatchConfig) (k : ℕ) (new : OrderStatus) (user : JwtUser) (w : World p)
      → IsKeyed w
      → OneChange cfg w (update_status k new user w).1
  unfolding update_status
  update_status-OneChange cfg k new user w keyed = elim (Option-cases (find_order k w)) [
    | inl e ↦ inl (ground arith, ground arith)
    | inr (o, e) ↦
        rw (e, update_status) (update_from-OneChange cfg o w new user (just_read cfg k o w keyed e))
  ]

  pub soft_delete-OneChange :
      (cfg : DispatchConfig) (k now : ℕ) (w : World p) → OneChange cfg w (soft_delete k now w).1
  unfolding soft_delete
  soft_delete-OneChange cfg k now w = elim (Option-cases (find_order k w)) [
    | inl e ↦ inl (ground arith, ground arith)
    | inr (o, e) ↦
        elim (Bool-cases (
          has_status (driver_assigned ∷ driver_arriving ∷ picked_up ∷ in_transit ∷ [])
            o.order_status)) [
              | inl active ↦ inl (ground arith, ground arith)
              | inr idle ↦ inr (
                k,
                o,
                record o { deleted_at = some now },
                (find_order-find k w e).0,
                refl,
                Change.deletes o now idle,
                ground arith,
                inr (refl, ground arith),
              )
            ]
  ]

  pub reassign_order-OneChange :
      (cfg : DispatchConfig) (k : ℕ) (user : JwtUser) (w : World p)
      → IsKeyed w
      → OneChange cfg w (reassign_order k user w).1
  unfolding reassign_order
  reassign_order-OneChange cfg k user w keyed = elim (Option-cases (find_order k w)) [
    | inl e ↦ inl (ground arith, ground arith)
    | inr (o, e) ↦
        rw (e, reassign_order) (reassign_from-OneChange cfg o w user (just_read cfg k o w keyed e))
  ]
