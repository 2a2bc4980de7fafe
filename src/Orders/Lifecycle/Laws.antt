-- ===== src/Orders/Lifecycle/Laws.antt =====
-- What follows from the changes of an order (src/orders/orders.service.ts,
-- src/dispatch/dispatch.service.ts).
use logistics_dispatch.Common.{
  [], arith, false, includes-append, inl, inr, ok, refl, some, sym, to_set, true, ℕ, ◌+◌, ◌<◌, ◌∙◌,
  ◌∷◌, ◌≡◌, ◌⊎◌,
}
use logistics_dispatch.Dispatch.Answers.{arriving, taken_back}
use logistics_dispatch.Dispatch.Assign.{assigned, expired_order}
use logistics_dispatch.Dispatch.Candidates.{non_empty}
use logistics_dispatch.Dispatch.Config.{DispatchConfig}
use logistics_dispatch.Orders.Entity.{Order}
use logistics_dispatch.Orders.Lifecycle.{
  Change, Changes, IsSound, Reaches, accepts, deletes, gives_up, is_final, lifecycle, offers,
  reopens, requests, takes_back, then_change, unchanged,
}
use logistics_dispatch.Orders.Requests.{reopened, with_status}
use logistics_dispatch.Orders.Rules.{validate_actor, validate_transition}
use logistics_dispatch.Orders.Status.{
  OrderStatus, driver_assigned, expired, has_status, order_transitions, pending,
}
use logistics_dispatch.System.{step}
use logistics_dispatch.Users.Entity.{JwtUser}
use mathlib.Core.Path.{subst}

-- A request that both checks admit follows the table of transitions, and leaves no final state.
pub validate_transition_table :
    (current new : OrderStatus)
    → validate_transition current new ≡ ok tt
    → has_status (order_transitions current) new ≡ true
unfolding validate_transition
validate_transition_table current new h = ground arith

pub table-lifecycle :
    (current new : OrderStatus)
    → has_status (order_transitions current) new ≡ true
    → has_status (lifecycle current) new ≡ true
table-lifecycle pending new h = ground arith
table-lifecycle current new h = ground arith

final-lifecycle : (s t : OrderStatus) → is_final s ≡ true → has_status (lifecycle s) t ≡ false
final-lifecycle pending t h = ground arith
final-lifecycle s t h = ground arith

pub validate_actor_new :
    {Float : Type 0} (o : Order Float) (new : OrderStatus) (user : JwtUser)
    → validate_actor o new user ≡ ok tt
    → has_status (driver_assigned ∷ expired ∷ []) new ≡ false
unfolding validate_actor
validate_actor_new o new user h = ground arith

module _ {Float : Type 0} (cfg : DispatchConfig) where
  -- Every change that a handler makes to an order moves its state to one that the life cycle has after
  -- it, or leaves the state as it is.
  pub Change-lifecycle :
      {o r : Order Float}
      → Change cfg o r
      → (has_status (lifecycle o.order_status) r.order_status ≡ true)
        ⊎ (r.order_status ≡ o.order_status)
  unfolding assigned expired_order taken_back arriving with_status reopened
  Change-lifecycle (offers o d h k) = inl (rw h refl)
  Change-lifecycle (gives_up o h) = inl (rw h refl)
  Change-lifecycle (takes_back o d ids h k e) = inl (ground arith)
  Change-lifecycle (accepts o d h k) = inl (rw h refl)
  Change-lifecycle (requests o new user h k) =
      inl (table-lifecycle o.order_status new (validate_transition_table o.order_status new k))
  Change-lifecycle (reopens o h) = inl (rw h refl)
  Change-lifecycle (deletes o now h) = inr refl

  pub Changes-Reaches :
      {o r : Order Float} → Changes cfg o r → Reaches o.order_status r.order_status
  Changes-Reaches unchanged = Reaches.stays_put
  Changes-Reaches {o} (then_change {r} {s} cs c) = elim (Change-lifecycle c) [
    | inl step ↦ Reaches.then_moves (Changes-Reaches cs) step
    | inr same ↦ subst (Reaches o.order_status) (sym same) (Changes-Reaches cs)
  ]

  -- Each change but a soft deletion raises the version by one, and a soft deletion changes nothing
  -- else.
  pub Change-version :
      {o r : Order Float}
      → Change cfg o r
      → (r.version ≡ o.version + 1) ⊎ ((now : ℕ) × (r ≡ record o { deleted_at = some now }))
  unfolding assigned expired_order taken_back arriving with_status reopened
  Change-version (offers o d h k) = inl refl
  Change-version (gives_up o h) = inl refl
  Change-version (takes_back o d ids h k e) = inl refl
  Change-version (accepts o d h k) = inl refl
  Change-version (requests o new user h k) = inl refl
  Change-version (reopens o h) = inl refl
  Change-version (deletes o now h) = inr (now, refl)

  -- Every change keeps the row sound.
  pub Change-IsSound : {o r : Order Float} → Change cfg o r → IsSound o → IsSound r
  unfolding assigned expired_order taken_back arriving with_status reopened validate_transition
  Change-IsSound (offers o d h k) s =
      ground (arith, includes-append (to_set (non_empty o.attempted_driver_ids)) (d ∷ []) d)
  Change-IsSound (gives_up o h) s = ground arith
  Change-IsSound (takes_back o d ids h k e) s = ground arith
  Change-IsSound (accepts o d h k) s = ground arith
  Change-IsSound (requests o new user h k) s =
      ground
        (arith, validate_actor_new o new user h, validate_transition_table o.order_status new k)
  Change-IsSound (reopens o h) s = ground arith
  Change-IsSound (deletes o now h) s = ground arith

  pub Change-final :
      {o r : Order Float}
      → Change cfg o r
      → is_final o.order_status ≡ true
      → r.order_status ≡ o.order_status
  Change-final {o} {r} c h =
      ground (arith, Change-lifecycle c, final-lifecycle o.order_status r.order_status h)

  pub Changes-final :
      {o r : Order Float}
      → Changes cfg o r
      → is_final o.order_status ≡ true
      → r.order_status ≡ o.order_status
  Changes-final unchanged h = refl
  Changes-final (then_change {r} cs c) h =
      let same = Changes-final cs h in Change-final c (rw same h) ∙ same

  -- The versions only grow, and where the version is the same so is the row, but for a soft deletion.
  pub Changes-version :
      {o r : Order Float}
      → Changes cfg o r
      → (o.version < r.version) ⊎ (r ≡ record o { deleted_at = r.deleted_at })
  Changes-version unchanged = inr refl
  Changes-version {o} (then_change {r} {s} cs c) =
      later o r s (Changes-version cs) (Change-version c)
    where
      later :
          (o r s : Order Float)
          → (o.version < r.version) ⊎ (r ≡ record o { deleted_at = r.deleted_at })
          → (s.version ≡ r.version + 1) ⊎ ((now : ℕ) × (s ≡ record r { deleted_at = some now }))
          → (o.version < s.version) ⊎ (s ≡ record o { deleted_at = s.deleted_at })
      later o r s a b = ground arith

  pub Changes-IsSound : {o r : Order Float} → Changes cfg o r → IsSound o → IsSound r
  Changes-IsSound unchanged s = s
  Changes-IsSound (then_change cs c) s = Change-IsSound c (Changes-IsSound cs s)

  pub Changes-trans : {o r s : Order Float} → Changes cfg o r → Changes cfg r s → Changes cfg o s
  Changes-trans first unchanged = first
  Changes-trans first (then_change later c) = then_change (Changes-trans first later) c
