-- ===== src/System/History.antt =====
-- The life of one order through a history of the service.
use logistics_dispatch.Common.{
  ==→eq, Bool-cases, List, [], arith, inl, inr, none, some, true, ℕ, ◌==◌, ◌∙◌, ◌∷◌, ◌≡◌, ◌≤◌,
}
use logistics_dispatch.Dispatch.Config.{DispatchConfig}
use logistics_dispatch.Orders.Create.{new_order}
use logistics_dispatch.Orders.Entity.{Order}
use logistics_dispatch.Orders.Lifecycle.{Change, Changes, Reaches, is_final}
use logistics_dispatch.Orders.Lifecycle.Laws.{
  Changes-Reaches, Changes-final, Changes-trans, Changes-version,
}
use logistics_dispatch.Orders.Lifecycle.Tables.{OneChange-RowStep}
use logistics_dispatch.Paging.{last}
use logistics_dispatch.Platform.{Platform, find, find-put}
use logistics_dispatch.System.{Event, creates, run, step, updates}
use logistics_dispatch.System.Invariant.{Inv, Inv-IsKeyed, step-Inv}
use logistics_dispatch.System.Orders.{step-OneChange}
use logistics_dispatch.World.{World}
use mathlib.Core.Path.{subst}

-- The id that a creation draws is new. Ids are random UUIDs, which the code takes to be new.
abbrev pub IsFresh : {p : Platform} → Event p → World p → Type 0
IsFresh (creates dto c key k b now) w = find w.orders k ≡ none
IsFresh (updates k new user) w = Unit
IsFresh _ w = Unit

abbrev pub AllFresh : {p : Platform} → DispatchConfig → List (Event p) → World p → Type 0
AllFresh cfg [] w = Unit
AllFresh cfg (e ∷ es) w = IsFresh e w × AllFresh cfg es (step cfg e w)

module _ {p : Platform} (cfg : DispatchConfig) where
  -- An order that is in the table stays there, changed by one step of its life cycle at most.
  pub step-Changes :
      (e : Event p) (w : World p) (k : ℕ) (o : Order p.Float)
      → Inv w
      → IsFresh e w
      → find w.orders k ≡ some o
      → (r : Order p.Float) × (find (step cfg e w).orders k ≡ some r) × Changes cfg o r
  step-Changes e w k o v fresh here = elim (step-OneChange cfg e w (Inv-IsKeyed v)) [
    | inl one ↦ elim (OneChange-RowStep cfg w (step cfg e w) (Inv-IsKeyed v) one k) [
      | inl same ↦ (o, same ∙ here, Changes.unchanged)
      | inr (x, r, was, is, c) ↦
          let same : x ≡ o = ground arith in
          (r, is, Changes.then_change Changes.unchanged (subst (λ y. Change cfg y r) same c))
    ]
    | inr (dto, c, key, j, b, now, made, e') ↦
        let free : find w.orders j ≡ none = subst (λ x. IsFresh x w) made fresh in
        elim (Bool-cases (j == k)) [
          | inl hit ↦ absurd (cc (subst (λ i. find w.orders i ≡ none) (==→eq j k hit) free))
          | inr miss ↦ (
            o,
            ground (arith, e'.0, find-put w.orders j k (new_order p dto c j now)),
            Changes.unchanged,
          )
        ]
  ]

  -- If the invariant holds and each creation draws an id that is new, then after any sequence of events
  -- every order that was in the table is still there, and has got to its present row by changes of the
  -- life cycle alone.
  pub run-Changes :
      (es : List (Event p)) (w : World p) (k : ℕ) (o : Order p.Float)
      → Inv w
      → AllFresh cfg es w
      → find w.orders k ≡ some o
      → (r : Order p.Float) × (find (run cfg es w).orders k ≡ some r) × Changes cfg o r
  unfolding run
  run-Changes [] w k o v fresh here = (o, here, Changes.unchanged)
  run-Changes (e ∷ es) w k o v fresh here =
      let (r, there, first) = step-Changes e w k o v fresh.0 here in
      let (s, last, later) = run-Changes es (step cfg e w) k r (step-Inv cfg e w v) fresh.1 there in
      (s, last, Changes-trans cfg first later)

  -- If the invariant holds and each creation draws an id that is new, then after any sequence of events
  -- the state of an order is one that the table of the life cycle reaches, step by step, from the state
  -- that it had.
  pub run-Reaches :
      (es : List (Event p)) (w : World p) (k : ℕ) (o : Order p.Float)
      → Inv w
      → AllFresh cfg es w
      → find w.orders k ≡ some o
      → (r : Order p.Float) × (find (run cfg es w).orders k ≡ some r)
        × Reaches o.order_status r.order_status
  run-Reaches es w k o v fresh here =
      let (r, there, cs) = run-Changes es w k o v fresh here in (r, there, Changes-Reaches cfg cs)

  -- If the invariant holds and each creation draws an id that is new, then an order that was delivered,
  -- was cancelled or has failed is still in that state after any sequence of events, and its version has
  -- not gone back.
  pub run_final :
      (es : List (Event p)) (w : World p) (k : ℕ) (o : Order p.Float)
      → Inv w
      → AllFresh cfg es w
      → find w.orders k ≡ some o
      → is_final o.order_status ≡ true
      → (r : Order p.Float) × (find (run cfg es w).orders k ≡ some r)
        × (r.order_status ≡ o.order_status)
        × (o.version ≤ r.version)
  run_final es w k o v fresh here final =
      let (r, there, cs) = run-Changes es w k o v fresh here in
      (r, there, Changes-final cfg cs final, ground (arith, Changes-version cfg cs))
