-- ===== src/Orders/Lifecycle/Tables.antt =====
-- The table of orders between two states: each row is as it was, or has made one change of its life
-- cycle.
use logistics_dispatch.Common.{
  ==→eq, Bool-cases, Option, arith, inl, inr, none, refl, some, ℕ, ◌==◌, ◌∙◌, ◌∷◌, ◌≡◌, ◌⊎◌,
}
use logistics_dispatch.Dispatch.Config.{DispatchConfig}
use logistics_dispatch.Drivers.Entity.{Driver}
use logistics_dispatch.Orders.Entity.{Actor, Order}
use logistics_dispatch.Orders.Lifecycle.{Change}
use logistics_dispatch.Platform.{Platform, find, find-put, put}
use logistics_dispatch.World.{World, find_order, history_row}

-- Every row stands under its own id.
pub record IsKeyed {p : Platform} (w : World p) : Type 0 where
  pub order_ids : (k : ℕ) (o : Order p.Float) → find w.orders k ≡ some o → o.id ≡ k
  pub driver_ids : (k : ℕ) (d : Driver p.Float) → find w.drivers k ≡ some d → d.id ≡ k

abbrev pub RowStep :
    {Float : Type 0} → DispatchConfig → Option (Order Float) → Option (Order Float) → Type 0
RowStep {Float} cfg a b =
    (b ≡ a) ⊎ ((o : Order Float) × (r : Order Float) × (a ≡ some o) × (b ≡ some r) × Change cfg o r)

module _ {p : Platform} where
  -- What a query that skips deleted rows has found is a row.
  pub find_order-find :
      (k : ℕ) (w : World p) {o : Order p.Float}
      → find_order k w ≡ some o
      → (find w.orders k ≡ some o) × (o.deleted_at ≡ none)
  find_order-find k w h = ground arith

  -- A row of the history is written with each change, but for a soft deletion, which leaves the state.
  abbrev pub Recorded : Order p.Float → Order p.Float → World p → World p → Type 0
  Recorded o r w w' =
      ((who : Actor) × (w'.history
          ≡ history_row o.id o.order_status r.order_status who ∷ w.history))
      ⊎ ((r.order_status ≡ o.order_status) × (w'.history ≡ w.history))

  abbrev pub SameBooks : World p → World p → Type 0
  SameBooks w w' = (w'.orders ≡ w.orders) × (w'.history ≡ w.history)

  -- A handler that changes one order at most: it leaves the table and the history alone, or saves a row
  -- that it found after one change, and records it.
  abbrev pub OneChange : DispatchConfig → World p → World p → Type 0
  OneChange cfg w w' =
      SameBooks w w'
      ⊎ ((k : ℕ) × (o : Order p.Float) × (r : Order p.Float) × (find w.orders k ≡ some o)
          × (r.id ≡ o.id)
          × Change cfg o r
          × (w'.orders ≡ put w.orders r.id r)
          × Recorded o r w w')

  pub OneChange-RowStep :
      (cfg : DispatchConfig) (w w' : World p)
      → IsKeyed w
      → OneChange cfg w w'
      → (j : ℕ) → RowStep cfg (find w.orders j) (find w'.orders j)
  OneChange-RowStep cfg w w' keyed (inl (e, _)) j = inl (rw e refl)
  OneChange-RowStep cfg w w' keyed (inr (k, o, r, found, same, c, e, _)) j =
      elim (Bool-cases (r.id == j)) [
        | inl hit ↦ inr (
          o,
          r,
          ground (arith, keyed.order_ids k o found, ==→eq r.id j hit),
          rw (e, find-put w.orders r.id j r, hit) refl,
          c,
        )
        | inr miss ↦ inl (rw (e, find-put w.orders r.id j r, miss) refl)
      ]

  -- What a handler does besides leaves the change as it is.
  pub OneChange-SameBooks :
      (cfg : DispatchConfig) (w w1 w2 : World p)
      → OneChange cfg w w1
      → SameBooks w1 w2
      → OneChange cfg w w2
  OneChange-SameBooks cfg w w1 w2 (inl (a, b)) (c, d) = inl (c ∙ a, d ∙ b)
  OneChange-SameBooks cfg w w1 w2 (inr (k, o, r, found, same, ch, a, inl (who, b))) (c, d) =
      inr (k, o, r, found, same, ch, c ∙ a, inl (who, d ∙ b))
  OneChange-SameBooks cfg w w1 w2 (inr (k, o, r, found, same, ch, a, inr (s, b))) (c, d) =
      inr (k, o, r, found, same, ch, c ∙ a, inr (s, d ∙ b))
