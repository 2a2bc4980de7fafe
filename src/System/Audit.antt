-- ===== src/System/Audit.antt =====
-- The table of the histories (order_status_histories, src/orders/entities) against the table of the
-- orders.
use logistics_dispatch.Common.{
  List, Option, [], arith, if◌then◌else◌, inl, inr, none, refl, some, sym, ℕ, ◌==◌, ◌∷◌, ◌≡◌,
}
use logistics_dispatch.Dispatch.Config.{DispatchConfig}
use logistics_dispatch.Orders.Create.{new_order}
use logistics_dispatch.Orders.Entity.{Order, OrderStatusHistory}
use logistics_dispatch.Orders.Lifecycle.Tables.{IsKeyed, OneChange, SameBooks}
use logistics_dispatch.Orders.Status.{OrderStatus}
use logistics_dispatch.Platform.{Platform, Table, find, find-put, put}
use logistics_dispatch.System.{Event, run, step}
use logistics_dispatch.System.History.{AllFresh, IsFresh}
use logistics_dispatch.System.Invariant.{Inv, Inv-IsKeyed, step-Inv}
use logistics_dispatch.System.Orders.{step-OneChange}
use logistics_dispatch.World.{World}
use mathlib.Core.Path.{subst}

-- The state that was recorded last for an order.
unfoldable pub last_status : ℕ → List OrderStatusHistory → Option OrderStatus
last_status k [] = none
last_status k (h ∷ hs) =
    let rest = last_status k hs in if h.order_id == k then some h.new_status else rest

-- Each row of the history goes on from the state that the row before it recorded.
abbrev pub IsChain : List OrderStatusHistory → Type 0
IsChain [] = Unit
IsChain (h ∷ hs) = (h.previous_status ≡ last_status h.order_id hs) × IsChain hs

-- The state of an optional row.
unfoldable pub status_of : {Float : Type 0} → Option (Order Float) → Option OrderStatus
status_of none = none
status_of (some o) = some o.order_status

pub record IsAudited {p : Platform} (w : World p) : Type 0 where
  pub recorded : (k : ℕ) → last_status k w.history ≡ status_of (find w.orders k)
  pub chained : IsChain w.history

module _ {p : Platform} where
  -- A row that is saved together with its record.
  save-recorded :
      (t : Table p (Order p.Float)) (hs : List OrderStatusHistory) (r : Order p.Float)
      (h : OrderStatusHistory)
      → h.order_id ≡ r.id
      → h.new_status ≡ r.order_status
      → ((k : ℕ) → last_status k hs ≡ status_of (find t k))
      → (k : ℕ) → last_status k (h ∷ hs) ≡ status_of (find (put t r.id r) k)
  unfolding last_status status_of
  save-recorded t hs r h same new all k = ground (arith, find-put t r.id k r, all k)

  SameBooks-IsAudited : {w w' : World p} → SameBooks w w' → IsAudited w → IsAudited w'
  SameBooks-IsAudited {w} (a, b) v = record {
    recorded = λ k. rw (a, b) (v.recorded k);
    chained = rw b v.chained;
  }

  module _ (cfg : DispatchConfig) where
    OneChange-IsAudited :
        (w w' : World p) → IsKeyed w → OneChange cfg w w' → IsAudited w → IsAudited w'
    unfolding status_of
    OneChange-IsAudited w w' keyed (inl same) v = SameBooks-IsAudited same v
    OneChange-IsAudited w w' keyed (inr (k, o, r, found, same, c, a, inl (who, b))) v = record {
      recorded = λ j. rw (a, b) (save-recorded w.orders w.history r _ (sym same) refl v.recorded j);
      chained = rw b (ground (arith, v.recorded o.id, keyed.order_ids k o found), v.chained);
    }
    OneChange-IsAudited w w' keyed (inr (k, o, r, found, same, c, a, inr (e, b))) v = record {
      recorded = λ j.
          rw (a, b)
            (ground (arith, find-put w.orders r.id j r, v.recorded j, keyed.order_ids k o found));
      chained = rw b v.chained;
    }

    pub step-IsAudited :
        (e : Event p) (w : World p) → Inv w → IsFresh e w → IsAudited w → IsAudited (step cfg e w)
    unfolding new_order status_of
    step-IsAudited e w v fresh a = elim (step-OneChange cfg e w (Inv-IsKeyed v)) [
      | inl one ↦ OneChange-IsAudited w (step cfg e w) (Inv-IsKeyed v) one a
      | inr (dto, c, key, k, b, now, made, (o, h)) ↦
          let free : find w.orders k ≡ none = subst (λ x. IsFresh x w) made fresh in
          record {
            recorded = λ j.
                rw (o, h)
                  (save-recorded w.orders w.history (new_order p dto c k now) _ refl refl a.recorded
                    j);
            chained = rw h (ground (arith, a.recorded k), a.chained);
          }
    ]

    -- If the invariant holds, each creation draws an id that is new, and the history agrees with the
    -- orders, then it agrees after any sequence of events: for every id the state that was recorded last
    -- is that of the order, an id with no order has no record, and each record goes on from the state of
    -- the one before it.
    pub run-IsAudited :
        (es : List (Event p)) (w : World p)
        → Inv w
        → AllFresh cfg es w
        → IsAudited w
        → IsAudited (run cfg es w)
    unfolding run
    run-IsAudited [] w v fresh a = a
    run-IsAudited (e ∷ es) w v fresh a =
        run-IsAudited es (step cfg e w) (step-Inv cfg e w v) fresh.1
          (step-IsAudited e w v fresh.0 a)
