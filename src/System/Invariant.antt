-- ===== src/System/Invariant.antt =====
-- What every history of the service keeps.
use logistics_dispatch.Common.{
  ==→eq, Bool-cases, List, [], arith, inl, inr, refl, some, sym, ℕ, ◌==◌, ◌∷◌, ◌≡◌,
}
use logistics_dispatch.Dispatch.Config.{DispatchConfig}
use logistics_dispatch.Drivers.Duty.{IsOffDuty}
use logistics_dispatch.Drivers.Entity.{Driver}
use logistics_dispatch.Orders.Create.{CreateOrderDto, new_order}
use logistics_dispatch.Orders.Entity.{Order}
use logistics_dispatch.Orders.Lifecycle.{IsSound}
use logistics_dispatch.Orders.Lifecycle.Laws.{Change-IsSound}
use logistics_dispatch.Orders.Lifecycle.Tables.{IsKeyed, OneChange}
use logistics_dispatch.Outbox.Delivery.{IsSoundOutbox}
use logistics_dispatch.Platform.{Platform, Table, find, find-put, put}
use logistics_dispatch.System.{Event, run, step}
use logistics_dispatch.System.Drivers.{step-OneDriver}
use logistics_dispatch.System.Orders.{step-OneChange}
use logistics_dispatch.System.Outbox.{step-IsSoundOutbox}
use logistics_dispatch.System.Switches.{OneDriver}
use logistics_dispatch.World.{World}
use mathlib.Core.Path.{subst}

-- A table of sound rows under their ids.
abbrev pub RowsFit : {p : Platform} → Table p (Order p.Float) → Type 0
RowsFit {p} t = (k : ℕ) (o : Order p.Float) → find t k ≡ some o → (o.id ≡ k) × IsSound o

abbrev pub DriversFit : {p : Platform} → Table p (Driver p.Float) → Type 0
DriversFit {p} t = (k : ℕ) (d : Driver p.Float) → find t k ≡ some d → (d.id ≡ k) × IsOffDuty d

-- Rows stand under their ids, orders are sound, no driver is suspended and online, and the events of
-- the outbox are sound.
pub record Inv {p : Platform} (w : World p) : Type 0 where
  pub orders_fit : RowsFit w.orders
  pub drivers_fit : DriversFit w.drivers
  pub outbox_fit : IsSoundOutbox w

new_order-IsSound :
    (p : Platform) (dto : CreateOrderDto p.Float) (c k now : ℕ) → IsSound (new_order p dto c k now)
unfolding new_order
new_order-IsSound p dto c k now = ground arith

new_order-id :
    (p : Platform) (dto : CreateOrderDto p.Float) (c k now : ℕ) → (new_order p dto c k now).id ≡ k
unfolding new_order
new_order-id p dto c k now = refl

module _ {p : Platform} where
  pub Inv-IsKeyed : {w : World p} → Inv w → IsKeyed w
  Inv-IsKeyed v = record {
    order_ids = λ k o found. (v.orders_fit k o found).0;
    driver_ids = λ k d found. (v.drivers_fit k d found).0;
  }

  -- Saving one row keeps what held of all rows by key, if it holds of that one.
  put-fits {ℓ} :
      {V : Type 0} (P : ℕ → V → Type ℓ) (t : Table p V) (k : ℕ) (r : V)
      → P k r
      → ((j : ℕ) (v : V) → find t j ≡ some v → P j v)
      → (j : ℕ) (v : V) → find (put t k r) j ≡ some v
      → P j v
  put-fits P t k r h all j v found = elim (Bool-cases (k == j)) [
    | inl hit ↦
        let same : r ≡ v = ground (arith, find-put t k j r) in
        subst (λ x. P j x) same (subst (λ i. P i r) (==→eq k j hit) h)
    | inr miss ↦ all j v (ground (arith, find-put t k j r))
  ]

  module _ (cfg : DispatchConfig) where
    OneChange-RowsFit : (w w' : World p) → RowsFit w.orders → OneChange cfg w w' → RowsFit w'.orders
    OneChange-RowsFit w w' fit (inl (e, _)) = subst RowsFit (sym e) fit
    OneChange-RowsFit w w' fit (inr (k, o, r, found, same, c, e, _)) = subst RowsFit (sym e) (
        put-fits (λ j x. (x.id ≡ j) × IsSound x) w.orders r.id r
          (refl, Change-IsSound cfg c (fit k o found).1) fit)

    OneDriver-DriversFit :
        (w : World p) (t : Table p (Driver p.Float))
        → DriversFit w.drivers
        → OneDriver w t
        → DriversFit t
    OneDriver-DriversFit w t fit (inl e) = subst DriversFit (sym e) fit
    OneDriver-DriversFit w t fit (inr (inl (d, r, found, same, off, e))) =
        subst DriversFit (sym e) (
          put-fits (λ j x. (x.id ≡ j) × IsOffDuty x) w.drivers d.id r
            (same, off (fit d.id d found).1) fit)
    OneDriver-DriversFit w t fit (inr (inr (r, off, e))) =
        subst DriversFit (sym e)
          (put-fits (λ j x. (x.id ≡ j) × IsOffDuty x) w.drivers r.id r (refl, off) fit)

    step-orders_fit : (e : Event p) (w : World p) → Inv w → RowsFit (step cfg e w).orders
    step-orders_fit e w v = elim (step-OneChange cfg e w (Inv-IsKeyed v)) [
      | inl one ↦ OneChange-RowsFit w (step cfg e w) v.orders_fit one
      | inr (dto, c, key, k, b, now, _, made) ↦ subst RowsFit (sym made.0) (
          put-fits (λ j x. (x.id ≡ j) × IsSound x) w.orders k (new_order p dto c k now)
            (new_order-id p dto c k now, new_order-IsSound p dto c k now) v.orders_fit)
    ]

    -- Every event of the service keeps the invariant.
    pub step-Inv : (e : Event p) (w : World p) → Inv w → Inv (step cfg e w)
    step-Inv e w v = record {
      orders_fit = step-orders_fit e w v;
      drivers_fit =
          OneDriver-DriversFit w (step cfg e w).drivers v.drivers_fit
            (step-OneDriver cfg e w (Inv-IsKeyed v));
      outbox_fit = step-IsSoundOutbox cfg e w v.outbox_fit;
    }

    -- If the invariant holds, it holds after any sequence of events: every row stands under its id, an
    -- order that waits or has expired has no driver, one on its way has one, a driver to whom an order is
    -- offered is noted as tried, no suspended driver is online, and every event of the outbox waits with
    -- fewer than five failures or has failed with exactly five.
    pub run-Inv : (es : List (Event p)) (w : World p) → Inv w → Inv (run cfg es w)
    unfolding run
    run-Inv [] w v = v
    run-Inv (e ∷ es) w v = run-Inv es (step cfg e w) (step-Inv e w v)
