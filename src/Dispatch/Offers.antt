-- ===== src/Dispatch/Offers.antt =====
-- Which driver an order is offered to (src/dispatch/dispatch.service.ts, `assignDriverWithLock`).
use logistics_dispatch.Common.{
  All, Bool, Bool-cases, List, Option-cases, [], ap, arith, false, includes, inl, inr, is_known,
  none, not, refl, some, true, ℕ, ◌++◌, ◌||◌, ◌∷◌, ◌≡◌,
}
use logistics_dispatch.Dispatch.Assign.{lock_driver, pick_driver}
use logistics_dispatch.Drivers.Entity.{Driver, VehincleType, vehincle_eq→eq}
use logistics_dispatch.Orders.Lifecycle.Tables.{IsKeyed}
use logistics_dispatch.Platform.{Platform, find}
use logistics_dispatch.World.{World}

module _ {p : Platform} (free : ℕ → Bool) where
  -- If the rows stand under their ids, the driver who is picked has not been tried, is not locked, is
  -- online and not suspended, drives the right vehicle, and is as the table has it.
  pub pick_driver_fits :
      (tried : List ℕ) (v : VehincleType) (w : World p) (cs : List (Driver p.Float))
      (d : Driver p.Float)
      → IsKeyed w
      → pick_driver free tried v w cs ≡ some d
      → (includes tried d.id ≡ false)
        × (free d.id ≡ true)
        × (d.online_status ≡ true)
        × (d.is_suspended ≡ false)
        × (d.vehincle_type ≡ v)
        × (find w.drivers d.id ≡ some d)
  unfolding pick_driver
  pick_driver_fits tried v w [] d keyed h = cc
  pick_driver_fits tried v w (c ∷ cs) d keyed h = elim (Option-cases (find w.drivers c.id)) [
    | inl e ↦ pick_driver_fits tried v w cs d keyed (ground arith)
    | inr (x, e) ↦ ground (
      arith,
      pick_driver_fits tried v w cs d keyed,
      keyed.driver_ids c.id x e,
      vehincle_eq→eq x.vehincle_type v,
    )
  ]

  -- The loop goes on past this candidate: it was tried before, or its row does not fit or is locked.
  abbrev pub passed_over : List ℕ → VehincleType → World p → Driver p.Float → Bool
  passed_over tried v w c = includes tried c.id || not (is_known (lock_driver free v w c.id))

  -- If a driver is picked, it is the row of a candidate whom the loop does not pass over, and every
  -- candidate before was passed over: tried before, or its row is locked or does not fit.
  pub pick_driver_first :
      (tried : List ℕ) (v : VehincleType) (w : World p) (cs : List (Driver p.Float))
      (d : Driver p.Float)
      → pick_driver free tried v w cs ≡ some d
      → (before : List (Driver p.Float)) × (c : Driver p.Float) × (after : List (Driver p.Float))
        × (cs ≡ before ++ c ∷ after)
        × All (λ b. passed_over tried v w b ≡ true) before
        × (passed_over tried v w c ≡ false)
        × (lock_driver free v w c.id ≡ some d)
  unfolding pick_driver
  pick_driver_first tried v w [] d h = absurd (cc)
  pick_driver_first tried v w (c ∷ cs) d h = elim (Bool-cases (passed_over tried v w c)) [
    | inl past ↦
        let (before, x, after, e, all, fits, locks) =
          pick_driver_first tried v w cs d (ground arith) in
        (c ∷ before, x, after, ap (◌∷◌ c) e, (past, all), fits, locks)
    | inr here ↦ ([], c, cs, refl, tt, here, ground arith)
  ]

  -- Where no driver is picked, every candidate was passed over.
  pub pick_driver-none :
      (tried : List ℕ) (v : VehincleType) (w : World p) (cs : List (Driver p.Float))
      → pick_driver free tried v w cs ≡ none
      → All (λ b. passed_over tried v w b ≡ true) cs
  unfolding pick_driver
  pick_driver-none tried v w [] h = tt
  pick_driver-none tried v w (c ∷ cs) h = ground (arith, pick_driver-none tried v w cs)
