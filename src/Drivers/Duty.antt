-- ===== src/Drivers/Duty.antt =====
-- Who is suspended is not online (src/drivers/drivers.service.ts).
use logistics_dispatch.Common.{
  Bool-cases, Option-cases, arith, false, inl, inr, not, some, true, ℕ, ◌&&◌, ◌≡◌,
}
use logistics_dispatch.Drivers.Entity.{Driver}
use logistics_dispatch.Drivers.Service.{
  availability_from, save_driver, suspension_toggled, toggle_suspension, toggled,
}
use logistics_dispatch.Platform.{Platform, find, find-put, put}
use logistics_dispatch.World.{World}

-- No driver is suspended and online.
abbrev pub IsOffDuty : {Float : Type 0} → Driver Float → Type 0
IsOffDuty d = d.is_suspended ≡ true → d.online_status ≡ false

abbrev pub AllOffDuty : {p : Platform} → World p → Type 0
AllOffDuty {p} w = (k : ℕ) (d : Driver p.Float) → find w.drivers k ≡ some d → IsOffDuty d

module _ {p : Platform} where
  -- Saving one row keeps what held of all rows, if it holds of that one.
  save-AllOffDuty :
      (d : Driver p.Float) (w : World p) → IsOffDuty d → AllOffDuty w → AllOffDuty (save_driver d w)
  save-AllOffDuty d w h all k x found = ground (arith, find-put w.drivers d.id k d, all k x)

  -- If no driver is suspended and online, then none is after `toggleSuspension` of any driver.
  suspension-AllOffDuty :
      (k : ℕ) (w : World p) → AllOffDuty w → AllOffDuty (toggle_suspension k w).1
  unfolding toggle_suspension
  suspension-AllOffDuty k w all = elim (Option-cases (find w.drivers k)) [
    | inl e ↦ rw (e, toggle_suspension) all
    | inr (d, e) ↦
        rw (e, toggle_suspension)
          (save-AllOffDuty (suspension_toggled d) w (ground (arith, all k d e)) all)
  ]

  -- The two switches keep every suspended driver offline, where the row that is switched is as it was
  -- read.
  availability-AllOffDuty :
      (d : Driver p.Float) (w : World p)
      → find w.drivers d.id ≡ some d
      → AllOffDuty w
      → AllOffDuty (availability_from d w).1
  unfolding availability_from
  availability-AllOffDuty d w found all =
      elim (Bool-cases (d.is_suspended && not d.online_status)) [
        | inl stop ↦ rw stop all
        | inr go ↦ rw go (save-AllOffDuty (toggled d) w (ground (arith, all d.id d found)) all)
      ]

  -- `toggleAvailability` reads with no lock: if it has read a driver who is offline and not suspended,
  -- and `toggleSuspension` suspends the driver before it saves, then its save undoes the suspension and
  -- puts the driver online.
  pub availability_undoes_suspension :
      (d : Driver p.Float) (w : World p)
      → find w.drivers d.id ≡ some d
      → d.is_suspended ≡ false
      → d.online_status ≡ false
      → let w' = (toggle_suspension d.id w).1 in
        let w'' = (availability_from d w').1 in
        (find w'.drivers d.id ≡ some (record d { is_suspended = true }))
        × (find w''.drivers d.id ≡ some (record d { online_status = true }))
  unfolding toggle_suspension availability_from
  availability_undoes_suspension d w found free off = ground (
    arith,
    find-put w.drivers d.id d.id (suspension_toggled d),
    find-put (put w.drivers d.id (suspension_toggled d)) d.id d.id (toggled d),
  )
