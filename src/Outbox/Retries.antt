-- ===== src/Outbox/Retries.antt =====
-- How often the worker of src/outbox/outbox-worker.service.ts tries an event that it cannot deliver.
use logistics_dispatch.Common.{
  ==_refl, All, All-weak, Bool, Bool-cases, List, [], arith, false, if◌then◌else◌, inl, inr, leb,
  length, ltb, refl, select, select-All, take, ℕ, ◌&&◌, ◌+◌, ◌==◌, ◌∷◌, ◌≡◌,
}
use logistics_dispatch.Outbox.Delivery.{
  IsSoundEvent, attempt-outbox, marked_failed-IsSoundEvent, outcome, save_event-All, take-All,
}
use logistics_dispatch.Outbox.Entity.{
  OutboxBody, OutboxEvent, OutboxStatus, dispatch_trigger, malformed_trigger, unknown_event,
}
use logistics_dispatch.Outbox.Worker.{
  batch_size, handle_row, handle_rows, is_waiting, marked_failed, marked_processed,
  max_outbox_attempts, next_batch, process_outbox, save_event,
}
use logistics_dispatch.Platform.{Platform, assign_driver}
use logistics_dispatch.World.{World}

abbrev Differs : OutboxEvent → OutboxEvent → Type 0
Differs e x = (x.id == e.id) ≡ false

outcome-id :
    (p : Platform) (reachable : ℕ → Bool) (now : ℕ) (x : OutboxEvent) (b : OutboxBody)
    → (outcome p reachable now x b).id ≡ x.id
unfolding marked_failed marked_processed
outcome-id p reachable now x (dispatch_trigger k) = ground arith
outcome-id p reachable now x malformed_trigger = refl
outcome-id p reachable now x unknown_event = refl

waiting_Differs :
    (n : ℕ) (e : OutboxEvent) (rest : List OutboxEvent)
    → All (Differs e) rest
    → All (Differs e) (take n (select (λ x. is_waiting x.status) rest))
waiting_Differs n e rest others = take-All (Differs e) n _ (
    All-weak _ (Differs e) _ (λ x h. h.0)
      (select-All (Differs e) (λ x. is_waiting x.status) rest others))

module _ {p : Platform} where
  -- The oldest event of the outbox, whose id no other event has.
  abbrev pub IsOldest : World p → OutboxEvent → Type 0
  IsOldest w e =
      (rest : List OutboxEvent) × (w.outbox ≡ e ∷ rest) × All (λ x. (x.id == e.id) ≡ false) rest

  -- One round after the other: each with what it can reach, and its time.
  abbrev pub rounds : List ((ℕ → Bool) × ℕ) → World p → World p
  rounds [] w = w
  rounds ((reachable, now) ∷ rs) w = rounds rs (process_outbox reachable now w)

  batch-waiting :
      (e : OutboxEvent) (rest : List OutboxEvent) (w : World p)
      → e.status ≡ OutboxStatus.pending
      → w.outbox ≡ e ∷ rest
      → next_batch w ≡ e ∷ take 9 (select (λ x. is_waiting x.status) rest)
  unfolding next_batch select
  batch-waiting e rest w waits shape = ground arith

  batch-failed :
      (e : OutboxEvent) (rest : List OutboxEvent) (w : World p)
      → e.status ≡ OutboxStatus.failed
      → w.outbox ≡ e ∷ rest
      → next_batch w ≡ take batch_size (select (λ x. is_waiting x.status) rest)
  unfolding next_batch select
  batch-failed e rest w stopped shape = ground arith

  module _ (reachable : ℕ → Bool) (now : ℕ) where
    other_row :
        (e x : OutboxEvent) (w : World p)
        → Differs e x
        → IsOldest w e
        → IsOldest (handle_row reachable now x w) e
    unfolding handle_row save_event
    other_row e x w differs (rest, shape, others) =
        let y = outcome p reachable now x x.body in
        let same = outcome-id p reachable now x x.body in
        (
          save_event y rest,
          ground (arith, attempt-outbox reachable now x x.body w),
          save_event-All (Differs e) y rest (rw same differs) others,
        )

    other_rows :
        (e : OutboxEvent) (xs : List OutboxEvent) (w : World p)
        → All (Differs e) xs
        → IsOldest w e
        → IsOldest (handle_rows reachable now xs w) e
    unfolding handle_rows
    other_rows e [] w all h = h
    other_rows e (x ∷ xs) w all h =
        other_rows e xs (handle_row reachable now x w) all.1 (other_row e x w all.0 h)

    failed_row :
        (e : OutboxEvent) (k : ℕ) (w : World p)
        → e.body ≡ dispatch_trigger k
        → (reachable e.id && p.takes_id (assign_driver k)) ≡ false
        → IsOldest w e
        → IsOldest (handle_row reachable now e w) (marked_failed e)
    unfolding handle_row save_event marked_failed
    failed_row e k w body refused (rest, shape, others) =
        (rest, ground (arith, attempt-outbox reachable now e e.body w, ==_refl e.id), others)

    failing_round :
        (e : OutboxEvent) (k : ℕ) (w : World p)
        → e.status ≡ OutboxStatus.pending
        → e.body ≡ dispatch_trigger k
        → (reachable e.id && p.takes_id (assign_driver k)) ≡ false
        → IsOldest w e
        → IsOldest (process_outbox reachable now w) (marked_failed e)
    unfolding process_outbox handle_rows marked_failed
    failing_round e k w waits body refused (rest, shape, others) =
        rw (batch-waiting e rest w waits shape) (
          other_rows (marked_failed e) (take 9 (select (λ x. is_waiting x.status) rest))
            (handle_row reachable now e w) (waiting_Differs 9 e rest others)
            (failed_row e k w body refused (rest, shape, others)))

    idle_round :
        (e : OutboxEvent) (w : World p)
        → e.status ≡ OutboxStatus.failed
        → IsOldest w e
        → IsOldest (process_outbox reachable now w) e
    unfolding process_outbox
    idle_round e w stopped (rest, shape, others) = rw (batch-failed e rest w stopped shape) (
        other_rows e (take batch_size (select (λ x. is_waiting x.status) rest)) w
          (waiting_Differs batch_size e rest others) (rest, shape, others))

  idle_rounds :
      (rs : List ((ℕ → Bool) × ℕ)) (e : OutboxEvent) (w : World p)
      → e.status ≡ OutboxStatus.failed
      → IsOldest w e
      → IsOldest (rounds rs w) e
  idle_rounds [] e w stopped h = h
  idle_rounds ((reachable, now) ∷ rs) e w stopped h =
      idle_rounds rs e (process_outbox reachable now w) stopped
        (idle_round reachable now e w stopped h)

  -- If the oldest event of the outbox is a dispatch trigger that waits, is sound and has an id of its own,
  -- and in every round the queue cannot be reached or refuses the id of the order's job, then after any
  -- number of rounds it is still the oldest event, with one more failure for each round up to five in
  -- all; it waits with fewer than five, and from the fifth on it has failed and is not tried again.
  pub retries_end :
      (rs : List ((ℕ → Bool) × ℕ)) (e : OutboxEvent) (k : ℕ) (w : World p)
      → IsOldest w e
      → IsSoundEvent e
      → e.status ≡ OutboxStatus.pending
      → e.body ≡ dispatch_trigger k
      → All (λ r. (r.0 e.id && p.takes_id (assign_driver k)) ≡ false) rs
      → let tried = length rs + e.attempts in
        (x : OutboxEvent) × IsOldest (rounds rs w) x
        × (x.id ≡ e.id)
        × (x.attempts ≡ (if ltb tried max_outbox_attempts then tried else max_outbox_attempts))
        × (x.status
            ≡ (if ltb tried max_outbox_attempts then OutboxStatus.pending else OutboxStatus.failed))
  unfolding marked_failed
  retries_end [] e k w h sound waits body all =
      (e, h, refl, ground (arith, sound.waits_few waits), ground (arith, sound.waits_few waits))
  retries_end ((reachable, now) ∷ rs) e k w h sound waits body all =
      let next = failing_round reachable now e k w waits body all.0 h in
      elim (Bool-cases (leb max_outbox_attempts (e.attempts + 1))) [
        | inl spent ↦ (
          marked_failed e,
          idle_rounds rs (marked_failed e) (process_outbox reachable now w) (ground arith) next,
          refl,
          ground (arith, sound.waits_few waits),
          ground (arith, sound.waits_few waits),
        )
        | inr more ↦
            let (x, oldest, same, tried, state) =
              retries_end rs (marked_failed e) k (process_outbox reachable now w) next
                (marked_failed-IsSoundEvent e (sound, ground arith)) (ground arith) body all.1 in
            (x, oldest, same, ground arith, ground arith)
      ]
