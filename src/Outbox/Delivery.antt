-- ===== src/Outbox/Delivery.antt =====
-- What the worker of src/outbox/outbox-worker.service.ts promises of each event.
use logistics_dispatch.Common.{
  All, Bool, List, [], arith, if◌then◌else◌, refl, select-All, suc, sym, take, true, zero, ℕ, ◌&&◌,
  ◌<◌, ◌∷◌, ◌≡◌,
}
use logistics_dispatch.Outbox.Entity.{
  OutboxBody, OutboxEvent, OutboxStatus, dispatch_trigger, malformed_trigger, unknown_event,
}
use logistics_dispatch.Outbox.Worker.{
  attempt, batch_size, handle_row, handle_rows, is_waiting, marked_failed, marked_processed,
  max_outbox_attempts, next_batch, process_outbox, save_event,
}
use logistics_dispatch.Platform.{Platform, assign_driver}
use logistics_dispatch.World.{World}
use mathlib.Core.Path.{subst}

-- An event waits with fewer than five failures, or has failed with exactly five, or is processed.
pub record IsSoundEvent (e : OutboxEvent) : Type 0 where
  pub waits_few : e.status ≡ OutboxStatus.pending → e.attempts < max_outbox_attempts
  pub failed_many : e.status ≡ OutboxStatus.failed → e.attempts ≡ max_outbox_attempts
  pub failed_noted : 0 < e.attempts → e.has_error ≡ true

pub save_event-All {ℓ} :
    (P : OutboxEvent → Type ℓ) (e : OutboxEvent) (es : List OutboxEvent)
    → P e
    → All P es
    → All P (save_event e es)
unfolding save_event
save_event-All P e [] h all = tt
save_event-All P e (x ∷ xs) h all = ground (arith, save_event-All P e xs h all.1)

pub take-All {ℓ κ} :
    {A : Type ℓ} (P : A → Type κ) (n : ℕ) (xs : List A) → All P xs → All P (take n xs)
take-All P zero xs all = tt
take-All P (suc n) [] all = tt
take-All P (suc n) (x ∷ xs) all = (all.0, take-All P n xs all.1)

abbrev pub IsSoundOutbox : {p : Platform} → World p → Type 0
IsSoundOutbox w = All IsSoundEvent w.outbox

-- What a round reads: events that wait, and that are sound.
abbrev Readable : OutboxEvent → Type 0
Readable e = IsSoundEvent e × (is_waiting e.status ≡ true)

pub marked_failed-IsSoundEvent : (e : OutboxEvent) → Readable e → IsSoundEvent (marked_failed e)
unfolding marked_failed
marked_failed-IsSoundEvent e h = ground arith

marked_processed-IsSoundEvent :
    (now : ℕ) (e : OutboxEvent) → Readable e → IsSoundEvent (marked_processed now e)
unfolding marked_processed
marked_processed-IsSoundEvent now e h = ground arith

module _ (p : Platform) (reachable : ℕ → Bool) (now : ℕ) where
  -- The row that an event is saved as.
  abbrev pub outcome : OutboxEvent → OutboxBody → OutboxEvent
  outcome e (dispatch_trigger order_id) =
      if reachable e.id && p.takes_id (assign_driver order_id)
      then marked_processed now e
      else marked_failed e
  outcome e malformed_trigger = marked_failed e
  outcome e unknown_event = marked_processed now e

  outcome-IsSoundEvent :
      (e : OutboxEvent) (b : OutboxBody) → Readable e → IsSoundEvent (outcome e b)
  outcome-IsSoundEvent e (dispatch_trigger k) h =
      ground (arith, marked_failed-IsSoundEvent e h, marked_processed-IsSoundEvent now e h)
  outcome-IsSoundEvent e malformed_trigger h = marked_failed-IsSoundEvent e h
  outcome-IsSoundEvent e unknown_event h = marked_processed-IsSoundEvent now e h

module _ {p : Platform} (reachable : ℕ → Bool) (now : ℕ) where
  pub attempt-outbox :
      (e : OutboxEvent) (b : OutboxBody) (w : World p)
      → (attempt reachable now e b w).outbox ≡ save_event (outcome p reachable now e b) w.outbox
  unfolding attempt
  attempt-outbox e (dispatch_trigger k) w = ground arith
  attempt-outbox e malformed_trigger w = refl
  attempt-outbox e unknown_event w = refl

  handle_rows-IsSoundOutbox :
      (es : List OutboxEvent) (w : World p)
      → All Readable es
      → IsSoundOutbox w
      → IsSoundOutbox (handle_rows reachable now es w)
  unfolding handle_rows
  handle_rows-IsSoundOutbox [] w all h = h
  handle_rows-IsSoundOutbox (e ∷ es) w all h =
      handle_rows-IsSoundOutbox es (handle_row reachable now e w) all.1 (
        subst (All IsSoundEvent) (sym (attempt-outbox e e.body w)) (
          save_event-All IsSoundEvent (outcome p reachable now e e.body) w.outbox
            (outcome-IsSoundEvent p reachable now e e.body all.0) h))

  -- A round keeps every event sound.
  pub process_outbox-IsSoundOutbox :
      (w : World p) → IsSoundOutbox w → IsSoundOutbox (process_outbox reachable now w)
  unfolding process_outbox
  process_outbox-IsSoundOutbox w h =
      handle_rows-IsSoundOutbox (next_batch w) w
        (take-All Readable batch_size _
          (select-All IsSoundEvent (λ e. is_waiting e.status) w.outbox h))
        h
