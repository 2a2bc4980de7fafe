-- ===== src/Outbox/Worker.antt =====
-- src/outbox/outbox-worker.service.ts. Whether the queue can be reached is up to its surroundings:
-- `reachable` says it for the event with this id. A failure, or an id that the queue refuses, is an
-- exception that the worker catches. The table lists the events in the order of their creation.
use logistics_dispatch.Common.{
  Bool, List, [], false, if◌then◌else◌, leb, select, some, take, true, ℕ, ◌&&◌, ◌+◌, ◌==◌, ◌∷◌,
}
use logistics_dispatch.Dispatch.Config.{trigger_dispatch}
use logistics_dispatch.Outbox.Entity.{
  OutboxBody, OutboxEvent, OutboxStatus, dispatch_trigger, malformed_trigger, unknown_event,
}
use logistics_dispatch.Platform.{Platform, assign_driver}
use logistics_dispatch.World.{World}

abbrev pub batch_size : ℕ
batch_size = 10

abbrev pub max_outbox_attempts : ℕ
max_outbox_attempts = 5

abbrev pub is_waiting : OutboxStatus → Bool
is_waiting OutboxStatus.pending = true
is_waiting OutboxStatus.processed = false
is_waiting OutboxStatus.failed = false

-- The row after a success.
unfoldable pub marked_processed : ℕ → OutboxEvent → OutboxEvent
marked_processed now e = record e { status = OutboxStatus.processed; processed_at = some now }

-- The row after a failure, in the `catch` of `handleRow`.
unfoldable pub marked_failed : OutboxEvent → OutboxEvent
marked_failed e = record e {
  attempts = e.attempts + 1;
  has_error = true;
  status = if leb max_outbox_attempts (e.attempts + 1) then OutboxStatus.failed else e.status;
}

-- `outboxRepo.save(row)`
unfoldable pub save_event : OutboxEvent → List OutboxEvent → List OutboxEvent
save_event e [] = []
save_event e (x ∷ xs) = if x.id == e.id then e ∷ xs else x ∷ save_event e xs

module _ {p : Platform} where
  -- The query: the first waiting events, up to the size of a batch.
  unfoldable pub next_batch : World p → List OutboxEvent
  next_batch w = take batch_size (select (λ e. is_waiting e.status) w.outbox)

module _ {p : Platform} (reachable : ℕ → Bool) (now : ℕ) where
  abbrev put_event : OutboxEvent → World p → World p
  put_event e w = record w { outbox = save_event e w.outbox }

  -- The `try` of `handleRow`, by the type of the event.
  unfoldable pub attempt : OutboxEvent → OutboxBody → World p → World p
  unfolding trigger_dispatch marked_processed marked_failed
  attempt e (dispatch_trigger order_id) w =
      if reachable e.id && p.takes_id (assign_driver order_id)
      then put_event (marked_processed now e) (trigger_dispatch order_id w)
      else put_event (marked_failed e) w
  attempt e malformed_trigger w = put_event (marked_failed e) w
  attempt e unknown_event w = put_event (marked_processed now e) w

  unfoldable pub handle_row : OutboxEvent → World p → World p
  unfolding attempt
  handle_row e w = attempt e e.body w

  unfoldable pub handle_rows : List OutboxEvent → World p → World p
  unfolding handle_row
  handle_rows [] w = w
  handle_rows (e ∷ es) w = handle_rows es (handle_row e w)

  -- One round of the worker.
  unfoldable pub process_outbox : World p → World p
  unfolding handle_rows next_batch
  process_outbox w = handle_rows (next_batch w) w
