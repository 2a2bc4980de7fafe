-- ===== src/Dispatch/Processor.antt =====
-- src/dispatch/dispatch.processor.ts: what a job of the dispatch queue does.
use logistics_dispatch.Common.{
  Bool, Option, Result, err, if◌then◌else◌, internal, is_known, none, not, ok, refl, some, ℕ, ◌&&◌,
  ◌≡◌,
}
use logistics_dispatch.Dispatch.Answers.{handle_dispatch_timeout}
use logistics_dispatch.Dispatch.Assign.{handle_assign_driver}
use logistics_dispatch.Dispatch.Config.{DispatchConfig, assign_job, timeout_job}
use logistics_dispatch.Platform.{Job, Platform}
use logistics_dispatch.World.{World}

-- `DispatchJobName`
pub data DispatchJobName : Type 0 where
  assign_driver_name dispatch_timeout_name : DispatchJobName

-- The fields of a payload: whether one is there, and its text where it is one.
pub record JobPayload : Type 0 where
  pub order_id : Option (Option ℕ)
  pub driver_id : Option (Option ℕ)

-- The text of a field that has one.
abbrev pub text_of : Option (Option ℕ) → Option ℕ
text_of none = none
text_of (some text) = text

-- `isAssignDriverJob`
unfoldable pub is_assign_driver_job : JobPayload → Bool
is_assign_driver_job v = is_known (text_of v.order_id) && not (is_known v.driver_id)

-- `isDispatchTimeoutJob`
unfoldable pub is_dispatch_timeout_job : JobPayload → Bool
is_dispatch_timeout_job v = is_known (text_of v.order_id) && is_known (text_of v.driver_id)

-- The job that was added under an id, as the processor receives it: `JSON` leaves out what is undefined.
unfoldable pub payload_of : Job → JobPayload
payload_of j = record {
  order_id = some (some j.order_id);
  driver_id = elim j.driver_id [ none ↦ none | some d ↦ some (some d) ];
}

module _ {p : Platform} (cfg : DispatchConfig) (free : ℕ → Bool) where
  handle_assign_job : JobPayload → World p → Result (Unit {0}) × World p
  unfolding is_assign_driver_job handle_assign_driver
  handle_assign_job v w =
      if is_assign_driver_job v
      then elim (text_of v.order_id) [
        | none ↦ (err internal, w)
        | some order_id ↦ (ok tt, handle_assign_driver cfg free order_id w)
      ]
      else (err internal, w)

  handle_timeout_job : JobPayload → World p → Result (Unit {0}) × World p
  unfolding is_dispatch_timeout_job handle_dispatch_timeout
  handle_timeout_job v w =
      if is_dispatch_timeout_job v
      then elim (text_of v.order_id) [
        | none ↦ (err internal, w)
        | some order_id ↦ elim (text_of v.driver_id) [
          | none ↦ (err internal, w)
          | some driver_id ↦ (ok tt, handle_dispatch_timeout cfg order_id driver_id w)
        ]
      ]
      else (err internal, w)

  -- `process`: a job with a name that is not known is ignored, one with a malformed payload fails.
  unfoldable pub process :
      Option DispatchJobName → JobPayload → World p → Result (Unit {0}) × World p
  unfolding handle_assign_job handle_timeout_job
  process none v w = (ok tt, w)
  process (some assign_driver_name) v w = handle_assign_job v w
  process (some dispatch_timeout_name) v w = handle_timeout_job v w

  -- The jobs that the service adds are handled, each by its handler.
  pub process-assign_job :
      (k : ℕ) (w : World p)
      → process (some assign_driver_name) (payload_of (assign_job k)) w
        ≡ (ok tt, handle_assign_driver cfg free k w)
  unfolding process payload_of
  process-assign_job k w = refl

  process-timeout_job :
      (k d : ℕ) (w : World p)
      → process (some dispatch_timeout_name) (payload_of (timeout_job cfg k d)) w
        ≡ (ok tt, handle_dispatch_timeout cfg k d w)
  unfolding process payload_of
  process-timeout_job k d w = refl
