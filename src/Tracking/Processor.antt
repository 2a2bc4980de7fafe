-- ===== src/Tracking/Processor.antt =====
-- src/tracking/tracking.processor.ts: what a job of the tracking queue does.
use logistics_dispatch.Common.{ℕ}
use logistics_dispatch.Platform.{Platform}
use logistics_dispatch.Tracking.{handle_eta_recalculation}
use logistics_dispatch.World.{World}

-- The names of its jobs.
pub data TrackingJobName : Type 0 where
  recalculate_eta_name other_name : TrackingJobName

module _ {p : Platform} where
  -- `process`, with the order and the driver of the payload.
  unfoldable pub process_tracking : TrackingJobName → ℕ → ℕ → World p → World p
  unfolding handle_eta_recalculation
  process_tracking recalculate_eta_name order_id driver_id w =
      handle_eta_recalculation order_id driver_id w
  process_tracking other_name order_id driver_id w = w
