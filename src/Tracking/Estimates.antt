-- ===== src/Tracking/Estimates.antt =====
-- The chain of the jobs that estimate the arrival (src/tracking/tracking.service.ts).
use logistics_dispatch.Platform.{Platform}
use logistics_dispatch.World.{World}
