-- ===== src/Distance.antt =====
-- src/common/utils/distance.util.ts: the great-circle distance, in the operations of the platform's
-- numbers.
use logistics_dispatch.Platform.{Platform}

module _ (p : Platform) where
  open p use {Float, of_ℕ, plus, minus, times, over, sin, cos, sqrt, atan2, pi}

  -- `toRad`
  to_rad : Float → Float
  to_rad value = over (times value pi) (of_ℕ 180)

  unfoldable pub calculate_distance : Float → Float → Float → Float → Float
  unfolding to_rad
  calculate_distance lat1 lon1 lat2 lon2 =
      let half_lat = sin (over (to_rad (minus lat2 lat1)) (of_ℕ 2)) in
      let half_lon = sin (over (to_rad (minus lon2 lon1)) (of_ℕ 2)) in
      let a =
        plus (times half_lat half_lat)
          (times (times (times (cos (to_rad lat1)) (cos (to_rad lat2))) half_lon) half_lon) in
      let c = times (of_ℕ 2) (atan2 (sqrt a) (sqrt (minus (of_ℕ 1) a))) in times (of_ℕ 6371) c
