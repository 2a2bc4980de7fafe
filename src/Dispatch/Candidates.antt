-- ===== src/Dispatch/Candidates.antt =====
-- src/dispatch/dispatch.service.ts: `findNearestEligibleDrivers`.
use logistics_dispatch.Common.{
  Bool, List, [], if◌then◌else◌, includes, is_known, ltb, not, select, ℕ, ◌&&◌, ◌∷◌,
}
use logistics_dispatch.Distance.{calculate_distance}
use logistics_dispatch.Drivers.Entity.{Driver, vehincle_eq}
use logistics_dispatch.Orders.Entity.{Order}
use logistics_dispatch.Platform.{Platform, rows_of}
use logistics_dispatch.Tracking.{coordinate}
use logistics_dispatch.World.{World}

-- `.filter((driverId) => driverId.length > 0)`
abbrev pub non_empty : List ℕ → List ℕ
non_empty ids = select (λ i. ltb 0 i) ids

-- The conditions of the query on `drivers`.
unfoldable pub is_eligible : {Float : Type 0} → Order Float → Driver Float → Bool
is_eligible o d =
    d.online_status
    && not d.is_suspended
    && vehincle_eq d.vehincle_type o.vehincle_type
    && is_known d.current_latitude
    && is_known d.current_longitude
    && not (includes (non_empty o.attempted_driver_ids) d.id)

-- The distance from the place of pickup to the driver.
unfoldable pub pickup_distance : (p : Platform) → Order p.Float → Driver p.Float → p.Float
unfolding calculate_distance
pickup_distance p o d =
    calculate_distance p o.pickup_latitude o.pickup_longitude (coordinate p d.current_latitude)
      (coordinate p d.current_longitude)

-- The comparison `distanceA - distanceB` of the sort finds A before B.
unfoldable pub is_nearer : (p : Platform) → Order p.Float → Driver p.Float → Driver p.Float → Bool
is_nearer p o a b = p.negative (p.minus (pickup_distance p o a) (pickup_distance p o b))

-- `.sort(compare)`, which is stable, where `before a b` says that `compare(a, b)` is negative.
module _ {A : Type 0} (before : A → A → Bool) where
  unfoldable pub insert_sorted : A → List A → List A
  insert_sorted x [] = x ∷ []
  insert_sorted x (y ∷ ys) =
      let rest = insert_sorted x ys in if before y x then y ∷ rest else x ∷ y ∷ ys

  unfoldable pub sort : List A → List A
  unfolding insert_sorted
  sort [] = []
  sort (x ∷ xs) = insert_sorted x (sort xs)

-- The drivers that the query returns, and of them those with a position.
abbrev pub drivers_in_reach : {p : Platform} → Order p.Float → World p → List (Driver p.Float)
drivers_in_reach o w =
    select (λ d. is_known d.current_latitude && is_known d.current_longitude)
      (select (is_eligible o) (rows_of w.drivers))

-- The drivers that fit the order, the nearest first.
unfoldable pub find_nearest_eligible_drivers :
    {p : Platform} → Order p.Float → World p → List (Driver p.Float)
unfolding sort is_eligible is_nearer pickup_distance
find_nearest_eligible_drivers {p} o w = sort (is_nearer p o) (drivers_in_reach o w)
