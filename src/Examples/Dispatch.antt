-- ===== src/Examples/Dispatch.antt =====
-- The theorems on the offers of src/dispatch, on order 7 and the couriers 3 and 5.
use logistics_dispatch.Common.{
  All, List, [], arith, false, includes, refl, select, some, true, ◌++◌, ◌∷◌, ◌≡◌,
}
use logistics_dispatch.Dispatch.Assign.{assign_from, lock_driver, pick_driver}
use logistics_dispatch.Dispatch.Candidates.{
  find_nearest_eligible_drivers, is_eligible, is_nearer, pickup_distance,
}
use logistics_dispatch.Dispatch.Offers.{passed_over, pick_driver_first, pick_driver_fits}
use logistics_dispatch.Dispatch.Ranking.{IsFitting, IsRanking, first_candidate_nearest}
use logistics_dispatch.Dispatch.Refinement.{assign_from-OneChange}
use logistics_dispatch.Drivers.Entity.{Driver, bike}
use logistics_dispatch.Examples.{
  defaults, far, near, unlocked, waiting, waiting-IsKeyed, waiting_world,
}
use logistics_dispatch.Orders.Lifecycle.Tables.{OneChange}
use logistics_dispatch.Platform.{find, rows_of}
use logistics_dispatch.Platform.Memory.{Signed, memory}

-- On this platform the distances are compared as differences, which is a ranking.
signed_ranking : IsRanking (is_nearer memory waiting) (IsFitting waiting waiting_world)
unfolding is_nearer
signed_ranking = (λ x y a b h. ground arith, λ x y z a b c h k. ground arith)

two_candidates : find_nearest_eligible_drivers waiting waiting_world ≡ near ∷ far ∷ []
unfolding find_nearest_eligible_drivers select rows_of
two_candidates = refl

far_fits : is_eligible waiting far ≡ true
unfolding is_eligible select
far_fits = refl

first_candidate_nearest_example :
    memory.negative
      (memory.minus (pickup_distance memory waiting far) (pickup_distance memory waiting near))
    ≡ false
unfolding find
first_candidate_nearest_example =
    first_candidate_nearest waiting waiting_world near (far ∷ []) 5 far signed_ranking
      two_candidates refl far_fits

-- The courier 3 was tried, so the next one is picked.
picks_far : pick_driver unlocked (3 ∷ []) bike waiting_world (near ∷ far ∷ []) ≡ some far
unfolding pick_driver find
picks_far = refl

pick_driver_first_example :
    (before : List (Driver Signed)) × (c : Driver Signed) × (after : List (Driver Signed)) × (near
        ∷ far ∷ []
      ≡ before ++ c ∷ after)
    × All (λ b. passed_over unlocked (3 ∷ []) bike waiting_world b ≡ true) before
    × (passed_over unlocked (3 ∷ []) bike waiting_world c ≡ false)
    × (lock_driver unlocked bike waiting_world c.id ≡ some far)
pick_driver_first_example =
    pick_driver_first unlocked (3 ∷ []) bike waiting_world (near ∷ far ∷ []) far picks_far

pick_driver_fits_example :
    (includes (3 ∷ []) 5 ≡ false)
    × (unlocked 5 ≡ true)
    × (far.online_status ≡ true)
    × (far.is_suspended ≡ false)
    × (far.vehincle_type ≡ bike)
    × (find waiting_world.drivers 5 ≡ some far)
pick_driver_fits_example =
    pick_driver_fits unlocked (3 ∷ []) bike waiting_world (near ∷ far ∷ []) far waiting-IsKeyed
      picks_far

assign_from-OneChange_example :
    OneChange defaults waiting_world (assign_from defaults unlocked waiting waiting_world)
assign_from-OneChange_example =
    assign_from-OneChange defaults unlocked waiting waiting_world waiting-IsKeyed
