-- ===== src/Examples/System.antt =====
-- The theorems on whole histories, on a day of order 7: the courier accepts, picks up and sets out.
use logistics_dispatch.Common.{List, [], arith, refl, some, true, ◌∷◌, ◌≡◌, ◌≤◌}
use logistics_dispatch.Drivers.Entity.{bike}
use logistics_dispatch.Drivers.Service.{accept_order_dispatch, update_location}
use logistics_dispatch.Examples.{defaults, driver_user, offered, offered_world, order_at, world_of}
use logistics_dispatch.Orders.Entity.{Order}
use logistics_dispatch.Orders.Lifecycle.{Changes, IsSound, Reaches}
use logistics_dispatch.Orders.Requests.{update_status}
use logistics_dispatch.Orders.Rules.{check_request}
use logistics_dispatch.Orders.Status.{delivered, driver_assigned, in_transit, picked_up}
use logistics_dispatch.Platform.{find, put, rows_of}
use logistics_dispatch.Platform.Memory.{Signed, memory, signed}
use logistics_dispatch.System.{Event, accepts_order, promotes_customer, run, sets_location, updates}
use logistics_dispatch.System.Audit.{IsAudited, last_status, run-IsAudited, status_of}
use logistics_dispatch.System.History.{run-Changes, run-Reaches, run_final}
use logistics_dispatch.System.Invariant.{Inv, run-Inv}
use logistics_dispatch.Users.Service.{promote_to_driver}

abbrev day : List (Event memory)
day =
    accepts_order 7 driver_user
    ∷ updates 7 picked_up driver_user
    ∷ updates 7 in_transit driver_user
    ∷ sets_location driver_user (signed 30) (signed 40)
    ∷ promotes_customer true 1 (record { vehincle_type = bike; license_number = "B 12" }) 9 60
    ∷ []

day_ends : status_of (find (run defaults day offered_world).orders 7) ≡ some in_transit
unfolding status_of find run update_status accept_order_dispatch put check_request promote_to_driver
    update_location rows_of
day_ends = refl

offered-IsSound : IsSound offered
offered-IsSound = ground arith

offered-Inv : Inv offered_world
unfolding find
offered-Inv = record {
  orders_fit = λ k o h. ground (arith, offered-IsSound);
  drivers_fit = λ k d h. ground arith;
  outbox_fit = tt;
}

run-Inv_example : Inv (run defaults day offered_world)
run-Inv_example = run-Inv defaults day offered_world offered-Inv

run-Changes_example :
    (r : Order Signed) × (find (run defaults day offered_world).orders 7 ≡ some r)
    × Changes defaults offered r
unfolding find
run-Changes_example =
    run-Changes defaults day offered_world 7 offered offered-Inv (tt, (tt, (tt, (tt, (tt, tt)))))
      refl

run-Reaches_example :
    (r : Order Signed) × (find (run defaults day offered_world).orders 7 ≡ some r)
    × Reaches driver_assigned r.order_status
unfolding find
run-Reaches_example =
    run-Reaches defaults day offered_world 7 offered offered-Inv (tt, (tt, (tt, (tt, (tt, tt)))))
      refl

offered-IsAudited : IsAudited offered_world
unfolding find last_status status_of
offered-IsAudited = record { recorded = λ k. ground arith; chained = (refl, tt) }

run-IsAudited_example : IsAudited (run defaults day offered_world)
run-IsAudited_example =
    run-IsAudited defaults day offered_world offered-Inv (tt, (tt, (tt, (tt, (tt, tt)))))
      offered-IsAudited

abbrev done : Order Signed
done = order_at delivered (some 3) 1 (3 ∷ [])

done-Inv : Inv (world_of done [] [])
unfolding find
done-Inv = record {
  orders_fit = λ k o h. ground arith;
  drivers_fit = λ k d h. ground arith;
  outbox_fit = tt;
}

run_final_example :
    (r : Order Signed) × (find (run defaults day (world_of done [] [])).orders 7 ≡ some r)
    × (r.order_status ≡ delivered)
    × (4 ≤ r.version)
unfolding find
run_final_example =
    run_final defaults day (world_of done [] []) 7 done done-Inv (tt, (tt, (tt, (tt, (tt, tt)))))
      refl refl
