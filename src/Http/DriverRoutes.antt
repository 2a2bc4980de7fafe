-- ===== src/Http/DriverRoutes.antt =====
-- No route of src/drivers/drivers.controller.ts hides another.
-- The verb and the path of a method, with `s` for its id.
use logistics_dispatch.Common.{
  Bool-cases, List, Option, [], ap, false, find_first, inl, inr, none, refl, same_text, some, ◌∙◌,
  ◌∷◌, ◌≡◌,
}
use Prim.Native.String.{String}
use logistics_dispatch.Http.Drivers.{
  DriversHandler, accept_offer, all_drivers, driver_suspension, drivers_routes, my_availability,
  my_location, my_profile, on_id, one_driver, reject_offer,
}
use logistics_dispatch.Http.Router.{Route, Router, Verb, get, patch, pick-find_first, serves}

abbrev address_of : DriversHandler → String → Verb × List String
address_of my_profile s = (get, "me" ∷ [])
address_of my_availability s = (patch, "me" ∷ "availability" ∷ [])
address_of my_location s = (patch, "me" ∷ "location" ∷ [])
address_of all_drivers s = (get, [])
address_of (on_id accept_offer) s = (patch, "orders" ∷ s ∷ "accept" ∷ [])
address_of (on_id reject_offer) s = (patch, "orders" ∷ s ∷ "reject" ∷ [])
address_of (on_id one_driver) s = (get, s ∷ [])
address_of (on_id driver_suspension) s = (patch, s ∷ "suspension" ∷ [])

abbrev handler_of : {Handler : Type 0} → Option (Route Handler) → Option Handler
handler_of none = none
handler_of (some r) = some r.handler

first_route :
    (h : DriversHandler) (s : String)
    → same_text s "" ≡ false
    → same_text "me" s ≡ false
    → let (verb, path) = address_of h s in
      handler_of (find_first (λ r. serves r verb path) drivers_routes) ≡ some h
first_route my_profile s named other = refl
first_route my_availability s named other = refl
first_route my_location s named other = refl
first_route all_drivers s named other = refl
first_route (on_id accept_offer) s named other = rw named refl
first_route (on_id reject_offer) s named other = rw named refl
first_route (on_id one_driver) s named other = rw (named, other) refl
first_route (on_id driver_suspension) s named other = elim (Bool-cases (same_text "orders" s)) [
  | inl hit ↦ rw (named, other, hit) refl
  | inr miss ↦ rw (named, other, miss) refl
]

-- A request to the address of any method of the controller of the drivers, where the id in it is not
-- empty and not `me`, gets that method: no route declared before it takes the request.
pick-address_of :
    (router : Router DriversHandler) (h : DriversHandler) (s : String)
    → same_text s "" ≡ false
    → same_text "me" s ≡ false
    → let (verb, path) = address_of h s in
      handler_of (router.pick drivers_routes verb path) ≡ some h
pick-address_of router h s named other =
    let (verb, path) = address_of h s in
    ap handler_of (pick-find_first router verb path drivers_routes) ∙ first_route h s named other
