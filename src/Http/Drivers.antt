-- ===== src/Http/Drivers.antt =====
-- src/drivers/drivers.controller.ts, with its routes as data. `ParseUUIDPipe` is a parameter, and the
-- other parts of a request are valid.
use logistics_dispatch.Common.{
  Bool, List, Option, Result, [], bad_request, err, none, not_found, ok, some, ℕ, ◌∷◌,
}
use Prim.Native.String.{String}
use logistics_dispatch.Auth.Tokens.{JwtPayload}
use logistics_dispatch.Dispatch.Config.{DispatchConfig}
use logistics_dispatch.Drivers.Entity.{Driver}
use logistics_dispatch.Drivers.Listing.{find_all}
use logistics_dispatch.Drivers.Service.{
  DriverResponse, accept_order_dispatch, find_driver_by_id, get_my_profile, reject_order_dispatch,
  toggle_availability, toggle_suspension, update_location,
}
use logistics_dispatch.Http.Guards.{authorize}
use logistics_dispatch.Http.Router.{Route, Router, Verb, get, parameter, patch, word}
use logistics_dispatch.Paging.{Codec, Page}
use logistics_dispatch.Platform.{Platform}
use logistics_dispatch.Users.Entity.{JwtUser, admin, driver}
use logistics_dispatch.World.{World}

-- The methods that take an id, and all methods.
pub data DriverIdHandler : Type 0 where
  accept_offer reject_offer one_driver driver_suspension : DriverIdHandler

pub data DriversHandler : Type 0 where
  my_profile my_availability my_location all_drivers : DriversHandler
  on_id : DriverIdHandler → DriversHandler

-- The methods of `DriversController`, in their order.
abbrev pub drivers_routes : List (Route DriversHandler)
drivers_routes =
    record { verb = get; pattern = word "me" ∷ []; roles = driver ∷ []; handler = my_profile }
    ∷ record {
      verb = patch;
      pattern = word "me" ∷ word "availability" ∷ [];
      roles = driver ∷ [];
      handler = my_availability;
    }
    ∷ record {
      verb = patch;
      pattern = word "me" ∷ word "location" ∷ [];
      roles = driver ∷ [];
      handler = my_location;
    }
    ∷ record {
      verb = patch;
      pattern = word "orders" ∷ parameter ∷ word "accept" ∷ [];
      roles = driver ∷ [];
      handler = on_id accept_offer;
    }
    ∷ record {
      verb = patch;
      pattern = word "orders" ∷ parameter ∷ word "reject" ∷ [];
      roles = driver ∷ [];
      handler = on_id reject_offer;
    }
    ∷ record { verb = get; pattern = []; roles = admin ∷ []; handler = all_drivers }
    ∷ record {
      verb = get;
      pattern = parameter ∷ [];
      roles = admin ∷ [];
      handler = on_id one_driver;
    }
    ∷ record {
      verb = patch;
      pattern = parameter ∷ word "suspension" ∷ [];
      roles = admin ∷ [];
      handler = on_id driver_suspension;
    }
    ∷ []

pub record DriversRequest (Float T : Type 0) : Type 0 where
  pub verb : Verb
  pub path : List String
  pub limit : ℕ
  pub cursor : Option T
  pub online_only : Bool
  pub latitude : Float
  pub longitude : Float

-- A profile, a page of them, or a message.
pub data DriversReply (Float T : Type 0) : Type 0 where
  driver_profile : DriverResponse Float → DriversReply Float T
  driver_profiles : Page (DriverResponse Float) T → DriversReply Float T
  driver_message : DriversReply Float T

abbrev pub reply_of : {A B : Type 0} → (A → B) → Result A → Result B
reply_of f (ok a) = ok (f a)
reply_of f (err e) = err e

-- The parameter `:id` of a path that starts with it, and `:orderId` behind `orders`.
unfoldable pub driver_param : DriverIdHandler → List String → Option String
driver_param accept_offer (t ∷ s ∷ path) = some s
driver_param reject_offer (t ∷ s ∷ path) = some s
driver_param one_driver (s ∷ path) = some s
driver_param driver_suspension (s ∷ path) = some s
driver_param _ _ = none

unfoldable pub driver_id_of : (String → Option ℕ) → DriverIdHandler → List String → Result ℕ
unfolding driver_param
driver_id_of parse_uuid h path = elim (driver_param h path) [
  | none ↦ err bad_request
  | some s ↦ elim (parse_uuid s) [ none ↦ err bad_request | some id ↦ ok id ]
]

module _ {p : Platform} (cfg : DispatchConfig) (k : Codec) where
  unfoldable pub drivers_handle_id :
      DriverIdHandler → ℕ → JwtUser → World p → Result (DriversReply p.Float k.Text) × World p
  unfolding accept_order_dispatch reject_order_dispatch find_driver_by_id toggle_suspension
  drivers_handle_id accept_offer id user w =
      let x = accept_order_dispatch id user w in (reply_of (λ a. driver_message) x.0, x.1)
  drivers_handle_id reject_offer id user w =
      let x = reject_order_dispatch cfg id user w in (reply_of (λ a. driver_message) x.0, x.1)
  drivers_handle_id one_driver id user w = (reply_of driver_profile (find_driver_by_id id w), w)
  drivers_handle_id driver_suspension id user w =
      let x = toggle_suspension id w in (reply_of driver_profile x.0, x.1)

module _ {p : Platform} (cfg : DispatchConfig) (k : Codec) (micros : Driver p.Float → ℕ)
    (parse_uuid : String → Option ℕ) where
  unfoldable pub drivers_handle :
      DriversHandler
      → DriversRequest p.Float k.Text
      → JwtUser
      → World p
      → Result (DriversReply p.Float k.Text) × World p
  unfolding get_my_profile toggle_availability update_location find_all driver_id_of
      drivers_handle_id
  drivers_handle my_profile r user w = (reply_of driver_profile (get_my_profile user w), w)
  drivers_handle my_availability r user w =
      let x = toggle_availability user w in (reply_of driver_profile x.0, x.1)
  drivers_handle my_location r user w =
      let x = update_location user r.latitude r.longitude w in
      (reply_of (λ a. driver_message) x.0, x.1)
  drivers_handle all_drivers r user w =
      (reply_of driver_profiles (find_all k micros r.limit r.cursor r.online_only w), w)
  drivers_handle (on_id h) r user w = elim (driver_id_of parse_uuid h r.path) [
    | err e ↦ (err e, w)
    | ok id ↦ drivers_handle_id cfg k h id user w
  ]

  -- The router, the guards, the pipes, and then the method.
  unfoldable pub drivers_request :
      Router DriversHandler
      → Option JwtPayload
      → DriversRequest p.Float k.Text
      → World p
      → Result (DriversReply p.Float k.Text) × World p
  unfolding authorize drivers_handle
  drivers_request router token r w = elim (router.pick drivers_routes r.verb r.path) [
    | none ↦ (err not_found, w)
    | some route ↦ elim (authorize route.roles token w) [
      | err e ↦ (err e, w)
      | ok user ↦ drivers_handle route.handler r user w
    ]
  ]
