-- ===== src/Http/Users.antt =====
-- src/users/users.controller.ts. The router of Nest and its `ParseUUIDPipe` are parameters; the body of a
-- request has passed its validation.
use logistics_dispatch.Common.{
  Bool, List, Option, Result, [], bad_request, err, none, not_found, ok, some, ℕ, ◌∷◌,
}
use Prim.Native.String.{String}
use logistics_dispatch.Auth.Tokens.{JwtPayload}
use logistics_dispatch.Http.Guards.{authorize}
use logistics_dispatch.Http.Router.{Route, Router, Verb, get, parameter, patch, post, word}
use logistics_dispatch.Paging.{Codec, Page}
use logistics_dispatch.Platform.{Platform}
use logistics_dispatch.Users.Entity.{JwtUser, User, admin, customer, driver}
use logistics_dispatch.Users.Listing.{find_all}
use logistics_dispatch.Users.Service.{
  PromoteToDriverDto, UserResponse, get_user_profile, promote_to_driver, update_user_name,
}
use logistics_dispatch.World.{World}

pub data UsersHandler : Type 0 where
  find_all_users find_user get_own_profile update_own_name promote_user : UsersHandler

abbrev pub find_user_route : Route UsersHandler
find_user_route = record {
  verb = get;
  pattern = parameter ∷ [];
  roles = admin ∷ [];
  handler = find_user;
}

-- The methods of `UsersController`, in their order.
abbrev pub users_routes : List (Route UsersHandler)
users_routes =
    record { verb = get; pattern = []; roles = admin ∷ []; handler = find_all_users }
    ∷ find_user_route
    ∷ record {
      verb = get;
      pattern = word "me" ∷ [];
      roles = customer ∷ driver ∷ admin ∷ [];
      handler = get_own_profile;
    }
    ∷ record {
      verb = patch;
      pattern = word "me" ∷ word "name" ∷ [];
      roles = customer ∷ driver ∷ admin ∷ [];
      handler = update_own_name;
    }
    ∷ record {
      verb = post;
      pattern = parameter ∷ word "promote-to-driver" ∷ [];
      roles = admin ∷ [];
      handler = promote_user;
    }
    ∷ []

-- A request, and what its handler draws.
pub record UsersRequest (T : Type 0) : Type 0 where
  pub verb : Verb
  pub path : List String
  pub limit : ℕ
  pub cursor : Option T
  pub name : String
  pub dto : PromoteToDriverDto
  pub license_free : Bool
  pub driver_id : ℕ
  pub now : ℕ

pub data UsersReply (T : Type 0) : Type 0 where
  one_user : UserResponse → UsersReply T
  user_page : Page UserResponse T → UsersReply T

abbrev pub profile_of : {T : Type 0} → Result UserResponse → Result (UsersReply T)
profile_of (ok u) = ok (one_user u)
profile_of (err e) = err e

abbrev pub page_of : {T : Type 0} → Result (Page UserResponse T) → Result (UsersReply T)
page_of (ok x) = ok (user_page x)
page_of (err e) = err e

-- The parameter `:id`, which is the first part of each path that has one.
unfoldable pub path_id : (String → Option ℕ) → List String → Result ℕ
path_id parse_uuid [] = err bad_request
path_id parse_uuid (s ∷ path) = elim (parse_uuid s) [ none ↦ err bad_request | some id ↦ ok id ]

module _ {p : Platform} (k : Codec) (micros : User → ℕ) (parse_uuid : String → Option ℕ) where
  unfoldable pub users_handle :
      UsersHandler → UsersRequest k.Text → JwtUser → World p → Result (UsersReply k.Text) × World p
  unfolding path_id find_all get_user_profile update_user_name promote_to_driver
  users_handle find_all_users r user w = (page_of (find_all k micros r.limit r.cursor w), w)
  users_handle find_user r user w = elim (path_id parse_uuid r.path) [
    | err e ↦ (err e, w)
    | ok id ↦ (profile_of (get_user_profile id w), w)
  ]
  users_handle get_own_profile r user w = (profile_of (get_user_profile user.user_id w), w)
  users_handle update_own_name r user w =
      let x = update_user_name user.user_id r.name w in (profile_of x.0, x.1)
  users_handle promote_user r user w = elim (path_id parse_uuid r.path) [
    | err e ↦ (err e, w)
    | ok id ↦
        let x = promote_to_driver r.license_free id r.dto r.driver_id r.now w in
        (profile_of x.0, x.1)
  ]

module _ {p : Platform} (k : Codec) (micros : User → ℕ) (router : Router UsersHandler)
    (parse_uuid : String → Option ℕ) where
  -- The router, the guards, the pipes, and then the method.
  unfoldable pub users_request :
      Option JwtPayload → UsersRequest k.Text → World p → Result (UsersReply k.Text) × World p
  unfolding authorize users_handle
  users_request token r w = elim (router.pick users_routes r.verb r.path) [
    | none ↦ (err not_found, w)
    | some route ↦ elim (authorize route.roles token w) [
      | err e ↦ (err e, w)
      | ok user ↦ users_handle k micros parse_uuid route.handler r user w
    ]
  ]
