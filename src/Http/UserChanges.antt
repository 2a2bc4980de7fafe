-- ===== src/Http/UserChanges.antt =====
-- Who changes what by the routes of src/users/users.controller.ts.
use logistics_dispatch.Common.{
  Bool-cases, Exception, List, Option, Option-cases, Result-cases, [], arith, bad_request, err,
  false, inl, inr, none, ok, refl, same_text, some, sym, true, ℕ, ◌∙◌, ◌∷◌, ◌≡◌, ◌⊎◌,
}
use Prim.Native.String.{String}
use logistics_dispatch.Auth.Tokens.{JwtPayload}
use logistics_dispatch.Http.Guards.{IsAdmitted, authorize, authorize-IsAdmitted, can_activate}
use logistics_dispatch.Http.Router.{Route, Router, get, pick-All}
use logistics_dispatch.Http.Users.{
  UsersHandler, UsersRequest, find_all_users, find_user, find_user_route, get_own_profile, path_id,
  promote_user, update_own_name, users_handle, users_request, users_routes,
}
use logistics_dispatch.Paging.{Codec}
use logistics_dispatch.Platform.{Platform}
use logistics_dispatch.Users.Entity.{
  JwtUser, User, UserRole, admin, customer, driver, role_eq, role_eq→eq,
}
use logistics_dispatch.Users.Service.{promote_to_driver, update_user_name}
use logistics_dispatch.World.{World}

-- A path of one part is taken as an id, whatever it is.
picks_find_user :
    (router : Router UsersHandler) (s : String)
    → same_text s "" ≡ false
    → router.pick users_routes get (s ∷ []) ≡ some find_user_route
picks_find_user router s named =
    router.pick-miss _ _ get (s ∷ []) refl
    ∙ router.pick-hit _ _ get (s ∷ []) (ground (arith, named))

-- The roles that a method asks for.
abbrev roles_for : UsersHandler → List UserRole
roles_for find_all_users = admin ∷ []
roles_for find_user = admin ∷ []
roles_for get_own_profile = customer ∷ driver ∷ admin ∷ []
roles_for update_own_name = customer ∷ driver ∷ admin ∷ []
roles_for promote_user = admin ∷ []

only_admin : (user : JwtUser) → can_activate (admin ∷ []) user ≡ true → user.role ≡ admin
unfolding can_activate
only_admin user may = elim (Bool-cases (role_eq admin user.role)) [
  | inl is ↦ sym (role_eq→eq admin user.role is)
  | inr other ↦ absurd (ground arith)
]

module _ {p : Platform} (k : Codec) (micros : User → ℕ) (router : Router UsersHandler)
    (parse_uuid : String → Option ℕ) where
  -- If `me` is no UUID, then `GET /users/me` is answered with an error and changes nothing, whoever asks.
  pub me_never_answers :
      (token : Option JwtPayload) (r : UsersRequest k.Text) (w : World p)
      → parse_uuid "me" ≡ none
      → r.verb ≡ get
      → r.path ≡ "me" ∷ []
      → ((e : Exception) × (users_request k micros router parse_uuid token r w ≡ (err e, w)))
  unfolding users_request users_handle path_id
  me_never_answers token r w no_uuid g m =
      let picked : router.pick users_routes r.verb r.path ≡ some find_user_route =
        rw (g, m) (picks_find_user router "me" refl) in
      elim (Result-cases (authorize (admin ∷ []) token w)) [
        | inr (e, refused) ↦ (e, rw (users_request, picked, refused) refl)
        | inl (user, admitted) ↦ (
          bad_request,
          rw (users_request, picked, admitted, users_handle, path_id, m, no_uuid) refl,
        )
      ]

  -- What a method may do to the tables in the name of a user.
  abbrev pub MayChange : UsersHandler → UsersRequest k.Text → JwtUser → World p → World p → Type 0
  MayChange h r user w after =
      ((h ≡ update_own_name) × (after ≡ (update_user_name user.user_id r.name w).1))
      ⊎ ((id : ℕ) × (h ≡ promote_user)
          × (user.role ≡ admin)
          × (path_id parse_uuid r.path ≡ ok id)
          × (after ≡ (promote_to_driver r.license_free id r.dto r.driver_id r.now w).1))

  users_handle-MayChange :
      (h : UsersHandler) (r : UsersRequest k.Text) (user : JwtUser) (w : World p)
      → can_activate (roles_for h) user ≡ true
      → ((users_handle k micros parse_uuid h r user w).1 ≡ w)
        ⊎ MayChange h r user w (users_handle k micros parse_uuid h r user w).1
  unfolding users_handle
  users_handle-MayChange find_all_users r user w role = inl refl
  users_handle-MayChange find_user r user w role = elim (Result-cases (path_id parse_uuid r.path)) [
    | inl (id, e) ↦ inl (rw (users_handle, e) refl)
    | inr (e, bad) ↦ inl (rw (users_handle, bad) refl)
  ]
  users_handle-MayChange get_own_profile r user w role = inl refl
  users_handle-MayChange update_own_name r user w role = inr (inl (refl, refl))
  users_handle-MayChange promote_user r user w role =
      elim (Result-cases (path_id parse_uuid r.path)) [
        | inl (id, e) ↦ inr (inr (id, refl, only_admin user role, e, rw (users_handle, e) refl))
        | inr (e, bad) ↦ inl (rw (users_handle, bad) refl)
      ]

  -- Whatever is asked of the users' routes, the tables change only by a rename of the user who asks, or
  -- by the promotion of anyone by an admin; who asks is in the table, has a verified email there, and
  -- that role.
  pub users_request-MayChange :
      (token : Option JwtPayload) (r : UsersRequest k.Text) (w : World p)
      → ((users_request k micros router parse_uuid token r w).1 ≡ w)
        ⊎ ((route : Route UsersHandler) × (user : JwtUser) × (router.pick users_routes r.verb r.path
              ≡ some route)
            × IsAdmitted route.roles token user w
            × MayChange route.handler r user w
                (users_request k micros router parse_uuid token r w).1)
  unfolding users_request
  users_request-MayChange token r w = elim (Option-cases (router.pick users_routes r.verb r.path)) [
    | inl nothing ↦ inl (rw (users_request, nothing) refl)
    | inr (route, picked) ↦ elim (Result-cases (authorize route.roles token w)) [
      | inr (e, refused) ↦ inl (rw (users_request, picked, refused) refl)
      | inl (user, admitted) ↦
          let by = authorize-IsAdmitted route.roles token user w admitted in
          let asked =
            pick-All router (λ x. x.roles ≡ roles_for x.handler) users_routes r.verb r.path route
              (refl, (refl, (refl, (refl, (refl, tt))))) picked in
          let (_, _, _, _, _, _, _, role) = by in
          elim (users_handle-MayChange route.handler r user w (rw (sym asked) role)) [
            | inl same ↦ inl (rw (users_request, picked, admitted) same)
            | inr changed ↦
                inr (route, user, picked, by, rw (users_request, picked, admitted) changed)
          ]
    ]
  ]
