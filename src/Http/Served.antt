-- ===== src/Http/Served.antt =====
-- What any sequence of requests to src/auth/controllers/auth.controller.ts and
-- src/users/users.controller.ts does to the accounts.
use logistics_dispatch.Common.{
  List, Option, Result-cases, [], err, false, inl, inr, none, ok, refl, some, true, ℕ, ◌∷◌, ◌≡◌,
  ◌⊎◌,
}
use Prim.Native.String.{String}
use logistics_dispatch.Auth.Accounts.{
  AccountEvent, account_step, forgets, google_logs_in, logs_in, logs_out, promotes, refreshes,
  registers, renames, resends, resets, verifies,
}
use logistics_dispatch.Auth.Login.{GoogleAuthUser, Profile, validate_google}
use logistics_dispatch.Auth.State.{AuthState, set_world}
use logistics_dispatch.Auth.Tokens.{Crypto, JwtPayload}
use logistics_dispatch.Http.Accounts.{
  AuthRequest, PublicRequest, auth_request, call_public, get_admin_ping, get_google,
  get_google_callback, get_verify_email, google_callback, opens, post_forgot_password, post_login,
  post_logout, post_refresh, post_register, post_resend_verification_email, post_reset_password,
  post_verify_email,
}
use logistics_dispatch.Http.Guards.{IsAdmitted, authorize, authorize-IsAdmitted}
use logistics_dispatch.Http.Router.{Route, Router}
use logistics_dispatch.Http.UserChanges.{users_request-MayChange}
use logistics_dispatch.Http.Users.{
  UsersHandler, UsersRequest, path_id, promote_user, update_own_name, users_request, users_routes,
}
use logistics_dispatch.Paging.{Codec}
use logistics_dispatch.Platform.{Platform}
use logistics_dispatch.Users.Entity.{JwtUser, User, admin}
use mathlib.Core.Path.{subst}

-- Requests to the two controllers, with the payload of their token.
pub data AccountRequest (T : Type 0) : Type 0 where
  to_auth : Option JwtPayload → AuthRequest → AccountRequest T
  to_users : Option JwtPayload → UsersRequest T → AccountRequest T

module _ {p : Platform} (c : Crypto) (normalize local_part : String → String) (k : Codec)
    (micros : User → ℕ) (router : Router UsersHandler) (parse_uuid : String → Option ℕ) where
  unfoldable pub serve : AccountRequest k.Text → AuthState p → AuthState p
  unfolding auth_request users_request
  serve (to_auth token r) s = (auth_request c normalize local_part token r s).1
  serve (to_users token r) s =
      set_world (users_request k micros router parse_uuid token r s.world).1 s

  unfoldable pub serve_all : List (AccountRequest k.Text) → AuthState p → AuthState p
  unfolding serve
  serve_all [] s = s
  serve_all (r ∷ rs) s = serve_all rs (serve r s)

module _ (normalize local_part : String → String) where
  -- What a request without a guard is about.
  abbrev pub public_event : PublicRequest → Option AccountEvent
  public_event (post_register dto id salt d now) = some (registers dto id salt d now)
  public_event (post_login email password salt secret) = some (logs_in email password salt secret)
  public_event (post_verify_email token now) = some (verifies token now)
  public_event (get_verify_email token now) = some (verifies token now)
  public_event (post_resend_verification_email email d now) = some (resends email d now)
  public_event (post_forgot_password email d now) = some (forgets email d now)
  public_event (post_reset_password token salt password now) = some (resets token salt password now)
  public_event get_google = none
  public_event (get_google_callback none id now salt secret) = none
  public_event (get_google_callback (some profile) id now salt secret) =
      elim (validate_google normalize local_part profile) [
        | err e ↦ none
        | ok g ↦ some (google_logs_in g id now salt secret)
      ]
  public_event (post_refresh token salt secret) = some (refreshes token salt secret)

  called_back :
      (profile : Profile) (g : GoogleAuthUser) (id now : ℕ) (salt secret : ℕ)
      → validate_google normalize local_part profile ≡ ok g
      → public_event (get_google_callback (some profile) id now salt secret)
        ≡ some (google_logs_in g id now salt secret)
  called_back profile g id now salt secret good = rw (public_event, good) refl

module _ {p : Platform} (c : Crypto) (normalize local_part : String → String) {T : Type 0}
    (router : Router UsersHandler) (parse_uuid : String → Option ℕ) where
  -- The event is what the request asks for: by a route without a guard whatever it says; by a logout that
  -- of the user of the request's token; by the route of the name a rename of that user, and by the
  -- route of promotions one of the user in the path, where the one who asks is an admin in the table.
  abbrev pub IsAsked : AccountRequest T → AccountEvent → AuthState p → Type 0
  IsAsked (to_auth token (opens r)) e s = public_event normalize local_part r ≡ some e
  IsAsked (to_auth token post_logout) e s =
      (user : JwtUser) × IsAdmitted [] token user s.world × (e ≡ logs_out user)
  IsAsked (to_auth token get_admin_ping) e s = false ≡ true
  IsAsked (to_users token r) e s =
      (route : Route UsersHandler) × (user : JwtUser) × (router.pick users_routes r.verb r.path
        ≡ some route)
      × IsAdmitted route.roles token user s.world
      × (((route.handler ≡ update_own_name) × (e ≡ renames user.user_id r.name))
          ⊎ ((id : ℕ) × (route.handler ≡ promote_user)
              × (user.role ≡ admin)
              × (path_id parse_uuid r.path ≡ ok id)
              × (e ≡ promotes r.license_free id r.dto r.driver_id r.now)))

  -- From one state to another by the requests of a list, each of which changes nothing or does an event
  -- that it asks for.
  pub data AreServed : List (AccountRequest T) → AuthState p → AuthState p → Type 0 where
    stays : {s : AuthState p} → AreServed [] s s
    skips_request :
        {r : AccountRequest T} {rs : List (AccountRequest T)} {s after : AuthState p}
        → AreServed rs s after
        → AreServed (r ∷ rs) s after
    moves_on :
        {r : AccountRequest T} {rs : List (AccountRequest T)} {s after : AuthState p}
        (e : AccountEvent)
        → IsAsked r e s
        → AreServed rs (account_step c normalize e s) after
        → AreServed (r ∷ rs) s after

module _ {p : Platform} (c : Crypto) (normalize local_part : String → String) (k : Codec)
    (micros : User → ℕ) (router : Router UsersHandler) (parse_uuid : String → Option ℕ) where
  -- The state is the same, or that after an event that the request asks for.
  abbrev IsServed : AccountRequest k.Text → AuthState p → AuthState p → Type 0
  IsServed r s after =
      (after ≡ s)
      ⊎ ((e : AccountEvent) × IsAsked c normalize local_part router parse_uuid r e s
          × (after ≡ account_step c normalize e s))

  public-IsServed :
      (token : Option JwtPayload) (r : PublicRequest) (s : AuthState p)
      → IsServed (to_auth token (opens r)) s (call_public c normalize local_part r s).1
  unfolding call_public google_callback account_step
  public-IsServed token (post_register dto id salt d now) s =
      inr (registers dto id salt d now, refl, refl)
  public-IsServed token (post_login email password salt secret) s =
      inr (logs_in email password salt secret, refl, refl)
  public-IsServed token (post_verify_email text now) s = inr (verifies text now, refl, refl)
  public-IsServed token (get_verify_email text now) s = inr (verifies text now, refl, refl)
  public-IsServed token (post_resend_verification_email email d now) s =
      inr (resends email d now, refl, refl)
  public-IsServed token (post_forgot_password email d now) s = inr (forgets email d now, refl, refl)
  public-IsServed token (post_reset_password text salt password now) s =
      inr (resets text salt password now, refl, refl)
  public-IsServed token get_google s = inl refl
  public-IsServed token (get_google_callback none id now salt secret) s = inl refl
  public-IsServed token (get_google_callback (some profile) id now salt secret) s =
      elim (Result-cases (validate_google normalize local_part profile)) [
        | inr (e, bad) ↦ inl (rw (call_public, google_callback, bad) refl)
        | inl (g, good) ↦ inr (
          google_logs_in g id now salt secret,
          called_back normalize local_part profile g id now salt secret good,
          rw (call_public, google_callback, good) refl,
        )
      ]
  public-IsServed token (post_refresh text salt secret) s =
      inr (refreshes text salt secret, refl, refl)

  auth-IsServed :
      (token : Option JwtPayload) (r : AuthRequest) (s : AuthState p)
      → IsServed (to_auth token r) s (auth_request c normalize local_part token r s).1
  unfolding auth_request account_step
  auth-IsServed token (opens r) s = public-IsServed token r s
  auth-IsServed token post_logout s = elim (Result-cases (authorize [] token s.world)) [
    | inr (e, refused) ↦ inl (rw (auth_request, refused) refl)
    | inl (user, admitted) ↦ inr (
      logs_out user,
      (user, authorize-IsAdmitted [] token user s.world admitted, refl),
      rw (auth_request, admitted) refl,
    )
  ]
  auth-IsServed token get_admin_ping s =
      elim (Result-cases (authorize (admin ∷ []) token s.world)) [
        | inr (e, refused) ↦ inl (rw (auth_request, refused) refl)
        | inl (user, admitted) ↦ inl (rw (auth_request, admitted) refl)
      ]

  serve-IsServed :
      (r : AccountRequest k.Text) (s : AuthState p)
      → IsServed r s (serve c normalize local_part k micros router parse_uuid r s)
  unfolding serve account_step
  serve-IsServed (to_auth token r) s = auth-IsServed token r s
  serve-IsServed (to_users token r) s =
      elim (users_request-MayChange k micros router parse_uuid token r s.world) [
        | inl same ↦ inl (rw (serve, same) refl)
        | inr (route, user, picked, by, inl (own, renamed)) ↦ inr (
          renames user.user_id r.name,
          (route, user, picked, by, inl (own, refl)),
          rw (serve, renamed) refl,
        )
        | inr (route, user, picked, by, inr (id, own, is, named, promoted)) ↦ inr (
          promotes r.license_free id r.dto r.driver_id r.now,
          (route, user, picked, by, inr (id, own, is, named, refl)),
          rw (serve, promoted) refl,
        )
      ]

  -- Whatever requests come to the routes of the accounts, in any order and with any tokens, each changes
  -- nothing or does the event that it asks for, one after another: a logout is that of the user of the
  -- request's own token, a rename, by its route, gives that user the name in the request, and a
  -- promotion, by its route, is of the user whose id is in the path; the user of the token is in the
  -- table at that time with a verified email, and for a promotion is an admin there.
  pub serve_all-AreServed :
      (rs : List (AccountRequest k.Text)) (s : AuthState p)
      → AreServed c normalize local_part router parse_uuid rs s
          (serve_all c normalize local_part k micros router parse_uuid rs s)
  unfolding serve_all
  serve_all-AreServed [] s = stays
  serve_all-AreServed (r ∷ rs) s =
      let next = serve c normalize local_part k micros router parse_uuid r s in
      let ending = serve_all c normalize local_part k micros router parse_uuid rs next in
      let rest = serve_all-AreServed rs next in
      let Served =
        λ (x : AuthState p). AreServed c normalize local_part router parse_uuid rs x ending in
      elim (serve-IsServed r s) [
        | inl same ↦ skips_request (subst Served same rest)
        | inr (e, asked, after) ↦ moves_on e asked (subst Served after rest)
      ]
