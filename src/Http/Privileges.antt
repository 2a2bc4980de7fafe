-- ===== src/Http/Privileges.antt =====
-- Nobody becomes an admin through src/auth/controllers/auth.controller.ts and
-- src/users/users.controller.ts.
use logistics_dispatch.Common.{List, Option, [], ℕ, ◌∷◌, ◌≡◌}
use Prim.Native.String.{String}
use logistics_dispatch.Auth.Accounts.{account_step}
use logistics_dispatch.Auth.Accounts.Admins.{
  NoNewAdmin, account_step-NoNewAdmin, same-NoNewAdmin, trans-NoNewAdmin,
}
use logistics_dispatch.Auth.Accounts.Invariant.{account_step-fit}
use logistics_dispatch.Auth.Accounts.Saves.{AccountsFit}
use logistics_dispatch.Auth.State.{AuthState}
use logistics_dispatch.Auth.Tokens.{Crypto}
use logistics_dispatch.Http.Router.{Router}
use logistics_dispatch.Http.Served.{
  AccountRequest, AreServed, moves_on, serve_all, serve_all-AreServed, skips_request, stays,
}
use logistics_dispatch.Http.Users.{UsersHandler}
use logistics_dispatch.Paging.{Codec}
use logistics_dispatch.Platform.{Platform}
use logistics_dispatch.Users.Entity.{User}

module _ {p : Platform} (c : Crypto) (normalize local_part : String → String) {T : Type 0}
    (router : Router UsersHandler) (parse_uuid : String → Option ℕ) where
  AreServed-NoNewAdmin :
      (rs : List (AccountRequest T)) (s after : AuthState p)
      → ((e : String) → normalize (normalize e) ≡ normalize e)
      → AccountsFit c normalize s
      → AreServed c normalize local_part router parse_uuid rs s after
      → NoNewAdmin s.world.users after.world.users
  AreServed-NoNewAdmin [] s _ idem fit stays = same-NoNewAdmin c normalize s.world.users
  AreServed-NoNewAdmin (r ∷ rs) s after idem fit (skips_request rest) =
      AreServed-NoNewAdmin rs s after idem fit rest
  AreServed-NoNewAdmin (r ∷ rs) s after idem fit (moves_on e asked rest) =
      let next = account_step c normalize e s in
      trans-NoNewAdmin c normalize s.world.users next.world.users after.world.users
        (account_step-NoNewAdmin c normalize e s fit)
        (AreServed-NoNewAdmin rs next after idem (account_step-fit c normalize e s idem fit) rest)

module _ {p : Platform} (c : Crypto) (normalize local_part : String → String) (k : Codec)
    (micros : User → ℕ) (router : Router UsersHandler) (parse_uuid : String → Option ℕ) where
  -- If `normalize` is idempotent and the table of users is as it should be, then after any sequence of
  -- requests to the routes of the accounts, with any tokens, who is an admin in the table was one in it
  -- before, under the same id.
  pub serve_all-NoNewAdmin :
      (rs : List (AccountRequest k.Text)) (s : AuthState p)
      → ((e : String) → normalize (normalize e) ≡ normalize e)
      → AccountsFit c normalize s
      → NoNewAdmin s.world.users
          (serve_all c normalize local_part k micros router parse_uuid rs s).world.users
  serve_all-NoNewAdmin rs s idem fit =
      AreServed-NoNewAdmin c normalize local_part router parse_uuid rs s _ idem fit
        (serve_all-AreServed c normalize local_part k micros router parse_uuid rs s)
