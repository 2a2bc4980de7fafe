-- ===== src/Examples/Users.antt =====
-- The theorems on the routes of the accounts, on requests of the customer 1.
use logistics_dispatch.Common.{
  Exception, List, Option, [], err, find_first, if◌then◌else◌, none, refl, same_text, some, true, ℕ,
  ◌*◌, ◌∷◌, ◌≡◌,
}
use Prim.Native.String.{String}
use logistics_dispatch.Auth.Accounts.Admins.{NoNewAdmin}
use logistics_dispatch.Auth.State.{AuthState}
use logistics_dispatch.Drivers.Entity.{bike}
use logistics_dispatch.Examples.Accounts.{account_world, ada, plain}
use logistics_dispatch.Examples.Http.{ada_token}
use logistics_dispatch.Examples.Listing.{plain_codec}
use logistics_dispatch.Examples.Recovery.{ada_fit, ada_state, bob, draw, tidy, tidy_twice}
use logistics_dispatch.Http.Accounts.{opens, post_logout, post_register}
use logistics_dispatch.Http.Privileges.{serve_all-NoNewAdmin}
use logistics_dispatch.Http.Router.{Router, get, patch, post, serves}
use logistics_dispatch.Http.Served.{
  AccountRequest, AreServed, serve_all, serve_all-AreServed, to_auth, to_users,
}
use logistics_dispatch.Http.UserChanges.{me_never_answers}
use logistics_dispatch.Http.Users.{UsersHandler, UsersRequest, users_request}
use logistics_dispatch.Paging.{Cursor}
use logistics_dispatch.Platform.{find, put, rows_of}
use logistics_dispatch.Platform.Memory.{memory}
use logistics_dispatch.Users.Entity.{User}

abbrev first_match : Router UsersHandler
first_match = record {
  pick = λ rs verb path. find_first (λ r. serves r verb path) rs;
  pick-nil = λ verb path. refl;
  pick-hit = λ r rs verb path hit. rw hit refl;
  pick-miss = λ r rs verb path miss. rw miss refl;
}

-- The only UUID.
abbrev uuid_one : String → Option ℕ
uuid_one s = if same_text s "u-1" then some 1 else none

abbrev micros_of_user : User → ℕ
micros_of_user u = u.created_at * 1000

abbrev asks_me : UsersRequest Cursor
asks_me = record {
  verb = get;
  path = "me" ∷ [];
  limit = 20;
  cursor = none;
  name = "Ada L.";
  dto = record { vehincle_type = bike; license_number = "B 12" };
  license_free = true;
  driver_id = 9;
  now = 60;
}

me_never_answers_example :
    (e : Exception) × (users_request plain_codec micros_of_user first_match uuid_one
        (some ada_token)
        asks_me
        account_world
      ≡ (err e, account_world))
me_never_answers_example =
    me_never_answers plain_codec micros_of_user first_match uuid_one (some ada_token) asks_me
      account_world refl refl refl

-- The customer asks for a rename, for the promotion of the customer, and to be logged out.
abbrev wishes : List (AccountRequest Cursor)
wishes =
    to_users (some ada_token) (record asks_me { verb = patch; path = "me" ∷ "name" ∷ [] })
    ∷ to_users (some ada_token)
        (record asks_me { verb = post; path = "u-1" ∷ "promote-to-driver" ∷ [] })
    ∷ to_auth none (opens (post_register bob 2 6 draw 50))
    ∷ to_auth (some ada_token) post_logout
    ∷ []

abbrev local_part : String → String
local_part e = "c"

abbrev served : AuthState memory
served =
    serve_all plain tidy local_part plain_codec micros_of_user first_match uuid_one wishes ada_state

-- The rename is done, and the promotion is not.
ada_renamed : find served.world.users 1 ≡ some (record ada { name = "Ada L." })
unfolding serve_all find rows_of put
ada_renamed = refl

serve_all-AreServed_example :
    AreServed plain tidy local_part first_match uuid_one wishes ada_state served
serve_all-AreServed_example =
    serve_all-AreServed plain tidy local_part plain_codec micros_of_user first_match uuid_one wishes
      ada_state

serve_all-NoNewAdmin_example : NoNewAdmin ada_state.world.users served.world.users
serve_all-NoNewAdmin_example =
    serve_all-NoNewAdmin plain tidy local_part plain_codec micros_of_user first_match uuid_one
      wishes ada_state tidy_twice ada_fit
