-- ===== src/Examples/Accounts.antt =====
-- The theorems on the sessions, and on the positions that a socket sends.
use logistics_dispatch.Common.{
  ==_refl, Option, [], arith, err, if◌then◌else◌, is_ok, none, ok, refl, some, true, unauthorized,
  ℕ, ◌==◌, ◌∷◌, ◌≡◌, ◌⊎◌,
}
use logistics_dispatch.Auth.Sessions.{refresh_rotates}
use logistics_dispatch.Auth.Tokens.{
  Crypto, OwnedToken, RefreshKeys, Secret, of_password, of_token, refresh, refresh_ttl,
  verify_refresh_token,
}
use logistics_dispatch.Events.Gateway.{Claims, JoinRoomPayload, handle_driver_location_update}
use logistics_dispatch.Events.Rooms.{location_guarded}
use logistics_dispatch.Examples.{waiting_world}
use logistics_dispatch.Platform.{find}
use logistics_dispatch.Platform.Memory.{memory, signed, table_of}
use logistics_dispatch.Tracking.{handle_location_update}
use logistics_dispatch.Users.Entity.{AuthProvider, User, customer, driver}
use logistics_dispatch.World.{World}

abbrev pub ada : User
ada = record {
  id = 1;
  name = "Ada";
  email = "c@x";
  password_hash = some 5;
  role = customer;
  google_id = none;
  provider = AuthProvider.local;
  is_email_verified = true;
  email_verification_token_hash = none;
  email_verification_expires_at = none;
  email_verified_at = some 3;
  password_reset_token_hash = none;
  password_reset_expires_at = none;
  created_at = 2;
}

abbrev pub account_world : World memory
account_world = record waiting_world { users = table_of ((1, ada) ∷ []) }

-- A hash that is the secret itself.
abbrev content : Secret → ℕ
content (of_token t) = t.secret
content (of_password n) = n

abbrev pub plain : Crypto
plain = record {
  sign = λ x. x.sub;
  hash = λ salt s. content s;
  verify_hash = λ h s. h == content s;
  verify-hash = λ salt s. ==_refl (content s);
}

abbrev old : OwnedToken
old = record { owner = 1; secret = 40 }

abbrev kept : RefreshKeys memory
kept = table_of ((1, record { value = 40; ttl = refresh_ttl }) ∷ [])

ada_found : find account_world.users 1 ≡ some ada
unfolding find
ada_found = refl

old_kept : find kept 1 ≡ some (record { value = 40; ttl = refresh_ttl })
unfolding find
old_kept = refl

refresh_rotates_example :
    let x = refresh plain 9 41 (some old) account_world kept in
    (is_ok x.0 ≡ true)
    × ((verify_refresh_token plain (record { owner = 1; secret = 41 }) x.1).0 ≡ ok 1)
    × (verify_refresh_token plain old x.1 ≡ (err unauthorized, x.1))
refresh_rotates_example =
    refresh_rotates plain 8 9 41 old ada account_world kept ada_found refl refl (omega arith)
      (omega arith) (omega arith) old_kept refl

-- The only valid token, of the driver 3.
abbrev pub driver_claims : Claims
driver_claims = record { sub = some 103; role = some driver; driver_profile_id = some 3 }

abbrev pub only_five : ℕ → Option Claims
only_five t = if t == 5 then some driver_claims else none

abbrev pub asks_for_order : JoinRoomPayload
asks_for_order = record { token = some 5; order_ids = some (7 ∷ []); order_id = none }

location_guarded_example :
    (handle_driver_location_update only_five (some 5) (signed 1) (signed 2) waiting_world
      ≡ waiting_world)
    ⊎ ((t : ℕ) × (claims : Claims) × (d : ℕ) × (some 5 ≡ some t)
        × (only_five t ≡ some claims)
        × (claims.role ≡ some driver)
        × (claims.driver_profile_id ≡ some d)
        × (handle_driver_location_update only_five (some 5) (signed 1) (signed 2) waiting_world
            ≡ (handle_location_update d (signed 1) (signed 2) waiting_world).1))
location_guarded_example = location_guarded only_five (some 5) (signed 1) (signed 2) waiting_world
