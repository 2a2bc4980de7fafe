-- ===== src/Auth/Login.antt =====
-- src/auth/services/auth.service.ts: `login` and `loginWithGoogle`.
use logistics_dispatch.Common.{
  Bool, Option, Result, conflict, err, find_first, if◌then◌else◌, is_id, none, not, ok, same_text,
  some, throw_if, true, unauthorized, ℕ, ◌>>◌, ◌||◌,
}
use Prim.Native.String.{String}
use logistics_dispatch.Auth.State.{AuthState, find_user_by_email, save_user, set_world, sign_in}
use logistics_dispatch.Auth.Tokens.{AuthResponse, Crypto, of_password}
use logistics_dispatch.Platform.{Platform, rows_of}
use logistics_dispatch.Users.Entity.{AuthProvider, User, customer, provider_eq}
use logistics_dispatch.World.{World}

-- `GoogleAuthUser`
pub record GoogleAuthUser : Type 0 where
  pub google_id : ℕ
  pub email : String
  pub name : String
  pub email_verified : Bool

-- The row of a user whom Google has named for the first time.
unfoldable pub new_google_user : ℕ → GoogleAuthUser → String → ℕ → User
new_google_user id g email now = record {
  id = id;
  name = g.name;
  email = email;
  password_hash = none;
  role = customer;
  google_id = some g.google_id;
  provider = AuthProvider.google;
  is_email_verified = true;
  email_verification_token_hash = none;
  email_verification_expires_at = none;
  email_verified_at = some now;
  password_reset_token_hash = none;
  password_reset_expires_at = none;
  created_at = now;
}

-- The row of a user with another Google account who had the email.
unfoldable pub linked : GoogleAuthUser → ℕ → User → User
linked g now u = record u {
  google_id = some g.google_id;
  provider = AuthProvider.google;
  name = if same_text g.name "" then u.name else g.name;
  is_email_verified = true;
  email_verified_at = some (elim u.email_verified_at [ none ↦ now | some t ↦ t ]);
}

module _ (c : Crypto) where
  -- The checks of `login` on the user whom the email names.
  unfoldable pub check_login : Option ℕ → ℕ → User → Result (Unit {0})
  check_login none password u = err unauthorized
  check_login (some kept) password u = do
    throw_if (not (provider_eq u.provider AuthProvider.local)) unauthorized
    throw_if (not (c.verify_hash kept (of_password password))) unauthorized
    throw_if (not u.is_email_verified) unauthorized

module _ {p : Platform} (c : Crypto) where
  unfoldable pub login_checked :
      Result (Unit {0}) → ℕ → ℕ → User → AuthState p → Result AuthResponse × AuthState p
  unfolding sign_in
  login_checked (err e) salt secret u s = (err e, s)
  login_checked (ok checked) salt secret u s = sign_in c salt secret u s

  -- Saves the row, and signs in.
  unfoldable pub enter : ℕ → ℕ → User → AuthState p → Result AuthResponse × AuthState p
  unfolding sign_in
  enter salt secret u s = sign_in c salt secret u (set_world (save_user u s.world) s)

module _ {p : Platform} where
  -- `findOneBy({ googleId })`
  abbrev pub find_user_by_google : ℕ → World p → Option User
  find_user_by_google google_id w = find_first (λ u. is_id u.google_id google_id) (rows_of w.users)

module _ {p : Platform} (c : Crypto) (normalize : String → String) where
  unfoldable pub login : String → ℕ → ℕ → ℕ → AuthState p → Result AuthResponse × AuthState p
  unfolding check_login login_checked
  login email password salt secret s = elim (find_user_by_email (normalize email) s.world) [
    | none ↦ (err unauthorized, s)
    | some u ↦ login_checked c (check_login c u.password_hash password u) salt secret u s
  ]

  unfoldable pub enter_by_email :
      GoogleAuthUser → ℕ → ℕ → ℕ → ℕ → AuthState p → Result AuthResponse × AuthState p
  unfolding enter linked new_google_user
  enter_by_email g id now salt secret s = elim (find_user_by_email (normalize g.email) s.world) [
    | none ↦ enter c salt secret (new_google_user id g (normalize g.email) now) s
    | some u ↦
        if provider_eq u.provider AuthProvider.local
        then (err conflict, s)
        else enter c salt secret (linked g now u) s
  ]

  unfoldable pub login_with_google :
      GoogleAuthUser → ℕ → ℕ → ℕ → ℕ → AuthState p → Result AuthResponse × AuthState p
  unfolding enter_by_email sign_in
  login_with_google g id now salt secret s =
      if not g.email_verified
      then (err unauthorized, s)
      else elim (find_user_by_google g.google_id s.world) [
        | none ↦ enter_by_email g id now salt secret s
        | some u ↦ sign_in c salt secret u s
      ]

-- What passport tells of a user's Google account.
pub record Profile : Type 0 where
  pub id : ℕ
  pub display_name : String
  pub first_email : Option String
  pub first_email_verified : Bool
  pub json_email_verified : Bool

-- `GoogleStrategy.validate`, where `local_part` is the text before the first `@`.
unfoldable pub validate_google :
    (String → String) → (String → String) → Profile → Result GoogleAuthUser
validate_google normalize local_part profile = elim profile.first_email [
  | none ↦ err unauthorized
  | some text ↦
      let email = normalize text in
      if same_text email ""
      then err unauthorized
      else ok (record {
        google_id = profile.id;
        email = email;
        name = if same_text profile.display_name "" then local_part email else profile.display_name;
        email_verified = profile.json_email_verified || profile.first_email_verified;
      })
]
