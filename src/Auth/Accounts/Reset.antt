-- ===== src/Auth/Accounts/Reset.antt =====
-- A forgotten password (src/auth/services/auth.service.ts).
use logistics_dispatch.Common.{
  ==_refl, arith, err, false, is_ok, none, ok, refl, some, true, unauthorized, ℕ, ◌+◌, ◌<◌, ◌∙◌,
  ◌≡◌, ◌≤◌,
}
use Prim.Native.String.{String}
use logistics_dispatch.Auth.Accounts.Entry.{login_right, login_wrong}
use logistics_dispatch.Auth.Accounts.Rows.{UsersFit, find_user_by_email-row}
use logistics_dispatch.Auth.Accounts.Saves.{Resaved-fit, forgot-Resaved, reset-Resaved}
use logistics_dispatch.Auth.Login.{login}
use logistics_dispatch.Auth.Passwords.{forgot_password, reset_password, with_password, with_reset}
use logistics_dispatch.Auth.State.{AuthState, Draw, find_user_by_email, token_ttl_ms}
use logistics_dispatch.Auth.Tokens.{Crypto, OwnedToken, of_password, of_token}
use logistics_dispatch.Http.Routes.{done}
use logistics_dispatch.Platform.{Platform, find, find-put}
use logistics_dispatch.Users.Entity.{AuthProvider, User}

module _ {p : Platform} (c : Crypto) (normalize : String → String) where
  -- The row after `forgotPassword`.
  forgotten_row :
      (email : String) (d : Draw) (now : ℕ) (u : User) (s : AuthState p)
      → UsersFit normalize s.world.users
      → find s.world.users u.id ≡ some u
      → normalize email ≡ u.email
      → u.provider ≡ AuthProvider.local
      → (find (forgot_password c normalize email d now s).world.users u.id
          ≡ some (with_reset c d.salt (record { owner = u.id; secret = d.secret }) now u))
        × ((forgot_password c normalize email d now s).keys ≡ s.keys)
  unfolding forgot_password
  forgotten_row email d now u s fit found mail mine =
      let t : OwnedToken = record { owner = u.id; secret = d.secret } in
      let r = with_reset c d.salt t now u in
      let hit : find_user_by_email (normalize email) s.world ≡ some u =
        rw mail (find_user_by_email-row normalize s.world u.id u fit found) in
      (ground (arith, hit, find-put s.world.users u.id u.id r, ==_refl u.id), ground (arith, hit))

  -- The row after `resetPassword` with a token that is kept and in time.
  reset_row :
      (t : OwnedToken) (kept_salt salt password expires now : ℕ) (u : User) (s : AuthState p)
      → find s.world.users t.owner ≡ some u
      → u.id ≡ t.owner
      → 0 < t.owner
      → u.password_reset_token_hash ≡ some (c.hash kept_salt (of_token t))
      → u.password_reset_expires_at ≡ some expires
      → now ≤ expires
      → let x = reset_password c (some t) salt password now s in
        (x.0 ≡ ok tt)
        × (find x.1.world.users t.owner
            ≡ some (with_password (c.hash salt (of_password password)) u))
        × (x.1.keys ≡ s.keys)
  unfolding reset_password
  reset_row t kept_salt salt password expires now u s found own positive kept until early = ground (
    arith,
    c.verify-hash kept_salt (of_token t),
    find-put s.world.users u.id t.owner (with_password (c.hash salt (of_password password)) u),
    ==_refl t.owner,
  )

  -- A used token does not pass again.
  reset_used :
      (t : OwnedToken) (salt password now : ℕ) (u : User) (s : AuthState p)
      → find s.world.users t.owner ≡ some u
      → u.password_reset_token_hash ≡ none
      → reset_password c (some t) salt password now s ≡ (err unauthorized, s)
  unfolding reset_password
  reset_used t salt password now u s found used = ground arith

  -- What `forgotPassword` by the email and then `resetPassword` with the mailed token leave behind: the
  -- new password, and no old one, gets in, the token is used up, and the sessions stay as they were.
  abbrev pub ResetReplaces :
      String → ℕ → ℕ → ℕ → OwnedToken → ℕ → ℕ → AuthState p → AuthState p → Type 0
  ResetReplaces email old new later t salt secret s x =
      (is_ok (login c normalize email new salt secret x).0 ≡ true)
      × (login c normalize email old salt secret x ≡ (err unauthorized, x))
      × (reset_password c (some t) salt new later x ≡ (err unauthorized, x))
      × (x.keys ≡ s.keys)

  -- If the table of users is as it should be, and a verified user with a password login asks for a reset
  -- by any spelling of the email, then the mailed token resets the password up to ten minutes later.
  -- After that the new password gets in; the old one does not, unless its hash passes for the new one's;
  -- the token does not pass again; and the refresh tokens that were given before are all still kept.
  pub reset_replaces :
      (email : String) (d : Draw) (old new new_salt now later salt secret : ℕ) (u : User)
      (s : AuthState p)
      → UsersFit normalize s.world.users
      → find s.world.users u.id ≡ some u
      → 0 < u.id
      → normalize email ≡ u.email
      → u.provider ≡ AuthProvider.local
      → u.is_email_verified ≡ true
      → c.verify_hash (c.hash new_salt (of_password new)) (of_password old) ≡ false
      → later ≤ now + token_ttl_ms
      → let t : OwnedToken = record { owner = u.id; secret = d.secret } in
        let x =
          reset_password c
            (some t)
            new_salt
            new
            later
            (forgot_password c normalize email d now s) in
        (x.0 ≡ ok tt) × ResetReplaces email old new later t salt secret s x.1
  unfolding with_reset with_password
  reset_replaces email d old new new_salt now later salt secret u s fit found positive mail mine
        known other early =
      let t : OwnedToken = record { owner = u.id; secret = d.secret } in
      let h = c.hash new_salt (of_password new) in
      let forgot = forgot_password c normalize email d now s in
      let x = (reset_password c (some t) new_salt new later forgot).1 in
      let r = with_password h (with_reset c d.salt t now u) in
      let (row, same) = forgotten_row email d now u s fit found mail mine in
      let (done, row', same') =
        reset_row t d.salt new_salt new (now + token_ttl_ms) later (with_reset c d.salt t now u)
          forgot row refl positive refl refl early in
      let fit' =
        Resaved-fit c normalize forgot.world x.world
          (reset-Resaved c normalize (some t) new_salt new later forgot)
          (Resaved-fit c normalize s.world forgot.world
            (forgot-Resaved c normalize email d now s fit) fit) in
      (
        done,
        (
          login_right c normalize email new u.id h salt secret r x fit' row' mail refl
              (c.verify-hash new_salt (of_password new)) mine known,
          login_wrong c normalize email old u.id h salt secret r x fit' row' mail refl other,
          reset_used t salt new later r x row' refl,
          same' ∙ same,
        ),
      )
