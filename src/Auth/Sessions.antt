-- ===== src/Auth/Sessions.antt =====
-- What the refresh tokens of src/auth/services/token.service.ts promise.
use logistics_dispatch.Common.{
  ==_refl, arith, err, false, is_ok, ok, some, true, unauthorized, ℕ, ◌<◌, ◌≡◌,
}
use logistics_dispatch.Auth.Tokens.{
  Crypto, OwnedToken, RefreshKeys, logout, of_token, refresh, refresh_ttl, verify_refresh_token,
}
use logistics_dispatch.Platform.{Platform, find, find-put, find-remove, remove}
use logistics_dispatch.Users.Entity.{JwtUser, User}
use logistics_dispatch.World.{World}

module _ {p : Platform} (c : Crypto) where
  -- A refresh with the token that is kept for a user, whose row stands under its id and whose email is
  -- verified, gives a new pair of tokens; the new refresh token passes the next verification, and the old
  -- one does not, unless its text passes for the new one's under the new hash.
  pub refresh_rotates :
      (salt salt' secret : ℕ) (t : OwnedToken) (u : User) (w : World p) (keys : RefreshKeys p)
      → find w.users t.owner ≡ some u
      → u.id ≡ t.owner
      → u.is_email_verified ≡ true
      → 0 < t.owner
      → 0 < t.secret
      → 0 < secret
      → find keys t.owner ≡ some (record { value = c.hash salt (of_token t); ttl = refresh_ttl })
      → c.verify_hash
          (c.hash salt' (of_token (record { owner = t.owner; secret = secret })))
          (of_token t)
        ≡ false
      → let x = refresh c salt' secret (some t) w keys in
        let new : OwnedToken = record { owner = t.owner; secret = secret } in
        (is_ok x.0 ≡ true)
        × ((verify_refresh_token c new x.1).0 ≡ ok t.owner)
        × (verify_refresh_token c t x.1 ≡ (err unauthorized, x.1))
  unfolding refresh verify_refresh_token
  refresh_rotates salt salt' secret t u w keys found own verified a b d held other =
      let new : OwnedToken = record { owner = t.owner; secret = secret } in
      ground (
        arith,
        c.verify-hash salt (of_token t),
        c.verify-hash salt' (of_token new),
        find-put (remove keys t.owner) t.owner t.owner
            (record { value = c.hash salt' (of_token new); ttl = refresh_ttl }),
        ==_refl t.owner,
      )

  -- After a logout no refresh token of the user passes, and nothing changes when one is tried.
  logout_revokes :
      (user : JwtUser) (t : OwnedToken) (keys : RefreshKeys p)
      → t.owner ≡ user.user_id
      → verify_refresh_token c t (logout user keys) ≡ (err unauthorized, logout user keys)
  unfolding verify_refresh_token logout
  logout_revokes user t keys own =
      ground (arith, find-remove keys user.user_id t.owner, ==_refl user.user_id)

  -- A refresh token that passes the verification does not pass it again.
  verified_once :
      (t : OwnedToken) (keys : RefreshKeys p)
      → is_ok (verify_refresh_token c t keys).0 ≡ true
      → let keys' = (verify_refresh_token c t keys).1 in
        verify_refresh_token c t keys' ≡ (err unauthorized, keys')
  unfolding verify_refresh_token
  verified_once t keys passed = ground (arith, find-remove keys t.owner t.owner, ==_refl t.owner)
