-- ===== src/Users/Listing.antt =====
-- src/users/users.service.ts: `findAll`. A cursor is `<time>_<id>` in Base64; one that has no such form
-- reaches the database, which refuses it. `micros` is as in the listing of orders.
use logistics_dispatch.Common.{
  All, Bool-cases, List, Option, Result, arith, err, false, if◌then◌else◌, inl, inr, internal,
  length, ltb, map, none, ok, refl, select, some, take, true, ℕ, ◌<◌, ◌>>=◌, ◌∙◌, ◌∷◌, ◌≡◌,
}
use logistics_dispatch.Paging.{
  Codec, Cursor, Page, cut_page, decode_cursor, encode_cursor, find_page, is_below, last, listing,
  map_page, page_rows,
}
use logistics_dispatch.Paging.Follow.{follow_whole}
use logistics_dispatch.Paging.Pages.{AreTimed, cursor_of, follow, follow-cong}
use logistics_dispatch.Paging.Walk.{HaveIds, cut_at}
use logistics_dispatch.Platform.{Platform, rows_of}
use logistics_dispatch.Users.Entity.{User}
use logistics_dispatch.Users.Service.{UserResponse, to_user_response}
use logistics_dispatch.World.{World}

unfoldable pub split_cursor : (k : Codec) → Option k.Text → Result (Option Cursor)
unfolding decode_cursor
split_cursor k none = ok none
split_cursor k (some text) = elim (decode_cursor k text) [
  | ok c ↦ ok (some c)
  | err e ↦ err internal
]

-- The page, where the cursor of no user is an error of the server.
unfoldable pub cut_users : {T : Type 0} → (User → T) → ℕ → List User → Result (Page UserResponse T)
cut_users encode limit rows =
    if ltb limit (length rows)
    then elim (last (take limit rows)) [
      | none ↦ err internal
      | some u ↦ ok (record {
        rows = map to_user_response (take limit rows);
        next_cursor = some (encode u);
        has_next_page = true;
      })
    ]
    else ok (record { rows = map to_user_response rows; next_cursor = none; has_next_page = false })

cut_users-cut_page :
    {T : Type 0} (encode : User → T) (limit : ℕ) (rows : List User)
    → 0 < limit
    → cut_users encode limit rows ≡ ok (map_page to_user_response (cut_page encode limit rows))
unfolding cut_users cut_page map_page
cut_users-cut_page encode limit rows positive = elim (Bool-cases (ltb limit (length rows))) [
  | inl many ↦ let s = cut_at limit rows positive (ground arith) in ground (arith, s.ends)
  | inr few ↦ ground arith
]

bind-cong :
    {A B : Type 0} (m : Result A) (f g : A → Result B)
    → ((a : A) → f a ≡ g a)
    → (m >>= f) ≡ (m >>= g)
bind-cong (ok a) f g same = same a
bind-cong (err e) f g same = refl

split-encode :
    (k : Codec) (u : User)
    → 0 < u.id
    → split_cursor k (some (encode_cursor k (λ v. v.created_at) (λ v. v.id) u))
      ≡ ok (some (cursor_of (λ v. v.created_at) (λ v. v.id) u))
unfolding split_cursor decode_cursor encode_cursor
split-encode k u named =
    ground (arith, k.parse-encode (cursor_of (λ v. v.created_at) (λ v. v.id) u) named)

module _ {p : Platform} (k : Codec) (micros : User → ℕ) where
  unfoldable pub find_all : ℕ → Option k.Text → World p → Result (Page UserResponse k.Text)
  unfolding split_cursor cut_users page_rows encode_cursor
  find_all limit cursor w = do
    c ← split_cursor k cursor
    cut_users (encode_cursor k (λ u. u.created_at) (λ u. u.id)) limit
        (page_rows micros (λ u. u.id) (λ u. true) c limit (rows_of w.users))

  -- The service does not guard the limit: with the limit 0, the first page of a table that has any user
  -- is an error of the server.
  zero_limit_fails :
      (u : User) (us : List User) (w : World p)
      → listing micros (λ v. v.id) (λ v. true) (rows_of w.users) ≡ u ∷ us
      → find_all 0 none w ≡ err internal
  unfolding find_all is_below select
  zero_limit_fails u us w some_user = rw some_user refl

  -- With a limit that is not 0, the pages of users one after another, as for the orders.
  follow-find_all :
      (limit : ℕ) (w : World p)
      → 0 < limit
      → HaveIds micros (λ u. u.id) (rows_of w.users)
      → AreTimed micros (λ u. u.created_at) (λ u. u.id) (rows_of w.users)
      → All (λ u. 0 < u.id) (rows_of w.users)
      → let users = listing micros (λ u. u.id) (λ u. true) (rows_of w.users) in
        follow (λ c. find_all limit c w) (length users) none ≡ map to_user_response users
  unfolding find_all split_cursor find_page
  follow-find_all limit w positive ids whole named =
      let encode = encode_cursor k (λ (u : User). u.created_at) (λ u. u.id) in
      follow-cong _ _ (length (listing micros (λ u. u.id) (λ u. true) (rows_of w.users))) none (λ c.
        bind-cong (split_cursor k c) _ _ (λ d.
          cut_users-cut_page encode limit
            (page_rows micros (λ u. u.id) (λ u. true) d limit (rows_of w.users)) positive))
      ∙ follow_whole micros (λ u. u.created_at) (λ u. u.id) to_user_response (split_cursor k) encode
          refl (split-encode k) (λ u. true) limit positive (rows_of w.users) ids whole named
