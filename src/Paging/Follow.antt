-- ===== src/Paging/Follow.antt =====
-- The listing that a client of `find_page` sees who follows the cursors.
use logistics_dispatch.Common.{
  All, All-weak, Bool, Bool-cases, List, Option, Result, [], ap, arith, inl, inr, length,
  length-append, ltb, map, none, ok, refl, select, some, suc, sym, true, zero, ℕ, ◌++◌, ◌<◌, ◌∙◌,
  ◌∷◌, ◌≡◌, ◌≤◌,
}
use logistics_dispatch.Dispatch.Candidates.{sort}
use logistics_dispatch.Dispatch.Ranking.{sort-All}
use logistics_dispatch.Paging.{
  Codec, Cursor, Page, decode_cursor, encode_cursor, find_page, is_below, is_newer, listing,
  page_rows, read_cursor,
}
use logistics_dispatch.Paging.Pages.{
  All-end, AreTimed, IsTimed, below_cursor, cursor_of, follow, follow_last, follow_next, inner_page,
  last_page, map-append, page_from,
}
use logistics_dispatch.Paging.Walk.{
  All-select, HaveIds, IsListing, Split, cut_at, listing-IsListing, select-whole,
}
use mathlib.Core.List.{append_assoc}
use mathlib.Core.Path.{subst}

-- A cursor that `encodeCursor` has made passes the checks of `decodeCursor`, which find the time and the
-- id of the row again, if the id is not empty.
pub read-encode :
    {V : Type 0} (k : Codec) (created_at id_of : V → ℕ) (v : V)
    → 0 < id_of v
    → read_cursor k (some (encode_cursor k created_at id_of v))
      ≡ ok (some (cursor_of created_at id_of v))
unfolding read_cursor decode_cursor encode_cursor
read-encode k created_at id_of v named =
    ground (arith, k.parse-encode (cursor_of created_at id_of v) named)

module _ {V W T : Type 0} (micros created_at id_of : V → ℕ) (convert : V → W)
    (read : Option T → Result (Option Cursor)) (encode : V → T) (first : read none ≡ ok none)
    (reads : (v : V)
      → 0 < id_of v
      → read (some (encode v)) ≡ ok (some (cursor_of created_at id_of v))) where
  module _ (test : V → Bool) (limit : ℕ) (some_limit : 0 < limit) (rows : List V) where
    abbrev fetch : Option T → Result (Page W T)
    fetch cursor = find_page micros id_of convert read encode test limit cursor rows

    abbrev whole_listing : List V
    whole_listing = listing micros id_of test rows

    -- The cursor `text` leaves the rows `xs` of the listing.
    abbrev Leaves : Option T → List V → Type 0
    Leaves text xs =
        (c : Option Cursor) × (read text ≡ ok c)
        × (select (is_below micros id_of c) whole_listing ≡ xs)

    fetched :
        (text : Option T) (xs : List V)
        → Leaves text xs
        → fetch text ≡ ok (page_from encode convert limit xs)
    unfolding find_page page_rows
    fetched text xs (c, read, left) = rw (read, left) refl

    -- What a page that is not the last one leaves.
    rest_behind :
        (front xs : List V) (s : Split limit xs)
        → whole_listing ≡ front ++ xs
        → IsListing micros id_of whole_listing
        → AreTimed micros created_at id_of whole_listing
        → All (λ v. 0 < id_of v) whole_listing
        → Leaves (some (encode s.end)) s.behind
    rest_behind front xs s parts sorted whole named =
        let parts' : whole_listing ≡ (front ++ s.front) ++ s.end ∷ s.behind =
          parts
          ∙ ap (λ l. front ++ l) s.whole
          ∙ sym (append_assoc front s.front (s.end ∷ s.behind)) in
        (
          some (cursor_of created_at id_of s.end),
          reads s.end (
              All-end (λ v. 0 < id_of v) (front ++ s.front) s.end s.behind
                (subst (All (λ v. 0 < id_of v)) parts' named)),
          ap (select (is_below micros id_of (some (cursor_of created_at id_of s.end)))) parts'
              ∙ below_cursor micros created_at id_of (front ++ s.front) s.end s.behind
                  (subst (IsListing micros id_of) parts' sorted)
                  (All-end
                    (λ v.
                      All (IsTimed micros created_at id_of v)
                        ((front ++ s.front) ++ s.end ∷ s.behind))
                    (front ++ s.front) s.end s.behind
                    (subst (AreTimed micros created_at id_of) parts' whole)),
        )

    regrouped :
        (front xs : List V) (s : Split limit xs)
        → whole_listing ≡ front ++ xs
        → whole_listing ≡ (front ++ (s.front ++ s.end ∷ [])) ++ s.behind
    regrouped front xs s parts =
        parts
        ∙ ap (λ l. front ++ l) (s.whole ∙ sym (append_assoc s.front (s.end ∷ []) s.behind))
        ∙ sym (append_assoc front (s.front ++ s.end ∷ []) s.behind)

    behind_shorter :
        (xs : List V) (fuel : ℕ) (s : Split limit xs)
        → length xs ≤ suc fuel
        → length s.behind ≤ fuel
    behind_shorter xs fuel s enough =
        omega (arith, ap length s.whole, length-append s.front (s.end ∷ s.behind))

    inner_step :
        (fuel : ℕ) (text : Option T) (xs : List V) (s : Split limit xs)
        → Leaves text xs
        → limit < length xs
        → follow fetch fuel (some (encode s.end)) ≡ map convert s.behind
        → follow fetch (suc fuel) text ≡ map convert xs
    inner_step fuel text xs s left many rest =
        follow_next fetch fuel text _ (encode s.end)
          (fetched text xs left ∙ ap ok (inner_page encode convert limit xs s many)) refl
        ∙ ap (λ l. map convert (s.front ++ s.end ∷ []) ++ l) rest
        ∙ sym (map-append convert (s.front ++ s.end ∷ []) s.behind)
        ∙ ap (map convert) (append_assoc s.front (s.end ∷ []) s.behind ∙ sym s.whole)

    follow-from :
        (fuel : ℕ) (text : Option T) (front xs : List V)
        → whole_listing ≡ front ++ xs
        → Leaves text xs
        → IsListing micros id_of whole_listing
        → AreTimed micros created_at id_of whole_listing
        → All (λ v. 0 < id_of v) whole_listing
        → length xs ≤ fuel
        → follow fetch fuel text ≡ map convert xs
    unfolding follow
    follow-from zero text front [] parts left sorted whole named enough = refl
    follow-from zero text front (x ∷ xs) parts left sorted whole named enough = absurd (omega arith)
    follow-from (suc fuel) text front xs parts left sorted whole named enough =
        elim (Bool-cases (ltb limit (length xs))) [
          | inr few ↦
              follow_last fetch fuel text _
                (fetched text xs left ∙ ap ok (last_page encode convert limit xs (ground arith)))
                refl
          | inl many ↦
              let s = cut_at limit xs some_limit (ground arith) in
              inner_step fuel text xs s left (ground arith) (
                follow-from fuel (some (encode s.end)) (front ++ (s.front ++ s.end ∷ [])) s.behind
                  (regrouped front xs s parts) (rest_behind front xs s parts sorted whole named)
                  sorted whole named (behind_shorter xs fuel s enough))
        ]

    -- The pages one after another.
    pub follow_whole :
        HaveIds micros id_of rows
        → AreTimed micros created_at id_of rows
        → All (λ v. 0 < id_of v) rows
        → follow fetch (length whole_listing) none ≡ map convert whole_listing
    unfolding listing is_below
    follow_whole ids whole named =
        let older = sort-All (is_newer micros id_of) in
        let sorted = sort (is_newer micros id_of) rows in
        follow-from (length whole_listing) none [] whole_listing refl
          (
            none,
            first,
            select-whole (is_below micros id_of none) whole_listing (All-every whole_listing),
          )
          (listing-IsListing micros id_of test rows ids)
          (All-select _ test sorted (
            older _ rows (
              All-weak _ (λ v. All (IsTimed micros created_at id_of v) whole_listing) rows
                (λ v timed. All-select _ test sorted (older _ rows timed)) whole)))
          (All-select _ test sorted (older _ rows named)) (omega arith)
      where
        All-every : (xs : List V) → All (λ x. is_below micros id_of none x ≡ true) xs
        All-every [] = tt
        All-every (x ∷ xs) = (refl, All-every xs)
