-- ===== src/Paging/Pages.antt =====
-- A client that follows the cursors of the pages sees the listing.
use logistics_dispatch.Common.{
  ==→eq, All, Bool-cases, List, Option, Result, [], ap, arith, err, false, inl, inr, length, ltb,
  map, none, ok, refl, select, some, suc, sym, take, true, zero, ℕ, ◌*◌, ◌++◌, ◌+◌, ◌<◌, ◌==◌, ◌∷◌,
  ◌≡◌, ◌≢◌, ◌≤◌,
}
use logistics_dispatch.Paging.{Cursor, Page, cut_page, is_below, is_newer, map_page}
use logistics_dispatch.Paging.Walk.{IsListing, Split}
use mathlib.Core.Path.{fun_ext}

-- The rows of the pages from a cursor on, at most `fuel` pages of them.
unfoldable pub follow : {W T : Type 0} → (Option T → Result (Page W T)) → ℕ → Option T → List W
follow fetch zero cursor = []
follow fetch (suc fuel) cursor = elim (fetch cursor) [
  | err e ↦ []
  | ok page ↦ elim page.next_cursor [
    | none ↦ page.rows
    | some t ↦ page.rows ++ follow fetch fuel (some t)
  ]
]

module _ {W T : Type 0} (fetch : Option T → Result (Page W T)) (fuel : ℕ) (cursor : Option T)
    (page : Page W T) where
  pub follow_last :
      fetch cursor ≡ ok page → page.next_cursor ≡ none → follow fetch (suc fuel) cursor ≡ page.rows
  unfolding follow
  follow_last e f = ground arith

  pub follow_next :
      (t : T)
      → fetch cursor ≡ ok page
      → page.next_cursor ≡ some t
      → follow fetch (suc fuel) cursor ≡ page.rows ++ follow fetch fuel (some t)
  unfolding follow
  follow_next t e f = ground arith

pub follow-cong :
    {W T : Type 0} (fetch fetch' : Option T → Result (Page W T)) (fuel : ℕ) (cursor : Option T)
    → ((c : Option T) → fetch c ≡ fetch' c)
    → follow fetch fuel cursor ≡ follow fetch' fuel cursor
follow-cong fetch fetch' fuel cursor same = ap (λ f. follow f fuel cursor) (fun_ext same)

module _ {V : Type 0} where
  pub All-end : (P : V → Type 0) (xs : List V) (x : V) (ys : List V) → All P (xs ++ x ∷ ys) → P x
  All-end P [] x ys all = all.0
  All-end P (y ∷ xs) x ys all = All-end P xs x ys all.1

  take-take : (n : ℕ) (xs : List V) → take n (take (suc n) xs) ≡ take n xs
  take-take zero xs = refl
  take-take (suc n) [] = refl
  take-take (suc n) (x ∷ xs) = ap (λ l. x ∷ l) (take-take n xs)

  length-take_more : (n : ℕ) (xs : List V) → ltb n (length (take (suc n) xs)) ≡ ltb n (length xs)
  length-take_more zero [] = refl
  length-take_more zero (x ∷ xs) = ground arith
  length-take_more (suc n) [] = refl
  length-take_more (suc n) (x ∷ xs) = ground (arith, length-take_more n xs)

  take-whole : (n : ℕ) (xs : List V) → length xs ≤ n → take n xs ≡ xs
  take-whole zero [] few = refl
  take-whole zero (x ∷ xs) few = absurd (omega arith)
  take-whole (suc n) [] few = refl
  take-whole (suc n) (x ∷ xs) few = ap (λ l. x ∷ l) (take-whole n xs (omega arith))

pub map-append :
    {V W : Type 0} (f : V → W) (xs ys : List V) → map f (xs ++ ys) ≡ map f xs ++ map f ys
map-append f [] ys = refl
map-append f (x ∷ xs) ys = ap (λ l. f x ∷ l) (map-append f xs ys)

abbrev pub cursor_of : {V : Type 0} → (V → ℕ) → (V → ℕ) → V → Cursor
cursor_of created_at id_of v = record { created_at = created_at v; id = id_of v }

module _ {V : Type 0} (micros created_at id_of : V → ℕ) where
  -- `y` is read with the millisecond of its time, and where that is also the one of another row `x`, both
  -- have times with no part below a millisecond.
  abbrev pub IsTimed : V → V → Type 0
  IsTimed x y =
      (created_at y * 1000 ≤ micros y)
      × (micros y < created_at y * 1000 + 1000)
      × (created_at x ≡ created_at y
          → id_of x ≢ id_of y
          → (micros x ≡ created_at x * 1000) × (micros y ≡ created_at y * 1000))

  abbrev pub AreTimed : List V → Type 0
  AreTimed rows = All (λ x. All (IsTimed x) rows) rows

  behind_below :
      (x y : V)
      → IsTimed x x
      → IsTimed x y
      → is_newer micros id_of y x ≡ false
      → id_of y ≢ id_of x
      → is_below micros id_of (some (cursor_of created_at id_of x)) y ≡ true
  unfolding is_newer is_below
  behind_below x y here timed older other = elim (Bool-cases (created_at x == created_at y)) [
    | inl same ↦ let both = timed.2 (==→eq _ _ same) (λ e. other (sym e)) in ground (arith, both)
    | inr apart ↦ ground arith
  ]

  not_below_self :
      (x : V) → IsTimed x x → is_below micros id_of (some (cursor_of created_at id_of x)) x ≡ false
  unfolding is_below
  not_below_self x here = ground arith

  ahead_not_below :
      (a x : V)
      → IsTimed x x
      → IsTimed x a
      → is_newer micros id_of x a ≡ false
      → id_of x ≢ id_of a
      → is_below micros id_of (some (cursor_of created_at id_of x)) a ≡ false
  unfolding is_newer is_below
  ahead_not_below a x here timed later other = elim (Bool-cases (created_at x == created_at a)) [
    | inl same ↦ let both = timed.2 (==→eq _ _ same) other in ground (arith, both)
    | inr apart ↦ ground arith
  ]

  behind_end :
      (x : V) (ys : List V)
      → IsTimed x x
      → All (IsTimed x) ys
      → All (λ y. is_newer micros id_of y x ≡ false) ys
      → All (λ y. id_of y ≢ id_of x) ys
      → select (is_below micros id_of (some (cursor_of created_at id_of x))) ys ≡ ys
  unfolding is_newer is_below select
  behind_end x [] here timed older new = refl
  behind_end x (y ∷ ys) here timed older new = ground (
    arith,
    behind_end x ys here timed.1 older.1 new.1,
    new.0,
    behind_below x y here timed.0 older.0 new.0,
  )

  -- Below the cursor of a row are the rows behind it.
  pub below_cursor :
      (front : List V) (x : V) (behind : List V)
      → IsListing micros id_of (front ++ x ∷ behind)
      → All (IsTimed x) (front ++ x ∷ behind)
      → select (is_below micros id_of (some (cursor_of created_at id_of x))) (front ++ x ∷ behind)
        ≡ behind
  unfolding select is_below is_newer
  below_cursor [] x behind (sorted, ids) timed =
      ground (arith, behind_end x behind timed.0 timed.1 sorted.0 ids.0, not_below_self x timed.0)
  below_cursor (a ∷ front) x behind (sorted, ids) timed =
      let later = All-end (λ y. is_newer micros id_of y a ≡ false) front x behind sorted.0 in
      let other = All-end (λ y. id_of y ≢ id_of a) front x behind ids.0 in
      let here = All-end (IsTimed x) front x behind timed.1 in
      ground (
        arith,
        below_cursor front x behind (sorted.1, ids.1) timed.1,
        ahead_not_below a x here timed.0 later other,
      )

module _ {V : Type 0} where
  -- The page from `xs` on.
  abbrev pub page_from : {W T : Type 0} → (V → T) → (V → W) → ℕ → List V → Page W T
  page_from encode convert n xs = map_page convert (cut_page encode n (take (n + 1) xs))

  pub last_page :
      {W T : Type 0} (encode : V → T) (convert : V → W) (n : ℕ) (xs : List V)
      → length xs ≤ n
      → page_from encode convert n xs
        ≡ record { rows = map convert xs; next_cursor = none; has_next_page = false }
  unfolding map_page cut_page
  last_page encode convert n xs few =
      let more : n + 1 ≡ suc n = omega arith in
      ground (arith, more, length-take_more n xs, take-whole (suc n) xs (omega arith))

  pub inner_page :
      {W T : Type 0} (encode : V → T) (convert : V → W) (n : ℕ) (xs : List V) (s : Split n xs)
      → n < length xs
      → page_from encode convert n xs ≡ record {
        rows = map convert (s.front ++ s.end ∷ []);
        next_cursor = some (encode s.end);
        has_next_page = true;
      }
  unfolding map_page cut_page
  inner_page encode convert n xs s many =
      let more : n + 1 ≡ suc n = omega arith in
      ground (arith, more, length-take_more n xs, take-take n xs, s.kept, s.ends)

-- What holds of all rows holds of those of a page.
module _ {V : Type 0} (P : V → Type 0) where
  take-All : (n : ℕ) (xs : List V) → All P xs → All P (take n xs)
  take-All zero xs all = tt
  take-All (suc n) [] all = tt
  take-All (suc n) (x ∷ xs) all = (all.0, take-All n xs all.1)

  pub cut_page-All :
      {T : Type 0} (encode : V → T) (n : ℕ) (xs : List V)
      → All P xs
      → All P (cut_page encode n (take (n + 1) xs)).rows
  unfolding cut_page
  cut_page-All encode n xs all = elim (Bool-cases (ltb n (length (take (n + 1) xs)))) [
    | inl many ↦ rw many (take-All n (take (n + 1) xs) (take-All (n + 1) xs all))
    | inr few ↦ rw few (take-All (n + 1) xs all)
  ]
