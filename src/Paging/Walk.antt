-- ===== src/Paging/Walk.antt =====
-- The pages of a listing, one after another, are the listing.
use logistics_dispatch.Common.{
  All, Bool, Bool-cases, List, [], ap, arith, inl, inr, length, refl, select, some, suc, sym, take,
  true, zero, ℕ, ◌++◌, ◌<◌, ◌∷◌, ◌≡◌, ◌≢◌,
}
use logistics_dispatch.Dispatch.Candidates.{insert_sorted, sort}
use logistics_dispatch.Dispatch.Ranking.{
  IsRanking, IsSorted, insert_sorted-All, sort-All, sort-IsSorted,
}
use logistics_dispatch.Paging.{is_newer, last, listing}

module _ {V : Type 0} where
  -- A page splits the rows at its last one.
  pub record Split (n : ℕ) (xs : List V) : Type 0 where
    pub front : List V
    pub end : V
    pub behind : List V
    pub whole : xs ≡ front ++ end ∷ behind
    pub kept : take n xs ≡ front ++ end ∷ []
    pub ends : last (take n xs) ≡ some end

  pub cut_at : (n : ℕ) (xs : List V) → 0 < n → n < length xs → Split n xs
  cut_at n [] positive few = absurd (omega arith)
  cut_at zero (x ∷ xs) positive few = absurd (omega arith)
  cut_at (suc zero) (x ∷ xs) positive few = record {
    front = [];
    end = x;
    behind = xs;
    whole = refl;
    kept = refl;
    ends = refl;
  }
  cut_at (suc (suc n)) (x ∷ []) positive few = absurd (omega arith)
  cut_at (suc (suc n)) (x ∷ y ∷ xs) positive few =
      let s = cut_at (suc n) (y ∷ xs) (omega arith) (omega arith) in
      record {
        front = x ∷ s.front;
        end = s.end;
        behind = s.behind;
        whole = ap (λ l. x ∷ l) s.whole;
        kept = ap (λ l. x ∷ l) s.kept;
        ends = s.ends;
      }

  pub select-whole :
      (test : V → Bool) (xs : List V) → All (λ x. test x ≡ true) xs → select test xs ≡ xs
  unfolding select
  select-whole test [] all = refl
  select-whole test (x ∷ xs) all = ground (arith, select-whole test xs all.1)

  pub All-select :
      (P : V → Type 0) (test : V → Bool) (xs : List V) → All P xs → All P (select test xs)
  unfolding select
  All-select P test [] all = tt
  All-select P test (x ∷ xs) all = elim (Bool-cases (test x)) [
    | inl passes ↦ rw passes (all.0, All-select P test xs all.1)
    | inr drops ↦ rw drops (All-select P test xs all.1)
  ]

All-trivial : {V : Type 0} (rows : List V) → All (λ v. Unit {0}) rows
All-trivial [] = tt
All-trivial (v ∷ vs) = (tt, All-trivial vs)

module _ {V : Type 0} (micros : V → ℕ) (id_of : V → ℕ) where
  -- No two rows have one id.
  abbrev pub HaveIds : List V → Type 0
  HaveIds [] = Unit
  HaveIds (x ∷ xs) = All (λ y. id_of y ≢ id_of x) xs × HaveIds xs

  is_newer-IsRanking : IsRanking (is_newer micros id_of) (λ v. Unit {0})
  unfolding is_newer
  is_newer-IsRanking = ((λ x y a b h. ground arith), (λ x y z a b c h i. ground arith))

  insert_sorted-HaveIds :
      (x : V) (ys : List V)
      → All (λ y. id_of y ≢ id_of x) ys
      → HaveIds ys
      → HaveIds (insert_sorted (is_newer micros id_of) x ys)
  unfolding insert_sorted
  insert_sorted-HaveIds x [] new h = (tt, tt)
  insert_sorted-HaveIds x (y ∷ ys) new h = elim (Bool-cases (is_newer micros id_of y x)) [
    | inl first ↦ rw first (
      insert_sorted-All (is_newer micros id_of) (λ z. id_of z ≢ id_of y) x ys (λ e. new.0 (sym e))
          h.0,
      insert_sorted-HaveIds x ys new.1 h.1,
    )
    | inr later ↦ rw later (new, h)
  ]

  sort-HaveIds : (xs : List V) → HaveIds xs → HaveIds (sort (is_newer micros id_of) xs)
  unfolding sort
  sort-HaveIds [] h = tt
  sort-HaveIds (x ∷ xs) h =
      insert_sorted-HaveIds x (sort (is_newer micros id_of) xs)
        (sort-All (is_newer micros id_of) (λ y. id_of y ≢ id_of x) xs h.0) (sort-HaveIds xs h.1)

  -- What holds of a listing.
  abbrev pub IsListing : List V → Type 0
  IsListing xs = IsSorted (is_newer micros id_of) xs × HaveIds xs

  select-IsListing : (test : V → Bool) (xs : List V) → IsListing xs → IsListing (select test xs)
  unfolding select
  select-IsListing test [] h = h
  select-IsListing test (x ∷ xs) ((a, s), (b, d)) =
      let (s', d') = select-IsListing test xs (s, d) in
      elim (Bool-cases (test x)) [
        | inl passes ↦ rw passes ((All-select _ test xs a, s'), (All-select _ test xs b, d'))
        | inr drops ↦ rw drops (s', d')
      ]

  pub listing-IsListing :
      (test : V → Bool) (rows : List V) → HaveIds rows → IsListing (listing micros id_of test rows)
  unfolding listing
  listing-IsListing test rows h = select-IsListing test (sort (is_newer micros id_of) rows) (
    sort-IsSorted (is_newer micros id_of) (λ v. Unit {0}) rows is_newer-IsRanking
        (All-trivial rows),
    sort-HaveIds rows h,
  )
