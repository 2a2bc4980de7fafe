-- ===== src/Dispatch/Ranking.antt =====
-- The candidates of `findNearestEligibleDrivers` (src/dispatch/dispatch.service.ts): who they are, and
-- in which order.
use logistics_dispatch.Common.{
  All, All-weak, Bool, Bool-cases, List, [], arith, false, inl, inr, is_known, select, select-All,
  select-weak, some, sym, true, ℕ, ◌&&◌, ◌∷◌, ◌≡◌,
}
use logistics_dispatch.Dispatch.Candidates.{
  drivers_in_reach, find_nearest_eligible_drivers, insert_sorted, is_eligible, is_nearer,
  pickup_distance, sort,
}
use logistics_dispatch.Drivers.Entity.{Driver}
use logistics_dispatch.Orders.Entity.{Order}
use logistics_dispatch.Paging.{last}
use logistics_dispatch.Platform.{Platform, find, find-rows_of, rows_of, rows_of-find}
use logistics_dispatch.World.{World}
use mathlib.Core.Path.{subst}

module _ {ℓ} {A : Type 0} (before : A → A → Bool) where
  pub insert_sorted-All :
      (P : A → Type ℓ) (x : A) (ys : List A) → P x → All P ys → All P (insert_sorted before x ys)
  unfolding insert_sorted
  insert_sorted-All P x [] h all = (h, tt)
  insert_sorted-All P x (y ∷ ys) h all = elim (Bool-cases (before y x)) [
    | inl first ↦ rw first (all.0, insert_sorted-All P x ys h all.1)
    | inr last ↦ rw last (h, all)
  ]

  pub sort-All : (P : A → Type ℓ) (xs : List A) → All P xs → All P (sort before xs)
  unfolding sort
  sort-All P [] all = tt
  sort-All P (x ∷ xs) all = insert_sorted-All P x (sort before xs) all.0 (sort-All P xs all.1)

  All-insert_sorted :
      (P : A → Type ℓ) (x : A) (ys : List A) → All P (insert_sorted before x ys) → P x × All P ys
  unfolding insert_sorted
  All-insert_sorted P x [] all = all
  All-insert_sorted P x (y ∷ ys) all = elim (Bool-cases (before y x)) [
    | inl first ↦
        let (here, rest) = rw first at all in
        let (a, b) = All-insert_sorted P x ys rest in (a, (here, b))
    | inr last ↦ rw last at all
  ]

  pub All-sort : (P : A → Type ℓ) (xs : List A) → All P (sort before xs) → All P xs
  unfolding sort
  All-sort P [] all = tt
  All-sort P (x ∷ xs) all =
      let (a, b) = All-insert_sorted P x (sort before xs) all in (a, All-sort P xs b)

module _ {A : Type 0} (before : A → A → Bool) where
  -- No later element comes before an earlier one.
  abbrev pub IsSorted : List A → Type 0
  IsSorted [] = Unit
  IsSorted (x ∷ xs) = All (λ y. before y x ≡ false) xs × IsSorted xs

  -- Among the elements with `Q`, the comparison is that of a number that each has.
  abbrev pub IsRanking : (A → Type 0) → Type 0
  IsRanking Q =
      ((x y : A) → Q x → Q y → before x y ≡ true → before y x ≡ false)
      × ((x y z : A)
          → Q x
          → Q y
          → Q z
          → before y x ≡ false
          → before z y ≡ false
          → before z x ≡ false)

  module _ (Q : A → Type 0) where
    pub not_before_self : IsRanking Q → (x : A) → Q x → before x x ≡ false
    not_before_self r x q = ground (arith, r.0 x x q q)

    behind_first :
        (x y : A) (ys : List A)
        → IsRanking Q
        → Q x
        → Q y
        → before y x ≡ false
        → All Q ys
        → All (λ z. before z y ≡ false) ys
        → All (λ z. before z x ≡ false) ys
    behind_first x y [] r qx qy last qs h = tt
    behind_first x y (z ∷ zs) r qx qy last (qz, qs) (k, h) =
        (r.1 x y z qx qy qz last k, behind_first x y zs r qx qy last qs h)

    insert_sorted-IsSorted :
        (x : A) (ys : List A)
        → IsRanking Q
        → Q x
        → All Q ys
        → IsSorted ys
        → IsSorted (insert_sorted before x ys)
    unfolding insert_sorted
    insert_sorted-IsSorted x [] r q qs h = (tt, tt)
    insert_sorted-IsSorted x (y ∷ ys) r q qs h = elim (Bool-cases (before y x)) [
      | inl first ↦ rw first (
        insert_sorted-All before (λ z. before z y ≡ false) x ys (r.0 y x qs.0 q first) h.0,
        insert_sorted-IsSorted x ys r q qs.1 h.1,
      )
      | inr last ↦ rw last ((last, behind_first x y ys r q qs.0 last qs.1 h.0), h)
    ]

    pub sort-IsSorted : (xs : List A) → IsRanking Q → All Q xs → IsSorted (sort before xs)
    unfolding sort
    sort-IsSorted [] r qs = tt
    sort-IsSorted (x ∷ xs) r qs =
        insert_sorted-IsSorted x (sort before xs) r qs.0 (sort-All before Q xs qs.1)
          (sort-IsSorted xs r qs.1)

module _ {p : Platform} (o : Order p.Float) (w : World p) where
  -- A driver in the table who fits the order.
  abbrev pub IsFitting : Driver p.Float → Type 0
  IsFitting d = (k : ℕ) × (find w.drivers k ≡ some d) × (is_eligible o d ≡ true)

  in_reach-IsFitting : All IsFitting (drivers_in_reach o w)
  in_reach-IsFitting =
      let Stands = λ (d : Driver p.Float). (k : ℕ) × (find w.drivers k ≡ some d) in
      let stand = find-rows_of Stands w.drivers (λ k d e. (k, e)) in
      let fit =
        All-weak _ IsFitting _ (λ d h. (h.0.0, h.0.1, h.1))
          (select-All Stands (is_eligible o) (rows_of w.drivers) stand) in
      All-weak _ IsFitting _ (λ d h. h.0)
        (select-All IsFitting (λ d. is_known d.current_latitude && is_known d.current_longitude)
          (select (is_eligible o) (rows_of w.drivers)) fit)

  candidates-IsFitting : All IsFitting (find_nearest_eligible_drivers o w)
  unfolding find_nearest_eligible_drivers
  candidates-IsFitting =
      sort-All (is_nearer p o) IsFitting (drivers_in_reach o w) in_reach-IsFitting

  -- Where the distances of the drivers who fit can be compared, no candidate is nearer than one before.
  pub candidates-IsSorted :
      IsRanking (is_nearer p o) IsFitting
      → IsSorted (is_nearer p o) (find_nearest_eligible_drivers o w)
  unfolding find_nearest_eligible_drivers
  candidates-IsSorted r =
      sort-IsSorted (is_nearer p o) IsFitting (drivers_in_reach o w) r in_reach-IsFitting

  -- Every driver who fits is a candidate: what holds of all candidates holds of that driver.
  pub eligible-candidate :
      (P : Driver p.Float → Type 0) (k : ℕ) (d : Driver p.Float)
      → find w.drivers k ≡ some d
      → is_eligible o d ≡ true
      → All P (find_nearest_eligible_drivers o w)
      → P d
  unfolding find_nearest_eligible_drivers is_eligible
  eligible-candidate P k d found fits all =
      let listed = select-weak _ P _ (All-sort (is_nearer p o) P (drivers_in_reach o w) all) in
      let drivers = select-weak (is_eligible o) _ (rows_of w.drivers) listed in
      rows_of-find (λ x. is_eligible o x ≡ true → _ → P x) w.drivers k d drivers found fits
        (ground (arith, fits))

  -- If the comparison of the distances ranks the drivers of the table who fit the order, as it does where
  -- none of these distances is NaN, then none of these drivers is nearer to the order's pickup than the
  -- first candidate.
  pub first_candidate_nearest :
      (c : Driver p.Float) (cs : List (Driver p.Float)) (k : ℕ) (d : Driver p.Float)
      → IsRanking (is_nearer p o) IsFitting
      → find_nearest_eligible_drivers o w ≡ c ∷ cs
      → find w.drivers k ≡ some d
      → is_eligible o d ≡ true
      → p.negative (p.minus (pickup_distance p o d) (pickup_distance p o c)) ≡ false
  unfolding is_nearer
  first_candidate_nearest c cs k d r e found fits =
      let sorted : IsSorted (is_nearer p o) (c ∷ cs) =
        subst (IsSorted (is_nearer p o)) e (candidates-IsSorted r) in
      let fitting : All IsFitting (c ∷ cs) = subst (All IsFitting) e candidates-IsFitting in
      eligible-candidate (λ x. is_nearer p o x c ≡ false) k d found fits
        (subst (All (λ x. is_nearer p o x c ≡ false)) (sym e)
          (not_before_self (is_nearer p o) IsFitting r c fitting.0, sorted.0))
