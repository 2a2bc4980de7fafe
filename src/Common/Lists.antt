-- ===== src/Common/Lists.antt =====
-- Lists over the native numbers: `length`, JavaScript's `includes`, `filter` by a Boolean test, and
-- the elements of a `Set` in the order of insertion.
use Prim.Native.Nat.{ℕ, zero, suc, ◌+◌, ◌≤◌}
use mathlib.Core.Path.{◌≡◌, refl}
use mathlib.Core.Bool.{Bool, true, false, not, ◌&&◌, ◌||◌}
use mathlib.Core.Option.{Option, none, some}
use mathlib.Core.List.{List, [], ◌∷◌, ◌++◌}
use native.Mathlib.Omega.{arith}
use mathlib.Core.Logic.{inl, inr}
use logistics_dispatch.Common.Tests.{Bool-cases, ◌==◌, if◌then◌else◌}

module _ {ℓ} {A : Type ℓ} where
  abbrev pub length : List A → ℕ
  length [] = 0
  length (x ∷ xs) = suc (length xs)

  abbrev pub take : ℕ → List A → List A
  take zero xs = []
  take (suc n) [] = []
  take (suc n) (x ∷ xs) = x ∷ take n xs

  -- `xs.filter(test)`
  unfoldable pub select : (A → Bool) → List A → List A
  select test [] = []
  select test (x ∷ xs) = let rest = select test xs in if test x then x ∷ rest else rest

  -- The first element that passes the test.
  abbrev pub find_first : (A → Bool) → List A → Option A
  find_first test [] = none
  find_first test (x ∷ xs) = let rest = find_first test xs in if test x then some x else rest

  -- A predicate holds of every element.
  abbrev pub All {κ} : (A → Type κ) → List A → Type κ
  All P [] = Unit
  All P (x ∷ xs) = P x × All P xs

  pub All-weak {κ} : (P Q : A → Type κ) (xs : List A) → ((x : A) → P x → Q x) → All P xs → All Q xs
  All-weak P Q [] weak all = tt
  All-weak P Q (x ∷ xs) weak (here, all) = (weak x here, All-weak P Q xs weak all)

  pub All-append {κ} : (P : A → Type κ) (xs ys : List A) → All P xs → All P ys → All P (xs ++ ys)
  All-append P [] ys all more = more
  All-append P (x ∷ xs) ys (here, all) more = (here, All-append P xs ys all more)

  -- The filtered list holds only elements that pass the test, and keeps what held of all.
  pub select-All {κ} :
      (P : A → Type κ) (test : A → Bool) (xs : List A)
      → All P xs
      → All (λ x. P x × (test x ≡ true)) (select test xs)
  unfolding select
  select-All P test [] h = tt
  select-All P test (x ∷ xs) h = ground (arith, select-All P test xs h.1)

  pub select-weak {κ} :
      (test : A → Bool) (P : A → Type κ) (xs : List A)
      → All P (select test xs)
      → All (λ x. test x ≡ true → P x) xs
  unfolding select
  select-weak test P [] all = tt
  select-weak test P (x ∷ xs) all = elim (Bool-cases (test x)) [
    | inl passes ↦
        let both : All P (x ∷ select test xs) = rw passes at all in
        (λ e. both.0, select-weak test P xs both.1)
    | inr drops ↦ (λ e. absurd (cc), select-weak test P xs (rw drops at all))
  ]

  pub find_first-All {κ} :
      (P : A → Type κ) (test : A → Bool) (xs : List A) (x : A)
      → All P xs
      → find_first test xs ≡ some x
      → P x × (test x ≡ true)
  find_first-All P test [] x all h = absurd (cc)
  find_first-All P test (y ∷ ys) x all h = ground (arith, find_first-All P test ys x all.1)

  pub find_first-none :
      (test : A → Bool) (xs : List A) → find_first test xs ≡ none → All (λ x. test x ≡ false) xs
  find_first-none test [] e = tt
  find_first-none test (x ∷ xs) e = ground (arith, find_first-none test xs)

  pub length-select-le : (test : A → Bool) (xs : List A) → length (select test xs) ≤ length xs
  unfolding select
  length-select-le test [] = omega arith
  length-select-le test (x ∷ xs) = ground (arith, length-select-le test xs)

  pub length-append : (xs ys : List A) → length (xs ++ ys) ≡ length xs + length ys
  length-append [] ys = omega arith
  length-append (x ∷ xs) ys = omega (arith, length-append xs ys)

  pub length-take-le : (n : ℕ) (xs : List A) → length (take n xs) ≤ n
  length-take-le zero xs = omega arith
  length-take-le (suc n) [] = omega arith
  length-take-le (suc n) (x ∷ xs) = omega (arith, length-take-le n xs)

-- `xs.includes(x)` on identifiers.
abbrev pub includes : List ℕ → ℕ → Bool
includes [] x = false
includes (y ∷ ys) x = y == x || includes ys x

pub includes-append :
    (xs ys : List ℕ) (x : ℕ) → includes (xs ++ ys) x ≡ (includes xs x || includes ys x)
includes-append [] ys x = refl
includes-append (z ∷ xs) ys x = ground (arith, includes-append xs ys x)

-- `[...new Set(xs)]`
unfoldable pub to_set : List ℕ → List ℕ
to_set [] = []
to_set (x ∷ xs) = x ∷ select (λ y. not (y == x)) (to_set xs)

includes-select :
    (z x : ℕ) (xs : List ℕ)
    → includes (select (λ y. not (y == z)) xs) x ≡ (not (x == z) && includes xs x)
unfolding select
includes-select z x [] = ground arith
includes-select z x (y ∷ ys) = ground (arith, includes-select z x ys)

pub includes-to_set : (xs : List ℕ) (x : ℕ) → includes (to_set xs) x ≡ includes xs x
unfolding to_set
includes-to_set [] x = refl
includes-to_set (y ∷ ys) x = ground (arith, includes-select y x (to_set ys), includes-to_set ys x)
