-- ===== src/Platform/Memory.antt =====
-- A platform held in memory: it shows that the laws of `Platform` can be met, and the examples run
-- on it. A number is the difference of two naturals, and `sin`, `cos`, `sqrt` and
-- `atan2` are any functions.
use logistics_dispatch.Common.{
  ==→eq, All, Bool, Bool-cases, List, Option, [], arith, false, if◌then◌else◌, inl, inr, ltb, none,
  refl, some, true, ℕ, ◌*◌, ◌+◌, ◌-◌, ◌/◌, ◌==◌, ◌∷◌, ◌≡◌,
}
use logistics_dispatch.Platform.{
  Job, JobId, Platform, Queue, Table, assign_driver, dispatch_timeout, recalculate_eta, same_job,
}
use mathlib.Core.Path.{subst}

module _ {V : Type 0} where
  -- Rows in the order in which they were written.
  abbrev lookup : List (ℕ × V) → ℕ → Option V
  lookup [] j = none
  lookup ((k, v) ∷ t) j = if k == j then some v else lookup t j

  abbrev drop : List (ℕ × V) → ℕ → List (ℕ × V)
  drop [] k = []
  drop ((j, v) ∷ t) k = let rest = drop t k in if j == k then rest else (j, v) ∷ rest

  abbrev cons_known : Option V → List V → List V
  cons_known none vs = vs
  cons_known (some v) vs = v ∷ vs

  -- The rows under the keys of `u`.
  abbrev values : List (ℕ × V) → List (ℕ × V) → List V
  values t [] = []
  values t ((k, v) ∷ u) = cons_known (lookup t k) (values t u)

  cons_known-All :
      (P : V → Type 0) (o : Option V) (vs : List V)
      → ((v : V) → o ≡ some v → P v)
      → All P vs
      → All P (cons_known o vs)
  cons_known-All P none vs h all = all
  cons_known-All P (some v) vs h all = (h v refl, all)

  rest-All : (P : V → Type 0) (o : Option V) (vs : List V) → All P (cons_known o vs) → All P vs
  rest-All P none vs all = all
  rest-All P (some v) vs all = all.1

  pub values-All :
      (t u : List (ℕ × V)) (P : V → Type 0)
      → ((k : ℕ) (v : V) → lookup t k ≡ some v → P v)
      → All P (values t u)
  values-All t [] P h = tt
  values-All t ((k, v) ∷ u) P h =
      cons_known-All P (lookup t k) (values t u) (h k) (values-All t u P h)

  pub lookup-values :
      (t u : List (ℕ × V)) (P : V → Type 0) (k : ℕ) (x v : V)
      → All P (values t u)
      → lookup u k ≡ some x
      → lookup t k ≡ some v
      → P v
  lookup-values t [] P k x v all here found = absurd (cc)
  lookup-values t ((j, y) ∷ u) P k x v all here found = elim (Bool-cases (j == k)) [
    | inl hit ↦
        let same : lookup t j ≡ some v = rw (==→eq j k hit) found in
        let all' : All P (cons_known (some v) (values t u)) =
          subst (λ o. All P (cons_known o (values t u))) same all in
        all'.0
    | inr miss ↦
        lookup-values t u P k x v (rest-All P (lookup t j) (values t u) all) (rw miss at here) found
  ]

  pub lookup-drop :
      (t : List (ℕ × V)) (k j : ℕ) → lookup (drop t k) j ≡ (if k == j then none else lookup t j)
  lookup-drop [] k j = ground arith
  lookup-drop ((i, v) ∷ t) k j = ground (arith, lookup-drop t k j)

  pub lookup-write :
      (t : List (ℕ × V)) (k j : ℕ) (v : V)
      → lookup ((k, v) ∷ drop t k) j ≡ (if k == j then some v else lookup t j)
  lookup-write t k j v = ground (arith, lookup-drop t k j)

abbrev Held : Type 0
Held = List (JobId × Job)

same_job→eq : (i k : JobId) → same_job i k ≡ true → i ≡ k
same_job→eq (assign_driver a) k h = ground arith
same_job→eq (dispatch_timeout a c) k h = ground arith
same_job→eq (recalculate_eta a) k h = ground arith

same_job_refl : (i : JobId) → same_job i i ≡ true
same_job_refl (assign_driver a) = ground arith
same_job_refl (dispatch_timeout a c) = ground arith
same_job_refl (recalculate_eta a) = ground arith

abbrev held_job : Held → JobId → Option Job
held_job [] i = none
held_job ((k, j) ∷ q) i = if same_job k i then some j else held_job q i

abbrev hold : Held → JobId → Job → Held
hold q i j = elim (held_job q i) [ none ↦ (i, j) ∷ q | some _ ↦ q ]

abbrev discard : Held → JobId → Held
discard [] i = []
discard ((k, j) ∷ q) i = let rest = discard q i in if same_job i k then rest else (k, j) ∷ rest

pub hold_held : (q : Held) (i : JobId) (j k : Job) → held_job q i ≡ some k → hold q i j ≡ q
hold_held q i j k h = ground arith

pub held-hold :
    (q : Held) (i : JobId) (j : Job) → held_job q i ≡ none → held_job (hold q i j) i ≡ some j
held-hold q i j h = ground (arith, same_job_refl i)

pub held-hold_other :
    (q : Held) (i k : JobId) (j : Job)
    → same_job i k ≡ false
    → held_job (hold q i j) k ≡ held_job q k
held-hold_other q i k j h = ground arith

pub held-discard :
    (q : Held) (i k : JobId)
    → held_job (discard q i) k ≡ (if same_job i k then none else held_job q k)
held-discard [] i k = ground arith
held-discard ((m, j) ∷ q) i k = ground (
  arith,
  held-discard q i k,
  same_job→eq i m,
  same_job→eq m k,
  same_job→eq i k,
  same_job_refl i,
  same_job_refl k,
)

-- The number `up - down`.
pub record Signed : Type 0 where
  pub up : ℕ
  pub down : ℕ

abbrev pub signed : ℕ → Signed
signed n = record { up = n; down = 0 }

abbrev signed_plus : Signed → Signed → Signed
signed_plus a b = record { up = a.up + b.up; down = a.down + b.down }

abbrev signed_minus : Signed → Signed → Signed
signed_minus a b = record { up = a.up + b.down; down = a.down + b.up }

abbrev signed_times : Signed → Signed → Signed
signed_times a b = record {
  up = a.up * b.up + a.down * b.down;
  down = a.up * b.down + a.down * b.up;
}

abbrev signed_over : Signed → Signed → Signed
signed_over a b = record {
  up = (a.up - a.down) / (b.up - b.down);
  down = (a.down - a.up) / (b.up - b.down);
}

-- The queues in memory take the ids of the orders below 100.
abbrev pub small_id : JobId → Bool
small_id (assign_driver k) = ltb k 100
small_id (dispatch_timeout k d) = ltb k 100
small_id (recalculate_eta k) = ltb k 100

abbrev pub memory : Platform
memory = record {
  Float = Signed;
  of_ℕ = signed;
  plus = signed_plus;
  minus = signed_minus;
  times = signed_times;
  over = signed_over;
  sin = λ x. x;
  cos = λ x. signed 1;
  sqrt = λ x. x;
  round = λ x. x;
  atan2 = λ x y. x;
  pi = signed 3;
  negative = λ x. ltb x.up x.down;
  Rows = λ V. List (ℕ × V);
  find_row = λ V t k. lookup t k;
  put_row = λ V t k v. (k, v) ∷ drop t k;
  remove_row = λ V t k. drop t k;
  all_rows = λ V t. values t t;
  find-put_row = λ V t k j v. lookup-write t k j v;
  find-remove_row = λ V t k j. lookup-drop t k j;
  find-all_rows = λ V t P h. values-All t t P h;
  all_rows-find = λ V t P k v all found. lookup-values t t P k v v all found found;
  Jobs = Held;
  find_job = held_job;
  takes_id = small_id;
  insert_job = hold;
  discard_job = discard;
  removable = λ q i. true;
  insert_job_held = hold_held;
  find-insert_job = held-hold;
  find-insert_job_other = held-hold_other;
  find-discard_job = held-discard;
}

abbrev pub empty_table : {V : Type 0} → Table memory V
empty_table = record { rows = [] }

abbrev pub table_of : {V : Type 0} → List (ℕ × V) → Table memory V
table_of rows = record { rows = rows }

abbrev pub empty_queue : Queue memory
empty_queue = record { jobs = [] }

abbrev pub queue_of : List (JobId × Job) → Queue memory
queue_of jobs = record { jobs = jobs }
