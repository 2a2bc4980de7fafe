-- ===== src/Platform.antt =====
-- What the program uses and does not implement: floating-point numbers, the database's tables and
-- the Redis keys (TypeORM, ioredis), and the job queues (BullMQ). Each is a record of operations with
-- the documented laws that the code relies on.
pub mod Memory
use logistics_dispatch.Common.{
  All, Bool, List, Option, arith, false, if◌then◌else◌, none, some, ℕ, ◌&&◌, ◌==◌, ◌≡◌,
}

-- The ids that the code gives its jobs, `assign-driver:…`, `dispatch-timeout:…:…` and
-- `recalculate-eta:…`.
pub data JobId : Type 0 where
  assign_driver : ℕ → JobId
  dispatch_timeout : ℕ → ℕ → JobId
  recalculate_eta : ℕ → JobId

abbrev pub same_job : JobId → JobId → Bool
same_job (assign_driver a) (assign_driver b) = a == b
same_job (dispatch_timeout a c) (dispatch_timeout b d) = a == b && c == d
same_job (recalculate_eta a) (recalculate_eta b) = a == b
same_job _ _ = false

-- A job as it is added: its payload, and its delay in milliseconds.
pub record Job : Type 0 where
  pub order_id : ℕ
  pub driver_id : Option ℕ
  pub delay : ℕ

-- A value with the seconds for which Redis keeps it.
pub record Expiring (V : Type 0) : Type 0 where
  pub value : V
  pub ttl : ℕ

pub record Platform : Type 1 where
  -- JavaScript numbers, with the functions of `Math`.
  pub Float : Type 0
  pub of_ℕ : ℕ → Float
  pub plus : Float → Float → Float
  pub minus : Float → Float → Float
  pub times : Float → Float → Float
  pub over : Float → Float → Float
  pub sin : Float → Float
  pub cos : Float → Float
  pub sqrt : Float → Float
  pub round : Float → Float
  pub atan2 : Float → Float → Float
  pub pi : Float
  pub negative : Float → Bool
  -- A table by primary key, or the Redis keys with one prefix.
  pub Rows : Type 0 → Type 0
  pub find_row : (V : Type 0) → Rows V → ℕ → Option V
  pub put_row : (V : Type 0) → Rows V → ℕ → V → Rows V
  pub remove_row : (V : Type 0) → Rows V → ℕ → Rows V
  pub all_rows : (V : Type 0) → Rows V → List V
  -- A read sees the last write or deletion under its key.
  pub find-put_row :
      (V : Type 0) (t : Rows V) (k j : ℕ) (v : V)
      → find_row V (put_row V t k v) j ≡ (if k == j then some v else find_row V t j)
  pub find-remove_row :
      (V : Type 0) (t : Rows V) (k j : ℕ)
      → find_row V (remove_row V t k) j ≡ (if k == j then none else find_row V t j)
  -- `find()` returns the rows that can be read by key, all of them.
  pub find-all_rows :
      (V : Type 0) (t : Rows V) (P : V → Type 0)
      → ((k : ℕ) (v : V) → find_row V t k ≡ some v → P v)
      → All P (all_rows V t)
  pub all_rows-find :
      (V : Type 0) (t : Rows V) (P : V → Type 0) (k : ℕ) (v : V)
      → All P (all_rows V t)
      → find_row V t k ≡ some v
      → P v
  -- A BullMQ queue. `add` throws on an id that it does not take, such as one with a colon in it, and a job
  -- with an id that the queue still holds is not added again.
  pub takes_id : JobId → Bool
  pub Jobs : Type 0
  pub find_job : Jobs → JobId → Option Job
  pub insert_job : Jobs → JobId → Job → Jobs
  pub discard_job : Jobs → JobId → Jobs
  pub removable : Jobs → JobId → Bool
  pub insert_job_held :
      (q : Jobs) (i : JobId) (j k : Job) → find_job q i ≡ some k → insert_job q i j ≡ q
  pub find-insert_job :
      (q : Jobs) (i : JobId) (j : Job)
      → find_job q i ≡ none
      → find_job (insert_job q i j) i ≡ some j
  pub find-insert_job_other :
      (q : Jobs) (i k : JobId) (j : Job)
      → same_job i k ≡ false
      → find_job (insert_job q i j) k ≡ find_job q k
  pub find-discard_job :
      (q : Jobs) (i k : JobId)
      → find_job (discard_job q i) k ≡ (if same_job i k then none else find_job q k)

-- A table of the platform `p`.
pub record Table (p : Platform) (V : Type 0) : Type 0 where
  pub rows : p.Rows V

module _ {p : Platform} {V : Type 0} where
  -- `findOneBy({ id })`, and `get` of Redis.
  unfoldable pub find : Table p V → ℕ → Option V
  find t k = p.find_row V t.rows k

  -- `save`, and `set` of Redis.
  unfoldable pub put : Table p V → ℕ → V → Table p V
  put t k v = record { rows = p.put_row V t.rows k v }

  -- `softDelete`, and `del` of Redis.
  unfoldable pub remove : Table p V → ℕ → Table p V
  remove t k = record { rows = p.remove_row V t.rows k }

  -- `find()` with no condition.
  unfoldable pub rows_of : Table p V → List V
  rows_of t = p.all_rows V t.rows

  pub find-put :
      (t : Table p V) (k j : ℕ) (v : V) → find (put t k v) j ≡ (if k == j then some v else find t j)
  unfolding find put
  find-put t k j v = p.find-put_row V t.rows k j v

  pub find-remove :
      (t : Table p V) (k j : ℕ) → find (remove t k) j ≡ (if k == j then none else find t j)
  unfolding find remove
  find-remove t k j = p.find-remove_row V t.rows k j

  -- What holds of every row by key holds of every row that is listed.
  pub find-rows_of :
      (P : V → Type 0) (t : Table p V)
      → ((k : ℕ) (v : V) → find t k ≡ some v → P v)
      → All P (rows_of t)
  unfolding find rows_of
  find-rows_of P t h = p.find-all_rows V t.rows P h

  pub rows_of-find :
      (P : V → Type 0) (t : Table p V) (k : ℕ) (v : V) → All P (rows_of t) → find t k ≡ some v → P v
  unfolding find rows_of
  rows_of-find P t k v all found = p.all_rows-find V t.rows P k v all found

pub record Queue (p : Platform) : Type 0 where
  pub jobs : p.Jobs

module _ {p : Platform} where
  -- `queue.getJob(id)`
  unfoldable pub get_job : Queue p → JobId → Option Job
  get_job q i = p.find_job q.jobs i

  -- `queue.add(name, data, { jobId, delay })`; `takes_id` says whether it throws.
  unfoldable pub add_job : Queue p → JobId → Job → Queue p
  add_job q i j = if p.takes_id i then record { jobs = p.insert_job q.jobs i j } else q

  -- `job.remove()` under a `try` that logs a failure.
  unfoldable pub remove_job : Queue p → JobId → Queue p
  remove_job q i = if p.removable q.jobs i then record { jobs = p.discard_job q.jobs i } else q

  -- An id that is refused leaves the queue as it was.
  pub add_job_refused :
      (q : Queue p) (i : JobId) (j : Job) → p.takes_id i ≡ false → add_job q i j ≡ q
  unfolding add_job
  add_job_refused q i j refused = ground arith
