-- ===== src/Examples/Throttle.antt =====
-- The theorems on the throttles, on a Redis whose keys are a function.
use logistics_dispatch.Common.{
  Option, Option-cases, [], arith, if◌then◌else◌, inl, inr, none, refl, some, true, ℕ, ◌+◌, ◌<◌,
  ◌∷◌, ◌≡◌, ◌≢◌, ◌≤◌,
}
use logistics_dispatch.Throttler.Blocks.{block_lasts}
use logistics_dispatch.Throttler.Redis.{
  Kept, Redis, ThrottleKey, bump, count_key, expire_at, outlives, same_key,
}
use logistics_dispatch.Throttler.Storage.{
  RedisThrottlerStorage, Throttle, ceil_seconds, count_hit, increment, increment_script, judge,
  mend_count, replied, reply_lost, script_missing,
}
use logistics_dispatch.Throttler.Window.{allowed, window_limit}

abbrev pub alive : ℕ → Option Kept → Option Kept
alive now none = none
alive now (some v) = if outlives now v then some v else none

abbrev pub Memory : Type 0
Memory = ThrottleKey → Option Kept

abbrev pub recall : Memory → ThrottleKey → ℕ → Option Kept
recall ks k now = alive now (ks k)

abbrev pub write : Memory → ThrottleKey → ℕ → (Option Kept → Option Kept) → Memory
write ks k now f j = if same_key k j then f (recall ks j now) else ks j

pub recall-incr :
    (ks : Memory) (k j : ThrottleKey) (now : ℕ)
    → recall (write ks k now (λ v. some (bump v))) j now
      ≡ (if same_key k j then some (bump (recall ks j now)) else recall ks j now)
recall-incr ks k j now = elim (Option-cases (ks j)) [
  | inl e ↦ ground arith
  | inr (v, e) ↦ elim (Option-cases v.until) [ inl f ↦ ground arith | inr (x, f) ↦ ground arith ]
]

pub recall-pexpire :
    (ks : Memory) (k j : ThrottleKey) (ttl now : ℕ)
    → 0 < ttl
    → recall (write ks k now (expire_at (now + ttl))) j now
      ≡ (if same_key k j then expire_at (now + ttl) (recall ks j now) else recall ks j now)
recall-pexpire ks k j ttl now positive = elim (Option-cases (recall ks j now)) [
  | inl e ↦ ground arith
  | inr (v, e) ↦ ground arith
]

pub recall-set_px :
    (ks : Memory) (k j : ThrottleKey) (n ttl now : ℕ)
    → 0 < ttl
    → recall (write ks k now (λ v. some (record { number = n; until = some (now + ttl) }))) j now
      ≡ (if same_key k j
          then some (record { number = n; until = some (now + ttl) })
          else recall ks j now)
recall-set_px ks k j n ttl now positive = ground arith

pub recall_later :
    (ks : Memory) (k : ThrottleKey) (now later : ℕ) (v : Kept)
    → now ≤ later
    → recall ks k now ≡ some v
    → outlives later v ≡ true
    → recall ks k later ≡ some v
recall_later ks k now later v after here long = elim (Option-cases (ks k)) [
  | inl e ↦ ground arith
  | inr (w, e) ↦ ground arith
]

pub recall_before :
    (ks : Memory) (k : ThrottleKey) (now later : ℕ) (v : Kept)
    → now ≤ later
    → recall ks k later ≡ some v
    → recall ks k now ≡ some v
recall_before ks k now later v after there = elim (Option-cases (ks k)) [
  | inl e ↦ ground arith
  | inr (w, e) ↦ elim (Option-cases w.until) [ inl f ↦ ground arith | inr (x, f) ↦ ground arith ]
]

abbrev pub memory_redis : Redis
memory_redis = record {
  Keys = Memory;
  read = recall;
  incr = λ ks k now. write ks k now (λ v. some (bump v));
  pexpire = λ ks k ttl now. write ks k now (expire_at (now + ttl));
  set_px = λ ks k n ttl now.
      write ks k now (λ v. some (record { number = n; until = some (now + ttl) }));
  read-incr = recall-incr;
  read-pexpire = recall-pexpire;
  read-set_px = recall-set_px;
  read_later = recall_later;
  read_before = recall_before;
}

abbrev pub two_a_minute : Throttle
two_a_minute = record { name = "default"; ttl_ms = 60000; limit = 2; block_duration_ms = 5000 }

abbrev pub fresh : RedisThrottlerStorage memory_redis
fresh = record { keys = λ k. none; script_sha_by_name = [] }

pub replied_kept : replied ≢ reply_lost
replied_kept e = cc

missing_kept : script_missing ≢ reply_lost
missing_kept e = cc

window_limit_example :
    allowed memory_redis two_a_minute "login"
      (record { at = 10; reply = replied }
        ∷ record { at = 10; reply = replied }
        ∷ record { at = 30; reply = script_missing }
        ∷ record { at = 9000; reply = replied }
        ∷ [])
      fresh
    ≡ 2
window_limit_example =
    window_limit memory_redis two_a_minute "login" (record { at = 10; reply = replied })
      (record { at = 10; reply = replied }
        ∷ record { at = 30; reply = script_missing }
        ∷ record { at = 9000; reply = replied }
        ∷ [])
      fresh (omega arith) (omega arith) refl refl
      (
        omega arith,
        omega arith,
        replied_kept,
        (
          omega arith,
          omega arith,
          replied_kept,
          (omega arith, omega arith, missing_kept, (omega arith, omega arith, replied_kept, tt)),
        ),
      )

abbrev full : RedisThrottlerStorage memory_redis
full = record {
  keys = λ k.
      if same_key (count_key "login" "default") k
      then some (record { number = 2; until = some 60010 })
      else none;
  script_sha_by_name = "default" ∷ [];
}

over : (increment memory_redis two_a_minute "login" 50 replied full).0.is_blocked ≡ true
unfolding increment increment_script judge mend_count count_hit
over = refl

block_lasts_example :
    let x = (increment memory_redis two_a_minute "login" 50 replied full).1 in
    let y = increment memory_redis two_a_minute "login" 4000 replied x in
    (y.0.is_blocked ≡ true) × (y.0.time_to_block_expire ≡ ceil_seconds 1050) × (y.1.keys ≡ x.keys)
block_lasts_example =
    block_lasts memory_redis two_a_minute "login" 50 4000 replied replied full refl (omega arith)
      (omega arith) (λ v h. ground arith) replied_kept replied_kept over (omega arith) (omega arith)
