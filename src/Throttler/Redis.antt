-- ===== src/Throttler/Redis.antt =====
-- The commands of Redis that the script of src/common/throttler/redis-throttler-storage.ts calls, on
-- keys that expire, and what Redis documents of them. Times are in milliseconds. A script runs at one time.
use logistics_dispatch.Common.{
  Bool, Option, arith, false, if◌then◌else◌, ltb, none, refl, same_text, same_text_iff, some, true,
  ℕ, ◌&&◌, ◌+◌, ◌<◌, ◌≡◌, ◌≤◌,
}
use Prim.Native.String.{String}

-- `throttle:${key}:${throttlerName}:count` and `throttle:${key}:${throttlerName}:block`.
pub data ThrottleKey : Type 0 where
  count_key block_key : String → String → ThrottleKey

abbrev pub same_key : ThrottleKey → ThrottleKey → Bool
same_key (count_key k n) (count_key j m) = same_text k j && same_text n m
same_key (block_key k n) (block_key j m) = same_text k j && same_text n m
same_key _ _ = false

pub same_key_refl : (k : ThrottleKey) → same_key k k ≡ true
same_key_refl (count_key k n) =
    ground (arith, (same_text_iff k k).1 refl, (same_text_iff n n).1 refl)
same_key_refl (block_key k n) =
    ground (arith, (same_text_iff k k).1 refl, (same_text_iff n n).1 refl)

-- A number under a key, and the time at which it expires, if it does.
pub record Kept : Type 0 where
  pub number : ℕ
  pub until : Option ℕ

-- The number after `INCR`, which leaves the time alone.
abbrev pub bump : Option Kept → Kept
bump none = record { number = 1; until = none }
bump (some v) = record v { number = v.number + 1 }

abbrev pub expire_at : ℕ → Option Kept → Option Kept
expire_at t none = none
expire_at t (some v) = some (record v { until = some t })

-- Whether a value is kept for longer than until the time `t`.
abbrev pub outlives : ℕ → Kept → Bool
outlives t v = elim v.until [ none ↦ true | some x ↦ ltb t x ]

pub record Redis : Type 1 where
  pub Keys : Type 0
  -- What `GET` and `PTTL` tell of a key at a time.
  pub read : Keys → ThrottleKey → ℕ → Option Kept
  pub incr : Keys → ThrottleKey → ℕ → Keys
  pub pexpire : Keys → ThrottleKey → ℕ → ℕ → Keys
  pub set_px : Keys → ThrottleKey → ℕ → ℕ → ℕ → Keys
  pub read-incr :
      (ks : Keys) (k j : ThrottleKey) (now : ℕ)
      → read (incr ks k now) j now
        ≡ (if same_key k j then some (bump (read ks j now)) else read ks j now)
  pub read-pexpire :
      (ks : Keys) (k j : ThrottleKey) (ttl now : ℕ)
      → 0 < ttl
      → read (pexpire ks k ttl now) j now
        ≡ (if same_key k j then expire_at (now + ttl) (read ks j now) else read ks j now)
  pub read-set_px :
      (ks : Keys) (k j : ThrottleKey) (n ttl now : ℕ)
      → 0 < ttl
      → read (set_px ks k n ttl now) j now ≡ (
          if same_key k j
          then some (record { number = n; until = some (now + ttl) })
          else read ks j now)
  -- A value stays until it expires, and nothing comes up by itself.
  pub read_later :
      (ks : Keys) (k : ThrottleKey) (now later : ℕ) (v : Kept)
      → now ≤ later
      → read ks k now ≡ some v
      → outlives later v ≡ true
      → read ks k later ≡ some v
  pub read_before :
      (ks : Keys) (k : ThrottleKey) (now later : ℕ) (v : Kept)
      → now ≤ later
      → read ks k later ≡ some v
      → read ks k now ≡ some v
