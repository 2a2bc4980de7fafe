-- ===== src/Throttler/Storage.antt =====
-- src/common/throttler/redis-throttler-storage.ts
use logistics_dispatch.Common.{
  Bool, List, Option, false, find_first, if◌then◌else◌, is_known, ltb, none, same_text, some, true,
  ℕ, ◌+◌, ◌-◌, ◌/◌, ◌==◌, ◌∷◌,
}
use Prim.Native.String.{String}
use logistics_dispatch.Throttler.Redis.{Kept, Redis, block_key, bump, count_key}

pub record ThrottlerStorageRecord : Type 0 where
  pub total_hits : ℕ
  pub time_to_expire : ℕ
  pub is_blocked : Bool
  pub time_to_block_expire : ℕ

-- What a throttler is set up with.
pub record Throttle : Type 0 where
  pub name : String
  pub ttl_ms : ℕ
  pub limit : ℕ
  pub block_duration_ms : ℕ

-- `math.ceil(ms / 1000)`
abbrev pub ceil_seconds : ℕ → ℕ
ceil_seconds ms = (ms + 999) / 1000

-- The answer of `PTTL`: -2, -1, or the milliseconds that are left.
pub data Pttl : Type 0 where
  missing forever : Pttl
  milliseconds : ℕ → Pttl

abbrev pub pttl_of : Option Kept → ℕ → Pttl
pttl_of none now = missing
pttl_of (some v) now = elim v.until [ none ↦ forever | some x ↦ milliseconds (x - now) ]

-- The milliseconds for which a key is there yet, 0 where `PTTL` is not positive.
abbrev pub positive_pttl : Option Kept → ℕ → ℕ
positive_pttl v now = elim (pttl_of v now) [ missing ↦ 0 | forever ↦ 0 | milliseconds n ↦ n ]

-- What became of an `evalsha`: the script ran and its reply came, the script was missing, or the
-- script ran and the reply was lost.
pub data Evalsha : Type 0 where
  replied script_missing reply_lost : Evalsha

module _ (r : Redis) where
  -- The keys, and the names of the throttlers whose script has been loaded.
  pub record RedisThrottlerStorage : Type 0 where
    pub keys : r.Keys
    pub script_sha_by_name : List String

  -- The script while the key is blocked.
  unfoldable pub blocked_reply : Throttle → ℕ → Option Kept → ThrottlerStorageRecord
  blocked_reply t block_pttl counted = record {
    total_hits = elim counted [ none ↦ t.limit + 1 | some v ↦ v.number ];
    time_to_expire = ceil_seconds block_pttl;
    is_blocked = true;
    time_to_block_expire = ceil_seconds block_pttl;
  }

  -- `INCR`, with the life of a new window.
  unfoldable pub count_hit : Throttle → String → ℕ → r.Keys → r.Keys
  count_hit t key now ks =
      let k = count_key key t.name in
      let ks' = r.incr ks k now in
      if (bump (r.read ks k now)).number == 1 then r.pexpire ks' k t.ttl_ms now else ks'

  -- A count that would stay for ever gets the life of a window.
  unfoldable pub mend_count : Throttle → String → ℕ → r.Keys → r.Keys × ℕ
  mend_count t key now ks =
      let k = count_key key t.name in
      elim (pttl_of (r.read ks k now) now) [
        | missing ↦ (r.pexpire ks k t.ttl_ms now, t.ttl_ms)
        | forever ↦ (r.pexpire ks k t.ttl_ms now, t.ttl_ms)
        | milliseconds n ↦ (ks, n)
      ]

  -- The script from `count > limit`.
  unfoldable pub judge : Throttle → String → ℕ → ℕ → r.Keys × ℕ → ThrottlerStorageRecord × r.Keys
  judge t key count now (ks, count_pttl) =
      if ltb t.limit count
      then (
        record {
          total_hits = count;
          time_to_expire = ceil_seconds count_pttl;
          is_blocked = true;
          time_to_block_expire = ceil_seconds t.block_duration_ms;
        },
        r.set_px ks (block_key key t.name) 1 t.block_duration_ms now,
      )
      else (
        record {
          total_hits = count;
          time_to_expire = ceil_seconds count_pttl;
          is_blocked = false;
          time_to_block_expire = 0;
        },
        ks,
      )

  -- The script.
  unfoldable pub increment_script : Throttle → String → ℕ → r.Keys → ThrottlerStorageRecord × r.Keys
  unfolding blocked_reply count_hit mend_count judge
  increment_script t key now ks =
      let k = count_key key t.name in
      let block_pttl = positive_pttl (r.read ks (block_key key t.name) now) now in
      if ltb 0 block_pttl
      then (blocked_reply t block_pttl (r.read ks k now), ks)
      else judge t key (bump (r.read ks k now)).number now
          (mend_count t key now (count_hit t key now ks))

  -- `script('LOAD')`, and the script.
  unfoldable pub load_and_run :
      Throttle → String → ℕ → RedisThrottlerStorage → ThrottlerStorageRecord × RedisThrottlerStorage
  unfolding increment_script
  load_and_run t key now s =
      let x = increment_script t key now s.keys in
      (x.0, record { keys = x.1; script_sha_by_name = t.name ∷ s.script_sha_by_name })

  -- `increment`, where `o` is what becomes of the `evalsha` of a script that has been loaded. Where that
  -- throws, the script is loaded and run.
  unfoldable pub increment :
      Throttle
      → String
      → ℕ
      → Evalsha
      → RedisThrottlerStorage
      → ThrottlerStorageRecord × RedisThrottlerStorage
  unfolding load_and_run increment_script
  increment t key now o s =
      let x = increment_script t key now s.keys in
      if is_known (find_first (same_text t.name) s.script_sha_by_name)
      then elim o [
        | replied ↦ (x.0, record s { keys = x.1 })
        | script_missing ↦ load_and_run t key now s
        | reply_lost ↦ load_and_run t key now (record s { keys = x.1 })
      ]
      else load_and_run t key now s
