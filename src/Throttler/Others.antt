-- ===== src/Throttler/Others.antt =====
-- The script of src/common/throttler/redis-throttler-storage.ts on the keys that are not its own.
use logistics_dispatch.Common.{Bool-cases, arith, false, inl, inr, ltb, ℕ, ◌<◌, ◌∙◌, ◌≡◌}
use Prim.Native.String.{String}
use logistics_dispatch.Throttler.Redis.{Redis, ThrottleKey, block_key, bump, count_key, same_key}
use logistics_dispatch.Throttler.Script.{block_left}
use logistics_dispatch.Throttler.Storage.{Throttle, count_hit, increment_script, judge, mend_count}

module _ (r : Redis) (t : Throttle) (key : String) (x : ThrottleKey) (now : ℕ) (ttl : 0 < t.ttl_ms)
    (duration : 0 < t.block_duration_ms) (not_count : same_key (count_key key t.name) x ≡ false)
    (not_block : same_key (block_key key t.name) x ≡ false) where
  judge_other :
      (count : ℕ) (y : r.Keys × ℕ) → r.read (judge r t key count now y).1 x now ≡ r.read y.0 x now
  unfolding judge
  judge_other count (ks, rest) =
      ground (arith, r.read-set_px ks (block_key key t.name) x 1 t.block_duration_ms now duration)

  mend_count_other : (ks : r.Keys) → r.read (mend_count r t key now ks).0 x now ≡ r.read ks x now
  unfolding mend_count
  mend_count_other ks = ground (arith, r.read-pexpire ks (count_key key t.name) x t.ttl_ms now ttl)

  count_hit_other : (ks : r.Keys) → r.read (count_hit r t key now ks) x now ≡ r.read ks x now
  unfolding count_hit
  count_hit_other ks =
      let k = count_key key t.name in
      ground (arith, r.read-incr ks k x now, r.read-pexpire (r.incr ks k now) k x t.ttl_ms now ttl)

  -- The script leaves every other key alone.
  pub script_other :
      (ks : r.Keys) → r.read (increment_script r t key now ks).1 x now ≡ r.read ks x now
  unfolding increment_script
  script_other ks =
      let hit = count_hit r t key now ks in
      let mended = mend_count r t key now hit in
      let n = (bump (r.read ks (count_key key t.name) now)).number in
      elim (Bool-cases (ltb 0 (block_left r t key ks now))) [
        | inl held ↦ ground arith
        | inr free ↦
            let same : increment_script r t key now ks ≡ judge r t key n now mended =
              ground arith in
            rw same (judge_other n mended ∙ mend_count_other hit ∙ count_hit_other ks)
      ]
