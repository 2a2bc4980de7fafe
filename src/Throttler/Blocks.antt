-- ===== src/Throttler/Blocks.antt =====
-- A key that src/common/throttler/redis-throttler-storage.ts has blocked.
use logistics_dispatch.Common.{ap, arith, some, sym, true, ℕ, ◌+◌, ◌-◌, ◌<◌, ◌∙◌, ◌≡◌, ◌≢◌, ◌≤◌}
use Prim.Native.String.{String}
use logistics_dispatch.Throttler.Redis.{Kept, Redis, block_key}
use logistics_dispatch.Throttler.Script.{block_left, block_read, count_read, script_counts}
use logistics_dispatch.Throttler.Storage.{
  Evalsha, RedisThrottlerStorage, Throttle, ThrottlerStorageRecord, blocked_reply, ceil_seconds,
  increment, increment_script, reply_lost,
}
use logistics_dispatch.Throttler.Window.{increment_runs}

module _ (r : Redis) (t : Throttle) (key : String) where
  -- Where a request runs over the limit, the block that it sets lasts.
  over_limit-block_left :
      (now later : ℕ) (ks : r.Keys)
      → block_left r t key ks now ≡ 0
      → 0 < t.ttl_ms
      → 0 < t.block_duration_ms
      → ((v : Kept) → count_read r t key ks now ≡ some v → 0 < v.number)
      → (increment_script r t key now ks).0.is_blocked ≡ true
      → now ≤ later
      → later < now + t.block_duration_ms
      → block_left r t key (increment_script r t key now ks).1 later
        ≡ now + t.block_duration_ms - later
  over_limit-block_left now later ks free ttl duration positive over after before =
      let y = (increment_script r t key now ks).1 in
      let v : Kept = record { number = 1; until = some (now + t.block_duration_ms) } in
      let (b, n, l) = script_counts r t key now ks free ttl duration positive in
      let here : block_read r t key y now ≡ some v = ground arith in
      let there = r.read_later y (block_key key t.name) now later v after here (ground arith) in
      ground arith

  -- If the throttle's times are not zero, every count that is kept is at least one, a request whose key is
  -- not blocked is itself blocked, and the replies of it and of a later request before the end of the
  -- block's duration are not lost, then the later request, where it is the next one, is blocked too, it is
  -- told the seconds, rounded up, that the block has left, and it changes no key: it neither counts nor makes the block longer.
  pub block_lasts :
      (now later : ℕ) (o o' : Evalsha) (s : RedisThrottlerStorage r)
      → block_left r t key s.keys now ≡ 0
      → 0 < t.ttl_ms
      → 0 < t.block_duration_ms
      → ((v : Kept) → count_read r t key s.keys now ≡ some v → 0 < v.number)
      → o ≢ reply_lost
      → o' ≢ reply_lost
      → (increment r t key now o s).0.is_blocked ≡ true
      → now ≤ later
      → later < now + t.block_duration_ms
      → let x = (increment r t key now o s).1 in
        let y = increment r t key later o' x in
        (y.0.is_blocked ≡ true)
        × (y.0.time_to_block_expire ≡ ceil_seconds (now + t.block_duration_ms - later))
        × (y.1.keys ≡ x.keys)
  unfolding increment_script blocked_reply
  block_lasts now later o o' s free ttl duration positive kept kept' over after before =
      let x = (increment r t key now o s).1 in
      let (a, b) = increment_runs r t key now o s kept in
      let (a', b') = increment_runs r t key later o' x kept' in
      let left =
        over_limit-block_left now later s.keys free ttl duration positive
          (sym (ap (λ (z : ThrottlerStorageRecord). z.is_blocked) a) ∙ over) after before in
      let held : block_left r t key x.keys later ≡ now + t.block_duration_ms - later = rw b left in
      ground (arith, a', b', held)
