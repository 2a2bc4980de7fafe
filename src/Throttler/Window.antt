-- ===== src/Throttler/Window.antt =====
-- One window of a throttle of src/common/throttler/redis-throttler-storage.ts.
use logistics_dispatch.Common.{
  Bool-cases, List, Option-cases, [], arith, if◌then◌else◌, inl, inr, leb, length, ltb, none, refl,
  some, ℕ, ◌+◌, ◌-◌, ◌<◌, ◌∙◌, ◌∷◌, ◌≡◌, ◌≢◌, ◌≤◌, ◌⊎◌,
}
use Prim.Native.String.{String}
use logistics_dispatch.Throttler.Redis.{Redis, block_key, count_key}
use logistics_dispatch.Throttler.Script.{
  block_left, block_read, count_read, script_blocked, script_counts,
}
use logistics_dispatch.Throttler.Storage.{
  Evalsha, RedisThrottlerStorage, Throttle, increment, increment_script, load_and_run, replied,
  reply_lost, script_missing,
}

-- A request, by its time and by what becomes of its `evalsha`.
pub record Hit : Type 0 where
  pub at : ℕ
  pub reply : Evalsha

-- Requests in the order of their times, from `now` on and before `end`, with no reply that is lost.
abbrev pub InWindow : ℕ → ℕ → List Hit → Type 0
InWindow now end [] = Unit {0}
InWindow now end (h ∷ hs) =
    (now ≤ h.at) × (h.at < end) × (h.reply ≢ reply_lost) × InWindow h.at end hs

abbrev min : ℕ → ℕ → ℕ
min a b = if leb a b then a else b

module _ (r : Redis) (t : Throttle) (key : String) where
  -- How many of the requests get through.
  unfoldable pub allowed : List Hit → RedisThrottlerStorage r → ℕ
  unfolding increment
  allowed [] s = 0
  allowed (h ∷ hs) s =
      let x = increment r t key h.at h.reply s in
      let rest = allowed hs x.1 in if x.0.is_blocked then rest else rest + 1

  -- An `increment` whose reply is not lost is one run of the script.
  pub increment_runs :
      (now : ℕ) (o : Evalsha) (s : RedisThrottlerStorage r)
      → o ≢ reply_lost
      → let x = increment r t key now o s in
        let y = increment_script r t key now s.keys in (x.0 ≡ y.0) × (x.1.keys ≡ y.1)
  unfolding increment load_and_run
  increment_runs now replied s kept = ground arith
  increment_runs now script_missing s kept = ground arith
  increment_runs now reply_lost s kept = absurd (kept refl)

  -- A key that is free stays free for as long as nothing is written.
  block_left_later :
      (ks : r.Keys) (now later : ℕ)
      → now ≤ later
      → block_left r t key ks now ≡ 0
      → block_left r t key ks later ≡ 0
  block_left_later ks now later after free = elim (Option-cases (block_read r t key ks later)) [
    | inl e ↦ ground arith
    | inr (v, e) ↦
        let before = r.read_before ks (block_key key t.name) now later v after e in
        elim (Option-cases v.until) [ inl f ↦ ground arith | inr (x, f) ↦ ground arith ]
  ]

  -- The count `c` of a window that ends at `end`, where the key is free below the limit.
  abbrev InCount : ℕ → ℕ → ℕ → r.Keys → Type 0
  InCount c end now ks =
      (count_read r t key ks now ≡ some (record { number = c; until = some end }))
      × (0 < c)
      × ((t.limit ≤ c) ⊎ (block_left r t key ks now ≡ 0))

  later-InCount :
      (c end now later : ℕ) (ks : r.Keys)
      → now ≤ later
      → later < end
      → InCount c end now ks
      → InCount c end later ks
  later-InCount c end now later ks after before (here, some_count, held) = (
    r.read_later ks (count_key key t.name) now later (record { number = c; until = some end }) after
        here (ground arith),
    some_count,
    elim held [ inl full ↦ inl full | inr free ↦ inr (block_left_later ks now later after free) ],
  )

  -- A request in a window: it is blocked where the count is full, and counted where it is not blocked.
  increment_in :
      (c end : ℕ) (h : Hit) (s : RedisThrottlerStorage r)
      → 0 < t.ttl_ms
      → 0 < t.block_duration_ms
      → h.reply ≢ reply_lost
      → InCount c end h.at s.keys
      → let x = increment r t key h.at h.reply s in
        (x.0.is_blocked ≡ ltb t.limit (c + 1))
        × ((t.limit ≤ c) × InCount c end h.at x.1.keys ⊎ InCount (c + 1) end h.at x.1.keys)
  increment_in c end h s ttl duration kept (here, some_count, held) =
      let now = h.at in
      let ks = s.keys in
      let x = increment r t key now h.reply s in
      let y = increment_script r t key now ks in
      let (same, same') = increment_runs now h.reply s kept in
      elim (Bool-cases (ltb 0 (block_left r t key ks now))) [
        | inl blocked ↦
            let (b, k) = script_blocked r t key now ks (ground arith) in
            let full : t.limit ≤ c = elim held [
              | inl full ↦ full
              | inr free ↦ absurd (ground arith)
            ] in
            (ground (arith, same, b), inl (full, rw (same' ∙ k) (here, some_count, held)))
        | inr free ↦
            let (b, n, l) =
              script_counts r t key now ks (ground arith) ttl duration (ground arith) in
            let n' : count_read r t key y.1 now
                ≡ some (record { number = c + 1; until = some end }) =
              ground arith in
            let held' : (t.limit ≤ c + 1) ⊎ (block_left r t key y.1 now ≡ 0) =
              elim (Bool-cases (ltb t.limit (c + 1))) [
                | inl over ↦ inl (ground arith)
                | inr under ↦ inr (ground arith)
              ] in
            (ground (arith, same, b), inr (rw same' (n', omega arith, held')))
      ]

  allowed-in :
      (hs : List Hit) (c end now : ℕ) (s : RedisThrottlerStorage r)
      → 0 < t.ttl_ms
      → 0 < t.block_duration_ms
      → InWindow now end hs
      → InCount c end now s.keys
      → allowed hs s ≡ min (length hs) (t.limit - c)
  unfolding allowed
  allowed-in [] c end now s ttl duration sorted count = ground arith
  allowed-in (h ∷ hs) c end now s ttl duration (after, before, kept, sorted) count =
      let x = increment r t key h.at h.reply s in
      let (b, next) =
        increment_in c end h s ttl duration kept
          (later-InCount c end now h.at s.keys after before count) in
      elim next [
        | inl (full, same) ↦ ground (arith, allowed-in hs c end h.at x.1 ttl duration sorted same)
        | inr more ↦ ground (arith, allowed-in hs (c + 1) end h.at x.1 ttl duration sorted more)
      ]

  -- If the throttle's times are not zero, the key is not blocked, and no count is kept, then of the
  -- requests from one time on that come before the throttle's window is over, in the order of their times
  -- and with no reply lost, exactly the first ones get through, as many as the limit says.
  pub window_limit :
      (h : Hit) (hs : List Hit) (s : RedisThrottlerStorage r)
      → 0 < t.ttl_ms
      → 0 < t.block_duration_ms
      → count_read r t key s.keys h.at ≡ none
      → block_left r t key s.keys h.at ≡ 0
      → InWindow h.at (h.at + t.ttl_ms) (h ∷ hs)
      → allowed (h ∷ hs) s ≡ min (length (h ∷ hs)) t.limit
  unfolding allowed
  window_limit h hs s ttl duration none_yet free (after, before, kept, sorted) =
      let x = increment r t key h.at h.reply s in
      let (b, first) = increment_first h s ttl duration kept none_yet free in
      ground (arith, allowed-in hs 1 (h.at + t.ttl_ms) h.at x.1 ttl duration sorted first)
    where
      increment_first :
          (h : Hit) (s : RedisThrottlerStorage r)
          → 0 < t.ttl_ms
          → 0 < t.block_duration_ms
          → h.reply ≢ reply_lost
          → count_read r t key s.keys h.at ≡ none
          → block_left r t key s.keys h.at ≡ 0
          → let x = increment r t key h.at h.reply s in
            (x.0.is_blocked ≡ ltb t.limit 1) × InCount 1 (h.at + t.ttl_ms) h.at x.1.keys
      increment_first h s ttl duration kept none_yet free =
          let now = h.at in
          let ks = s.keys in
          let y = increment_script r t key now ks in
          let (same, same') = increment_runs now h.reply s kept in
          let (b, n, l) = script_counts r t key now ks free ttl duration (ground arith) in
          let n' : count_read r t key y.1 now
              ≡ some (record { number = 1; until = some (now + t.ttl_ms) }) =
            ground arith in
          let held : (t.limit ≤ 1) ⊎ (block_left r t key y.1 now ≡ 0) =
            elim (Bool-cases (ltb t.limit 1)) [
              | inl over ↦ inl (ground arith)
              | inr under ↦ inr (ground arith)
            ] in
          (ground (arith, same, b), rw same' (n', omega arith, held))
