-- ===== src/Throttler/Script.antt =====
-- What one run of the script of src/common/throttler/redis-throttler-storage.ts does to its two keys.
use logistics_dispatch.Common.{
  Option, Option-cases, arith, if◌then◌else◌, inl, inr, ltb, none, some, sym, true, ℕ, ◌+◌, ◌<◌,
  ◌==◌, ◌∙◌, ◌≡◌,
}
use Prim.Native.String.{String}
use logistics_dispatch.Throttler.Redis.{
  Kept, Redis, block_key, bump, count_key, expire_at, same_key_refl,
}
use logistics_dispatch.Throttler.Storage.{
  Throttle, blocked_reply, count_hit, increment_script, judge, mend_count, positive_pttl,
}

-- The count that follows, with the time at which its window ends.
abbrev pub next_count : ℕ → ℕ → Option Kept → Kept
next_count ttl now none = record { number = 1; until = some (now + ttl) }
next_count ttl now (some v) = record {
  number = v.number + 1;
  until = some (elim v.until [ none ↦ now + ttl | some x ↦ x ]);
}

abbrev pub number_of : Option Kept → ℕ
number_of none = 0
number_of (some v) = v.number

module _ (r : Redis) (t : Throttle) (key : String) where
  abbrev pub count_read : r.Keys → ℕ → Option Kept
  count_read ks now = r.read ks (count_key key t.name) now

  abbrev pub block_read : r.Keys → ℕ → Option Kept
  block_read ks now = r.read ks (block_key key t.name) now

  -- For how long the key is blocked yet.
  abbrev pub block_left : r.Keys → ℕ → ℕ
  block_left ks now = positive_pttl (block_read ks now) now

  count_hit-count_read :
      (now : ℕ) (ks : r.Keys)
      → 0 < t.ttl_ms
      → count_read (count_hit r t key now ks) now ≡ (
          if (bump (count_read ks now)).number == 1
          then expire_at (now + t.ttl_ms) (some (bump (count_read ks now)))
          else some (bump (count_read ks now)))
  unfolding count_hit
  count_hit-count_read now ks positive =
      let k = count_key key t.name in
      ground (
        arith,
        r.read-incr ks k k now,
        r.read-pexpire (r.incr ks k now) k k t.ttl_ms now positive,
        same_key_refl k,
      )

  count_hit-block :
      (now : ℕ) (ks : r.Keys)
      → 0 < t.ttl_ms
      → block_read (count_hit r t key now ks) now ≡ block_read ks now
  unfolding count_hit
  count_hit-block now ks positive =
      let k = count_key key t.name in
      let b = block_key key t.name in
      ground
        (arith, r.read-incr ks k b now, r.read-pexpire (r.incr ks k now) k b t.ttl_ms now positive)

  mend_count-count_read :
      (now : ℕ) (ks : r.Keys) (v : Kept)
      → 0 < t.ttl_ms
      → count_read ks now ≡ some v
      → count_read (mend_count r t key now ks).0 now
        ≡ some (record v { until = some (elim v.until [ none ↦ now + t.ttl_ms | some x ↦ x ]) })
  unfolding mend_count
  mend_count-count_read now ks v positive here =
      let k = count_key key t.name in
      elim (Option-cases v.until) [
        | inl e ↦ ground (arith, r.read-pexpire ks k k t.ttl_ms now positive, same_key_refl k)
        | inr (x, e) ↦ ground arith
      ]

  mend_count-block :
      (now : ℕ) (ks : r.Keys)
      → 0 < t.ttl_ms
      → block_read (mend_count r t key now ks).0 now ≡ block_read ks now
  unfolding mend_count
  mend_count-block now ks positive =
      let k = count_key key t.name in
      let b = block_key key t.name in ground (arith, r.read-pexpire ks k b t.ttl_ms now positive)

  judge-count_read :
      (count now : ℕ) (ks : r.Keys) (rest : ℕ)
      → 0 < t.block_duration_ms
      → count_read (judge r t key count now (ks, rest)).1 now ≡ count_read ks now
  unfolding judge
  judge-count_read count now ks rest positive =
      let k = count_key key t.name in
      let b = block_key key t.name in
      ground (arith, r.read-set_px ks b k 1 t.block_duration_ms now positive)

  judge-block :
      (count now : ℕ) (ks : r.Keys) (rest : ℕ)
      → 0 < t.block_duration_ms
      → block_read (judge r t key count now (ks, rest)).1 now ≡ (
          if ltb t.limit count
          then some (record { number = 1; until = some (now + t.block_duration_ms) })
          else block_read ks now)
  unfolding judge
  judge-block count now ks rest positive =
      let b = block_key key t.name in
      ground (arith, r.read-set_px ks b b 1 t.block_duration_ms now positive, same_key_refl b)

  judge-is_blocked :
      (count now : ℕ) (x : r.Keys × ℕ)
      → (judge r t key count now x).0.is_blocked ≡ ltb t.limit count
  unfolding judge
  judge-is_blocked count now (ks, rest) = ground arith

  -- A key that is blocked is rest as it is.
  pub script_blocked :
      (now : ℕ) (ks : r.Keys)
      → 0 < block_left ks now
      → ((increment_script r t key now ks).0.is_blocked ≡ true)
        × ((increment_script r t key now ks).1 ≡ ks)
  unfolding increment_script blocked_reply
  script_blocked now ks held = ground arith

  -- A count that is none, or at least one, is followed by the next one; the key becomes blocked where that
  -- is above the limit.
  pub script_counts :
      (now : ℕ) (ks : r.Keys)
      → block_left ks now ≡ 0
      → 0 < t.ttl_ms
      → 0 < t.block_duration_ms
      → ((v : Kept) → count_read ks now ≡ some v → 0 < v.number)
      → let x = increment_script r t key now ks in
        (x.0.is_blocked ≡ ltb t.limit (number_of (count_read ks now) + 1))
        × (count_read x.1 now ≡ some (next_count t.ttl_ms now (count_read ks now)))
        × (block_read x.1 now ≡ (
            if ltb t.limit (number_of (count_read ks now) + 1)
            then some (record { number = 1; until = some (now + t.block_duration_ms) })
            else block_read ks now))
  unfolding increment_script
  script_counts now ks free ttl duration positive =
      let hit = count_hit r t key now ks in
      let mended = mend_count r t key now hit in
      let n = (bump (count_read ks now)).number in
      let number : n ≡ number_of (count_read ks now) + 1 = elim (Option-cases (count_read ks now)) [
        | inl e ↦ ground arith
        | inr (v, e) ↦ ground arith
      ] in
      let same : increment_script r t key now ks ≡ judge r t key n now mended = ground arith in
      let end_of_count : count_read mended.0 now
          ≡ some (next_count t.ttl_ms now (count_read ks now)) =
        elim (Option-cases (count_read ks now)) [
          | inl e ↦ ground (
            arith,
            count_hit-count_read now ks ttl,
            mend_count-count_read now hit (record { number = 1; until = some (now + t.ttl_ms) })
                ttl,
          )
          | inr (v, e) ↦ ground (
            arith,
            count_hit-count_read now ks ttl,
            positive v,
            mend_count-count_read now hit (record v { number = v.number + 1 }) ttl,
          )
        ] in
      rw (same, sym number)
        (
          judge-is_blocked n now mended,
          judge-count_read n now mended.0 mended.1 duration ∙ end_of_count,
          rw (sym (count_hit-block now ks ttl), sym (mend_count-block now hit ttl))
              (judge-block n now mended.0 mended.1 duration),
        )
