-- ===== src/Throttler/Unblocked.antt =====
-- What a throttle of src/common/throttler does with a client that chooses its tracker.
use logistics_dispatch.Common.{
  All, Bool-cases, CodePoints, List, Option-cases, [], arith, false, inl, inr, length, map, none,
  refl, same_text, same_text_iff, sym, ℕ, ◌<◌, ◌∙◌, ◌∷◌, ◌≡◌, ◌≢◌, ◌≤◌,
}
use Prim.Native.String.{String}
use logistics_dispatch.Throttler.Key.{RequestLike, TextOps}
use logistics_dispatch.Throttler.Others.{script_other}
use logistics_dispatch.Throttler.Redis.{Redis, ThrottleKey, block_key, count_key}
use logistics_dispatch.Throttler.Requests.{Visit, key_of, let_through}
use logistics_dispatch.Throttler.Script.{script_counts}
use logistics_dispatch.Throttler.Spoof.{key_of_inj}
use logistics_dispatch.Throttler.Storage.{
  Evalsha, RedisThrottlerStorage, Throttle, increment, increment_script, reply_lost,
}
use logistics_dispatch.Throttler.Tracker.{IsPlain, spoofed}
use logistics_dispatch.Throttler.Window.{increment_runs}

-- A request by its header, its time, and what becomes of the script.
pub record Try : Type 0 where
  pub header : CodePoints
  pub at : ℕ
  pub reply : Evalsha

-- In the order of their times, with no reply that is lost, and with headers that are plain and all
-- different.
abbrev pub AreTries : ℕ → List Try → Type 0
AreTries now [] = Unit {0}
AreTries now (v ∷ vs) =
    (now ≤ v.at)
    × (v.reply ≢ reply_lost)
    × IsPlain v.header
    × All (λ w. w.header ≢ v.header) vs
    × AreTries v.at vs

tries_headers : (now : ℕ) (vs : List Try) → AreTries now vs → All (λ v. IsPlain v.header) vs
tries_headers now [] tries = tt
tries_headers now (v ∷ vs) tries = (tries.2, tries_headers v.at vs tries.4)

module _ (r : Redis) (t : Throttle) (o : TextOps) (q : RequestLike) where
  abbrev pub visit_of : Try → Visit
  visit_of v = record { request = spoofed q v.header; at = v.at; reply = v.reply }

  abbrev key : Try → String
  key v = key_of t o (spoofed q v.header)

  -- Redis keeps nothing for the request.
  abbrev IsUnknown : ℕ → r.Keys → Try → Type 0
  IsUnknown now ks v =
      (r.read ks (count_key (key v) t.name) now ≡ none)
      × (r.read ks (block_key (key v) t.name) now ≡ none)

  none_later :
      (ks : r.Keys) (x : ThrottleKey) (now later : ℕ)
      → now ≤ later
      → r.read ks x now ≡ none
      → r.read ks x later ≡ none
  none_later ks x now later after nothing = elim (Option-cases (r.read ks x later)) [
    | inl e ↦ e
    | inr (v, e) ↦ absurd (ground (arith, r.read_before ks x now later v after e))
  ]

  other_key :
      (v w : Try)
      → ((a b : CodePoints) → o.hash_value a ≡ o.hash_value b → a ≡ b)
      → IsPlain v.header
      → IsPlain w.header
      → w.header ≢ v.header
      → same_text (key v) (key w) ≡ false
  other_key v w apart plain plain' other = elim (Bool-cases (same_text (key v) (key w))) [
    | inr differ ↦ differ
    | inl same ↦ absurd (
        other (
          sym (
            key_of_inj t o q v.header w.header apart plain plain'
              ((same_text_iff (key v) (key w)).0 same))))
  ]

  -- The request `v` leaves the others as they were.
  others_untouched :
      (v : Try) (vs : List Try) (now : ℕ) (ks : r.Keys)
      → ((a b : CodePoints) → o.hash_value a ≡ o.hash_value b → a ≡ b)
      → 0 < t.ttl_ms
      → 0 < t.block_duration_ms
      → now ≤ v.at
      → IsPlain v.header
      → All (λ w. w.header ≢ v.header) vs
      → All (λ w. IsPlain w.header) vs
      → All (IsUnknown now ks) vs
      → All (IsUnknown v.at (increment_script r t (key v) v.at ks).1) vs
  others_untouched v [] now ks apart ttl duration after plain others plains unknown = tt
  others_untouched v (w ∷ vs) now ks apart ttl duration after plain (other, others) (plain', plains)
        (here, unknown) =
      let differ = other_key v w apart plain plain' other in
      let count = count_key (key w) t.name in
      let block = block_key (key w) t.name in
      (
        (
          script_other r t (key v) count v.at ttl duration (ground (arith, differ)) refl ks
              ∙ none_later ks count now v.at after here.0,
          script_other r t (key v) block v.at ttl duration refl (ground (arith, differ)) ks
              ∙ none_later ks block now v.at after here.1,
        ),
        others_untouched v vs now ks apart ttl duration after plain others plains unknown,
      )

  unknown_passes :
      (v : Try) (s : RedisThrottlerStorage r)
      → 0 < t.limit
      → 0 < t.ttl_ms
      → 0 < t.block_duration_ms
      → v.reply ≢ reply_lost
      → IsUnknown v.at s.keys v
      → let x = increment r t (key v) v.at v.reply s in
        (x.0.is_blocked ≡ false) × (x.1.keys ≡ (increment_script r t (key v) v.at s.keys).1)
  unknown_passes v s some_limit ttl duration kept (no_count, no_block) =
      let (same, same') = increment_runs r t (key v) v.at v.reply s kept in
      let (b, n, l) =
        script_counts r t (key v) v.at s.keys (ground (arith, no_block)) ttl duration
          (λ w e. absurd (ground (arith, no_count))) in
      (ground (arith, same, b, no_count), same')

  let_through-unknown :
      (vs : List Try) (now : ℕ) (s : RedisThrottlerStorage r)
      → ((a b : CodePoints) → o.hash_value a ≡ o.hash_value b → a ≡ b)
      → 0 < t.limit
      → 0 < t.ttl_ms
      → 0 < t.block_duration_ms
      → AreTries now vs
      → All (IsUnknown now s.keys) vs
      → let_through r t o (map visit_of vs) s ≡ length vs
  unfolding let_through
  let_through-unknown [] now s apart some_limit ttl duration tries unknown = refl
  let_through-unknown (v ∷ vs) now s apart some_limit ttl duration
        (after, kept, plain, others, tries) (here, unknown) =
      let x = increment r t (key v) v.at v.reply s in
      let here' : IsUnknown v.at s.keys v = (
        none_later s.keys (count_key (key v) t.name) now v.at after here.0,
        none_later s.keys (block_key (key v) t.name) now v.at after here.1,
      ) in
      let (passes, keys) = unknown_passes v s some_limit ttl duration kept here' in
      let unknown' =
        others_untouched v vs now s.keys apart ttl duration after plain others
          (tries_headers v.at vs tries) unknown in
      let rest =
        let_through-unknown vs v.at x.1 apart some_limit ttl duration tries (rw keys unknown') in
      ground (arith, passes, rest)

  -- If SHA-256 has no collision, the throttle's limit and times are not zero, and Redis keeps nothing at
  -- first, then a client that sends requests which differ in the header `x-forwarded-for`, with texts that
  -- are not empty, hold no comma and no white space, and are all different, gets every one of them
  -- through, as many as they are, where they come in the order of their times and no reply is lost.
  pub spoofing_passes :
      (vs : List Try) (now : ℕ) (s : RedisThrottlerStorage r)
      → ((a b : CodePoints) → o.hash_value a ≡ o.hash_value b → a ≡ b)
      → 0 < t.limit
      → 0 < t.ttl_ms
      → 0 < t.block_duration_ms
      → ((x : ThrottleKey) → r.read s.keys x now ≡ none)
      → AreTries now vs
      → let_through r t o (map visit_of vs) s ≡ length vs
  spoofing_passes vs now s apart some_limit ttl duration empty tries =
      let_through-unknown vs now s apart some_limit ttl duration tries (nothing vs)
    where
      nothing : (ws : List Try) → All (IsUnknown now s.keys) ws
      nothing [] = tt
      nothing (w ∷ ws) =
          ((empty (count_key (key w) t.name), empty (block_key (key w) t.name)), nothing ws)
