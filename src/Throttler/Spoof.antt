-- ===== src/Throttler/Spoof.antt =====
-- A client that sends another `x-forwarded-for` with each request is never blocked
-- (src/common/throttler/throttle-key.util.ts, with the storage beside it).
use logistics_dispatch.Common.{
  CodePoints, List, [], arith, codes, length, refl, sym, ◌++◌, ◌<◌, ◌∙◌, ◌∷◌, ◌≡◌,
}
use logistics_dispatch.Throttler.Key.{
  RequestLike, TextOps, generate_throttle_key, get_email_identity_part, get_stable_route_path,
  join_parts, key_parts, method_of,
}
use logistics_dispatch.Throttler.Requests.{key_of}
use logistics_dispatch.Throttler.Storage.{Throttle}
use logistics_dispatch.Throttler.Tracker.{IsPlain, join_parts_cancel, spoofed, tracker-spoofed}
use mathlib.Core.List.{append_cancel_right}

tail_inj :
    (e h h' : CodePoints)
    → join_parts ((codes "ip:" ++ h) ∷ e ∷ []) ≡ join_parts ((codes "ip:" ++ h') ∷ e ∷ [])
    → h ≡ h'
tail_inj [] h h' same = cc
tail_inj (y ∷ ys) h h' same =
    let cut = append_cancel_right (codes "ip:" ++ h) (codes "ip:" ++ h') (b'|' ∷ y ∷ ys) same in cc

tail_some : (e h : CodePoints) → 0 < length (join_parts ((codes "ip:" ++ h) ∷ e ∷ []))
tail_some [] h = omega arith
tail_some (y ∷ ys) h = omega arith

join_parts_some :
    (a : CodePoints) (ps : List CodePoints)
    → 0 < length (join_parts ps)
    → 0 < length (join_parts (a ∷ ps))
join_parts_some [] ps some_part = some_part
join_parts_some (c ∷ cs) ps some_part = ground arith

module _ (t : Throttle) (o : TextOps) (q : RequestLike) where
  abbrev tail : CodePoints → List CodePoints
  tail h =
      (codes "ip:" ++ h)
      ∷ get_email_identity_part o (method_of o q ++ (32 ∷ get_stable_route_path q)) q.body_email
      ∷ []

  key_of-spoofed :
      (h : CodePoints)
      → IsPlain h
      → key_of t o (spoofed q h)
        ≡ o.hash_value
            (join_parts (codes t.name ∷ method_of o q ∷ get_stable_route_path q ∷ tail h))
  unfolding key_of generate_throttle_key key_parts method_of get_stable_route_path
  key_of-spoofed h plain = rw (tracker-spoofed q h plain) refl

  -- Different trackers have different keys, if SHA-256 has no collision.
  pub key_of_inj :
      (h h' : CodePoints)
      → ((a b : CodePoints) → o.hash_value a ≡ o.hash_value b → a ≡ b)
      → IsPlain h
      → IsPlain h'
      → key_of t o (spoofed q h) ≡ key_of t o (spoofed q h')
      → h ≡ h'
  key_of_inj h h' apart plain plain' same =
      let m = method_of o q in
      let p = get_stable_route_path q in
      let e = get_email_identity_part o (m ++ (32 ∷ p)) q.body_email in
      let some_tail = λ (x : CodePoints). tail_some e x in
      let some_path = λ (x : CodePoints). join_parts_some p (tail x) (some_tail x) in
      let some_method = λ (x : CodePoints). join_parts_some m (p ∷ tail x) (some_path x) in
      let whole = apart _ _ (sym (key_of-spoofed h plain) ∙ same ∙ key_of-spoofed h' plain') in
      tail_inj e h h' (
        join_parts_cancel p (tail h) (tail h') (some_tail h) (some_tail h') (
          join_parts_cancel m (p ∷ tail h) (p ∷ tail h') (some_path h) (some_path h') (
            join_parts_cancel (codes t.name) (m ∷ p ∷ tail h) (m ∷ p ∷ tail h') (some_method h)
              (some_method h') whole)))
