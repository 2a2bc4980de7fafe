-- ===== src/Orders/Idempotency.antt =====
-- What `createOrder` of src/orders/orders.service.ts promises of a request that is sent again.
use logistics_dispatch.Common.{
  ==_refl, Exception, Option, Result, [], arith, conflict, err, inl, inr, is_ok, none, ok, refl,
  some, true, ℕ, ◌++◌, ◌∷◌, ◌≡◌, ◌⊎◌,
}
use logistics_dispatch.Http.Routes.{done}
use logistics_dispatch.Orders.Create.{
  CreateOrderDto, IdempotencyKey, create_checks, create_order, idempotency_key_ttl_seconds,
  new_order, trigger_event,
}
use logistics_dispatch.Orders.Entity.{actor, to_order_response}
use logistics_dispatch.Orders.Status.{pending}
use logistics_dispatch.Platform.{Platform, find-put, put}
use logistics_dispatch.World.{World}

-- The answer, and the rows that a creation adds: the order, the first row of its history, and the event
-- that has it dispatched.
abbrev pub AllMade :
    {p : Platform}
    → CreateOrderDto p.Float
    → ℕ
    → Option IdempotencyKey
    → ℕ
    → ℕ
    → ℕ
    → World p
    → Type 0
AllMade {p} dto c key k b now w =
    let (answer, w') = create_order dto c key k b now w in
    let o = new_order p dto c k now in
    (answer ≡ ok (to_order_response p o))
    × (w'.orders ≡ put w.orders k o)
    × (w'.outbox ≡ w.outbox ++ trigger_event b k now ∷ [])
    × (w'.history
        ≡ record { order_id = k; previous_status = none; new_status = pending; actor_id = actor c }
          ∷ w.history)

module _ {p : Platform} where
  -- What a creation leaves behind, by the outcome of its checks.
  created :
      (dto : CreateOrderDto p.Float) (c : ℕ) (key : Option IdempotencyKey) (k b now : ℕ)
      (w : World p) (checks : Result (Unit {0}))
      → create_checks dto key w ≡ checks
      → ((e : Exception) × (create_order dto c key k b now w ≡ (err e, w)))
        ⊎ AllMade dto c key k b now w
  unfolding create_order to_order_response
  created dto c key k b now w (err x) e = inl (x, ground arith)
  created dto c none k b now w (ok x) e =
      inr (ground arith, ground arith, ground arith, ground arith)
  created dto c (some key) k b now w (ok x) e =
      inr (ground arith, ground arith, ground arith, ground arith)

  -- A creation is refused and changes nothing, or it answers with the new order, and adds the order, its
  -- first row of the history and the event that has it dispatched.
  pub create_all_or_nothing :
      (dto : CreateOrderDto p.Float) (c : ℕ) (key : Option IdempotencyKey) (k b now : ℕ)
      (w : World p)
      → ((e : Exception) × (create_order dto c key k b now w ≡ (err e, w)))
        ⊎ AllMade dto c key k b now w
  create_all_or_nothing dto c key k b now w =
      created dto c key k b now w (create_checks dto key w) refl

  again :
      (dto dto' : CreateOrderDto p.Float) (c c' : ℕ) (key : IdempotencyKey) (k k' b b' now now' : ℕ)
      (w : World p) (checks : Result (Unit {0}))
      → create_checks dto (some key) w ≡ checks
      → is_ok (create_order dto c (some key) k b now w).0 ≡ true
      → let w' = (create_order dto c (some key) k b now w).1 in
        create_order dto' c' (some key) k' b' now' w' ≡ (err conflict, w')
  unfolding create_order
  again dto dto' c c' key k k' b b' now now' w (err x) e done = absurd (ground arith)
  again dto dto' c c' key k k' b b' now now' w (ok x) e done = ground (
    arith,
    find-put w.idempotency_keys key.code key.code (record {
      value = to_order_response p (new_order p dto c k now);
      ttl = idempotency_key_ttl_seconds;
    }),
    ==_refl key.code,
  )

  -- After a creation under a key that succeeded, another creation with the same key is refused as a
  -- conflict and changes nothing, whatever order it asks for and whoever sends it.
  create_again :
      (dto dto' : CreateOrderDto p.Float) (c c' : ℕ) (key : IdempotencyKey) (k k' b b' now now' : ℕ)
      (w : World p)
      → is_ok (create_order dto c (some key) k b now w).0 ≡ true
      → let w' = (create_order dto c (some key) k b now w).1 in
        create_order dto' c' (some key) k' b' now' w' ≡ (err conflict, w')
  create_again dto dto' c c' key k k' b b' now now' w done =
      again dto dto' c c' key k k' b b' now now' w (create_checks dto (some key) w) refl done
