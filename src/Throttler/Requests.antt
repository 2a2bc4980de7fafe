-- ===== src/Throttler/Requests.antt =====
-- Requests through the guard of @nestjs/throttler as
-- src/common/throttler/throttler-infrastructure.module.ts sets it up: it counts a request under the key
-- that `generateThrottleKey` makes from it, and turns it away where the storage says that it is blocked.
use logistics_dispatch.Common.{List, [], codes, if◌then◌else◌, ℕ, ◌+◌, ◌∷◌}
use Prim.Native.String.{String}
use logistics_dispatch.Throttler.Key.{
  RequestLike, TextOps, generate_throttle_key, get_client_tracker,
}
use logistics_dispatch.Throttler.Redis.{Redis}
use logistics_dispatch.Throttler.Storage.{Evalsha, RedisThrottlerStorage, Throttle, increment}

pub record Visit : Type 0 where
  pub request : RequestLike
  pub at : ℕ
  -- What becomes of the script.
  pub reply : Evalsha

module _ (t : Throttle) (o : TextOps) where
  -- `generateKey(context, getTracker(request), name)`
  unfoldable pub key_of : RequestLike → String
  unfolding generate_throttle_key get_client_tracker
  key_of q = generate_throttle_key o q (get_client_tracker q) (codes t.name)

module _ (r : Redis) (t : Throttle) (o : TextOps) where
  -- How many of the requests get through.
  unfoldable pub let_through : List Visit → RedisThrottlerStorage r → ℕ
  unfolding key_of increment
  let_through [] s = 0
  let_through (v ∷ vs) s =
      let x = increment r t (key_of t o v.request) v.at v.reply s in
      let rest = let_through vs x.1 in if x.0.is_blocked then rest else rest + 1
