-- ===== src/Dispatch/Queueing.antt =====
-- What becomes of an order when the queue refuses the id of its job (`triggerDispatch`,
-- src/dispatch/dispatch.service.ts): the `add` throws after the transaction has been committed.
use logistics_dispatch.Platform.{Platform}
use logistics_dispatch.World.{World}
