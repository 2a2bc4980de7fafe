-- ===== src/Lib.antt =====
-- The dispatch service for deliveries: customers place orders, drivers are offered them one after
-- another, accept or reject, and bring them to the end.
--
-- The parts of the program and the files that model them (paths from the repository's root):
-- - src/dispatch/dispatch.service.ts: Dispatch.Config has the settings, `shouldSkipAssignment`,
--   `triggerDispatch` and `cancelDispatchTimeout`; Dispatch.Candidates has
--   `findNearestEligibleDrivers`; Dispatch.Assign has `handleAssignDriver`, `assignDriverWithLock` and
--   `expireOrder`; Dispatch.Answers has `handleDispatchTimeout`, `acceptDispatch` and
--   `rejectDispatch`, each as its transaction, on the row that is locked, and what follows it.
-- - src/orders/orders.service.ts: Orders.Create has `createOrder`; Orders.Rules has `validateActor`
--   and `validateTransition`; Orders.Requests has `findById`, `updateStatus`, `cancelOrder`,
--   `softDelete` and `reassignOrder`. Orders.Entity and Orders.Status have the rows and the states.
-- - src/dispatch/dispatch.processor.ts and src/tracking/tracking.processor.ts: Dispatch.Processor and
--   Tracking.Processor.
-- - src/drivers/drivers.service.ts: Drivers.Service, with the row in Drivers.Entity.
-- - src/tracking/tracking.service.ts: Tracking. src/common/utils/distance.util.ts: Distance.
-- - src/outbox/outbox-worker.service.ts: Outbox.Worker, with the row in Outbox.Entity.
-- - src/users/users.service.ts: Users.Service, with the row, and the user of a request, in
--   Users.Entity.
-- - src/auth/services/token.service.ts, src/auth/strategy/refresh.strategy.ts, and `refreshTokens` and
--   `logout` of src/auth/services/auth.service.ts: Auth.Tokens. The rest of that service: Auth.State
--   has the data, Auth.Registration `register`, `verifyEmail` and `resendVerificationEmail`,
--   Auth.Login `login`, `loginWithGoogle` and src/auth/strategy/google.strategy.ts, Auth.Passwords
--   `forgotPassword` and `resetPassword`; Auth.Accounts runs them in any order.
-- - src/common/throttler/redis-throttler-storage.ts: Throttler.Storage, on the commands of
--   Throttler.Redis. src/common/throttler/throttle-key.util.ts: Throttler.Key, and
--   src/common/throttler/throttle.config.ts: Throttler.Config. Throttler.Requests counts requests as
--   src/common/throttler/throttler-infrastructure.module.ts sets the guard up.
-- - src/mail/mail.service.ts: Mail.Escape has `escapeHtml`, Mail.Html the two texts, Mail.Service the
--   sending, with `sendVerificationEmail` and `sendPasswordResetEmail` of the service of the accounts.
-- - src/auth/guards and src/auth/strategy/jwt.strategy.ts: Http.Guards. The routes of
--   src/orders/orders.controller.ts and src/drivers/drivers.controller.ts that change orders and drivers:
--   Http.Routes, which ties them to `System.step`. src/users/users.controller.ts: Http.Users, with the
--   routes as data for a router; src/auth/controllers/auth.controller.ts: Http.Accounts; Http.Served runs
--   requests to both. The routes that read orders: Http.Orders. All routes of the drivers as data:
--   Http.Drivers. src/common/filters/http-exception.filter.ts: Http.Errors.
-- - src/events/events.gateway.ts: Events.Gateway, and `emitToRoom`, with
--   src/events/event-publisher.service.ts, in Events.Publisher.
-- - `findAll` of the orders, the drivers and the users: Paging has the cursors and the pages that they
--   share, Orders.Listing, Drivers.Listing and Users.Listing the three services. The database's
--   microseconds of a row's time are the argument `micros`, next to the milliseconds that the row has.
--
-- The parts share a database, two job queues, Redis and the messages to clients: the record `World`.
-- A service function is a function on it. `System.step` takes one event (a request that
-- changes orders or drivers, a job, or a round of the worker), and `System.run` a sequence of them. A request such as `updateStatus` reads a row
-- and writes it later in a transaction of its own; the functions `…_from` and `commit_…` take the row
-- as it was read and the state at the time of the write, so that what happened between the two can be
-- anything. Orders.Lifecycle says, as a relation, every change that a row may make; the handlers
-- refine it.
--
-- `Platform` is what the program uses and does not implement: floating-point numbers, tables, Redis
-- keys and BullMQ queues, with the documented laws that the code relies on (a read sees the last
-- write; a job under an id that the queue holds is not added again; an `add` throws on an id that the
-- queue does not take, such as BullMQ on one with a colon, which `takes_id` says). Platform.Memory fills it. `Crypto`,
-- in Auth.Tokens, has the signature of an access token and the hash of a token or a password. `Redis`, in
-- Throttler.Redis, has keys whose values expire while time passes. `Codec`, in Paging, is Base64 and JSON.
-- `TextOps`, in Throttler.Key, is the case of letters and SHA-256; `Router`, in Http.Router, is how Nest
-- finds the route of a request.
--
-- Identifiers are natural numbers that stand for texts, 0 for the empty one. Counters are natural
-- numbers without a bound: a version or a count of attempts stays far below 2 ^ 53. Every loop goes
-- through a list, so no fuel is needed. The ids of new rows, the time and the rows that other
-- transactions have locked are arguments.
--
-- Not modelled: the validation of bodies, the texts of exceptions, logging, the documentation of the
-- routes, the schema's migrations, the wiring of modules, and failures of the database or of Redis in
-- the middle of a handler. The expiry of the refresh tokens
-- and of the offers in Redis is written down with each key, and no time passes for them; for the
-- throttles it does.
pub mod Common
pub mod Platform
pub mod Orders
pub mod Drivers
pub mod Users
pub mod Auth
pub mod Throttler
pub mod Paging
pub mod Http
pub mod Mail
pub mod Outbox
pub mod Events
pub mod World
pub mod Distance
pub mod Tracking
pub mod Dispatch
pub mod System
pub mod Examples
