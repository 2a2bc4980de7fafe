-- ===== src/Orders.antt =====
-- src/orders: the orders, their life cycle and the requests of customers, drivers and admins.
pub mod Status
pub mod Entity
pub mod Rules
pub mod Create
pub mod Requests
pub mod Lifecycle
pub mod Versions
pub mod Refinement
pub mod Access
pub mod Idempotency
pub mod Listing
pub mod Precision
