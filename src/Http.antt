-- ===== src/Http.antt =====
-- The guards of src/auth, and the controllers behind them: the requests that change orders and drivers in
-- `Routes`, those that read orders in `Orders`, all routes of the drivers, the users and the accounts in
-- `Drivers`, `Users` and `Accounts`, and src/common/filters/http-exception.filter.ts in `Errors`. The bodies
-- of requests are taken as valid.
pub mod Guards
pub mod Routes
pub mod Router
pub mod Users
pub mod UserChanges
pub mod Accounts
pub mod Served
pub mod Privileges
pub mod Errors
pub mod Orders
pub mod Drivers
pub mod DriverRoutes
