-- ===== src/Throttler.antt =====
-- The rate limits of src/common/throttler: `Redis` is what the script asks of Redis, `Storage` the
-- script and its storage, `Window` and `Blocks` what they promise; `Key` and `Config` are the key of a
-- request and the settings, and `Requests` the guard, with what a client can do to its key in `Unblocked`
-- and `Email`.
pub mod Redis
pub mod Storage
pub mod Script
pub mod Others
pub mod Window
pub mod Blocks
pub mod Key
pub mod Requests
pub mod Tracker
pub mod Spoof
pub mod Unblocked
pub mod Config
pub mod Email
