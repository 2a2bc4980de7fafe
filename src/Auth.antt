-- ===== src/Auth.antt =====
-- src/auth: the sessions of users.
pub mod Tokens
pub mod Sessions
pub mod State
pub mod Registration
pub mod Passwords
pub mod Login
pub mod Accounts
