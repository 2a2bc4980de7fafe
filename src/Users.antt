-- ===== src/Users.antt =====
-- src/users: the accounts.
pub mod Entity
pub mod Service
pub mod Promotion
pub mod Listing
