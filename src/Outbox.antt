-- ===== src/Outbox.antt =====
-- src/outbox: the events that wait to be handed to the dispatch queue.
pub mod Entity
pub mod Worker
pub mod Delivery
pub mod Retries
