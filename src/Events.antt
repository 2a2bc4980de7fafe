-- ===== src/Events.antt =====
-- src/events: the sockets of drivers and customers, their rooms, and the messages that they receive.
pub mod Gateway
pub mod Rooms
pub mod Publisher
pub mod Audience
