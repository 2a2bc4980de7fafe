-- ===== src/Dispatch.antt =====
-- src/dispatch: the offer of an order to one driver after another.
pub mod Config
pub mod Candidates
pub mod Assign
pub mod Answers
pub mod Processor
pub mod Queueing
pub mod Offers
pub mod Refinement
pub mod Repeats
pub mod Rounds
pub mod Ranking
