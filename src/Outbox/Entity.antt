-- ===== src/Outbox/Entity.antt =====
-- src/outbox/entities and src/outbox/enums: the row of an event that waits for the worker.
use logistics_dispatch.Common.{Bool, Option, ℕ}

pub data OutboxStatus : Type 0 where
  pending processed failed : OutboxStatus

-- The type of an event and its payload, in the cases that the worker tells apart: a dispatch trigger
-- with an order's id, one whose payload has no such id, and any other type.
pub data OutboxBody : Type 0 where
  dispatch_trigger : ℕ → OutboxBody
  malformed_trigger : OutboxBody
  unknown_event : OutboxBody

pub record OutboxEvent : Type 0 where
  pub id : ℕ
  pub body : OutboxBody
  pub status : OutboxStatus
  pub attempts : ℕ
  pub has_error : Bool
  pub created_at : ℕ
  pub processed_at : Option ℕ
