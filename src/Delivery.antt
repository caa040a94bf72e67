-- ===== src/Delivery.antt =====
-- server/internal/delivery: the outbox that owes events to agents, and the worker that sends them.
pub mod Schedule
pub mod Outbox
pub mod Worker
pub mod Service
mod Examples
