-- ===== src/Agent.antt =====
-- services/network-agent: the outbox of events and the worker that delivers it.
pub mod Outbox
pub mod Publisher
