-- ===== src/Prototype.antt =====
-- The independent conversation prototype (archive/v3/src/mutsumi_sync/prototype): the reply
-- protocol, and the runtime that owns short chat turns and durable jobs.
pub mod Protocol
pub mod Chat
pub mod Tasks
pub mod Worker
