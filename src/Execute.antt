-- ===== src/Execute.antt =====
-- internal/execute: the queue of actions, their executor and its worker.
pub mod Queue
pub mod Executor
pub mod Worker
pub mod Dispatch
pub mod Order
pub mod Protection
pub mod Scenarios
