-- ===== src/Capacity.antt =====
-- internal/capacity: the durable admission boundary over PostgreSQL.
pub mod Db
pub mod Policy
pub mod Intents
pub mod Admission
pub mod Leases
pub mod Provision
pub mod Handoff
pub mod Launch
pub mod Binding
pub mod Removals
pub mod Worker
pub mod Catalog
pub mod Steps
pub mod Unchanged
pub mod Groups
pub mod Administration
pub mod Inversion
pub mod Operations
pub mod Evolution
pub mod Fencing
pub mod Frame
pub mod Targets
pub mod Retries
pub mod Scenarios
