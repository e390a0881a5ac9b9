-- ===== src/Bootstrap.antt =====
-- internal/capacity, layer zero: a cluster's first zone is built phase by phase, under the same leases
-- and fences as the capacity operations.
pub mod Store
pub mod Records
pub mod Controller
pub mod Calls
pub mod Frame
pub mod Statements
pub mod Phases
pub mod Rounds
pub mod Queue
pub mod Scenarios
