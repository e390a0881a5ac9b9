-- ===== src/HostOperations.antt =====
-- internal/hostoperations: a Dominator delivers secrets to the agents of its hosts, each request under
-- a revision of the host's own.
pub mod Store
pub mod Controller
pub mod Revisions
pub mod Enforcement
pub mod Scenarios
