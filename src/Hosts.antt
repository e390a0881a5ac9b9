-- ===== src/Hosts.antt =====
-- internal/hostcatalog: the hosts outside the capacity transactions, and their life cycle.
pub mod Lifecycle
pub mod Catalog
