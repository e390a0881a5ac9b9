-- ===== src/Autoscaler.antt =====
-- internal/adapter/autoscaler: the adapter between the cluster autoscaler's protocol and the durable
-- capacity store.
pub mod Groups
pub mod Server
pub mod Retry
pub mod Delivery
pub mod Removal
pub mod Scenarios
