-- ===== src/Activity.antt =====
-- internal/activitymanager: from the problems of hosts to actions on them.
pub mod Cache
pub mod Manager
pub mod Repeats
pub mod Scenarios
