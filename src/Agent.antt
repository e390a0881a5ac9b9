-- ===== src/Agent.antt =====
-- internal/subd: the agent on a host, which takes the expected state of the host one revision at a
-- time and keeps what it has accepted in a file.
pub mod Request
pub mod Normal
pub mod State
pub mod Server
pub mod History
pub mod Invariant
pub mod Restart
pub mod Handling
pub mod Register
pub mod Replay
pub mod Scenarios
pub mod Registration
pub mod Join
pub mod JoinOrder
pub mod Startup
