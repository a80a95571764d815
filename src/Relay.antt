-- ===== src/Relay.antt =====
-- crates/weaver-server: the relay. The registry of its tunnels, and the host of a request.
pub mod Registry
pub mod Services
pub mod Rename
pub mod Host
pub mod Names
pub mod Control
pub mod Machines
pub mod Scheduler
pub mod Tests
