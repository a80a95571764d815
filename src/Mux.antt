-- ===== src/Mux.antt =====
-- crates/weaver-mux: the sans-IO multiplexer.
pub mod FrameType
pub mod Error
pub mod Frame
pub mod Flow
pub mod Wire
pub mod Class
pub mod Handshake
pub mod Env
pub mod Auth
pub mod Config
pub mod Compress
pub mod Timers
pub mod Sched
pub mod Event
pub mod Stream
pub mod Connection
pub mod Fixtures
pub mod Tests
