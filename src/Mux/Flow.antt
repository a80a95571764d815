-- ===== src/Mux/Flow.antt =====
-- crates/weaver-mux/src/flow.rs: the two credit windows of a stream, which Flow/Link.antt joins.
pub mod SendWindow
pub mod RecvWindow
pub mod Link
