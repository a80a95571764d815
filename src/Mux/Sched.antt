-- ===== src/Mux/Sched.antt =====
-- crates/weaver-mux/src/sched: the two-level scheduling tree and its QFQ schedulers.
pub mod Group
pub mod Flow
pub mod Qfq
pub mod Tree
