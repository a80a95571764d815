-- ===== src/Abuse.antt =====
-- crates/weaver-abuse: the rate limits and the scanner firewall of the relay's own web surface.
pub mod Gcra
pub mod Key
pub mod Policy
pub mod Store
pub mod Gate
pub mod Surface
pub mod Scanner
pub mod Pass
pub mod Altcha
pub mod Tests
