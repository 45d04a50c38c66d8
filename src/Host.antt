-- ===== src/Host.antt =====
-- crates/aegistoken-host.
pub mod Framing
