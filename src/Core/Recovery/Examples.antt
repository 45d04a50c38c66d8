-- ===== src/Core/Recovery/Examples.antt =====
-- A concrete session of crates/aegis-core/src/recovery.rs.
