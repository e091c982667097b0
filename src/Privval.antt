-- ===== src/Privval.antt =====
-- The Go package privval.
pub mod KeyFile
