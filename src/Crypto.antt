-- ===== src/Crypto.antt =====
-- The Go packages below crypto.
pub mod Threshold
pub mod Bls
