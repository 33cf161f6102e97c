-- ===== src/Hash.antt =====
-- src/main/algorithms/hash.
pub mod Murmur3
