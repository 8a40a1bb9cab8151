-- ===== src/Package.antt =====
-- The version-1 vote package of packages/crypto/src/index.ts: ciphertexts, validity proofs, their
-- validation and digests. An object that comes from outside carries the names of its keys, which
-- `exactKeys` reads.
pub mod Points
pub mod Ciphertext
pub mod Validation
pub mod Digest
pub mod Accepted
pub mod Normal
