-- ===== src/Features.antt =====
-- EDRStore/src/chunker: the features by which similar chunks are found. Bits has the operations on
-- 64-bit numbers, Rabin the rolling fingerprint, and Finesse the super-features.
pub mod Bits
pub mod Rabin
pub mod InBounds
pub mod Finesse
pub mod Extracted
