-- ===== src/Reduction.antt =====
-- EDRStore/src/reduction: the detection of duplicates and of similar chunks.
pub mod Dedup
pub mod Similar
