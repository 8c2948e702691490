-- ===== src/Reduction/Dedup.antt =====
-- EDRStore/src/reduction/dedup_detect.cc: exact deduplication against the fingerprint index.
use edrstore.Prelude.{List, none, some, Bytes, bytes_discrete, find, assign}
use edrstore.Layout.{ChunkInfo, ChunkAddr, unique_chunk, duplicate_chunk}

-- The fingerprint index, `fp_2_addr_db_`.
abbrev pub FpIndex : Type 0
FpIndex = List (Bytes × ChunkAddr)

-- A fingerprint that is new is entered at once, with the address that the caller's record holds.
unfoldable pub detect_duplicate : FpIndex → ChunkInfo → FpIndex × ChunkInfo
detect_duplicate fp_2_addr_db info = elim (find bytes_discrete info.fp fp_2_addr_db) [
  | none ↦
      (assign bytes_discrete info.fp info.addr fp_2_addr_db, record info { stat = unique_chunk })
  | some ret_val ↦ (fp_2_addr_db, record info { stat = duplicate_chunk })
]
