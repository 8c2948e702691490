-- ===== src/Upload/DualDedup.antt =====
-- EDRStore/src/server/dual_dedup_thd.cc: the thread that drops duplicate chunks by their dual
-- fingerprints.
pub mod Once
use edrstore.Prelude.{
  ℕ, ◌+◌, List, [], ◌∷◌, ◌++◌, Bytes, u64, take, Outcome, ok, exit_failure, ◌>>=◌,
}
use edrstore.Layout.{
  ChunkStatus, ChunkInfo, WrappedChunk, chunk_pair, single_chunk, cache_insert_chunk,
  cache_evict_chunk, unique_chunk, unique_chunk_after_cache,
}
use edrstore.Reduction.Dedup.{FpIndex, detect_duplicate}

pub record DualDedup : Type 0 where
  pub fp_2_addr_db : FpIndex
  pub output_mq : List WrappedChunk
  pub total_unique_chunk_num : ℕ
  pub total_unique_data_size : ℕ

abbrev forward : DualDedup → WrappedChunk → DualDedup
forward s c = record s { output_mq = s.output_mq ++ c ∷ [] }

abbrev count_unique : DualDedup → ℕ → DualDedup
count_unique s size = record s {
  total_unique_chunk_num = u64 (s.total_unique_chunk_num + 1);
  total_unique_data_size = u64 (s.total_unique_data_size + size);
}

module _ (extract_feature : Bytes → List ℕ) where
  -- The compressed chunk behind a chunk for the cache, with what `DetectDuplicate` has answered.
  unfoldable pub pair_detected : DualDedup → WrappedChunk → FpIndex × ChunkInfo → DualDedup
  pair_detected s c (db, info) =
      let s' = record s { fp_2_addr_db = db } in
      elim info.stat [
        | unique_chunk ↦
            count_unique
              (forward s' (record c {
                info = record info {
                  stat = unique_chunk_after_cache;
                  features = extract_feature (take info.size c.buf);
                };
              }))
              info.size
        | _ ↦ s'
      ]

  unfoldable pub dedup_pair : DualDedup → WrappedChunk → DualDedup
  unfolding pair_detected
  dedup_pair s c = pair_detected s c (detect_duplicate s.fp_2_addr_db c.info)

  -- A chunk without a compressed one.
  unfoldable pub single_detected : DualDedup → WrappedChunk → FpIndex × ChunkInfo → DualDedup
  single_detected s c (db, info) =
      let s' = record s { fp_2_addr_db = db } in
      elim info.stat [
        | unique_chunk ↦ count_unique (forward s' (record c { info = info })) info.size
        | _ ↦ s'
      ]

  unfoldable pub dedup_single : DualDedup → WrappedChunk → DualDedup
  unfolding single_detected
  dedup_single s c = single_detected s c (detect_duplicate s.fp_2_addr_db c.info)

  -- The switch on the state of a chunk.
  unfoldable pub dedup_as : ChunkStatus → DualDedup → WrappedChunk → Outcome DualDedup
  unfolding dedup_pair dedup_single
  dedup_as chunk_pair s c = ok (dedup_pair s c)
  dedup_as single_chunk s c = ok (dedup_single s c)
  dedup_as cache_insert_chunk s c = ok (forward s c)
  dedup_as cache_evict_chunk s c = ok (forward s c)
  dedup_as _ s c = exit_failure

  -- One round of the loop of `Run`.
  unfoldable pub dedup_step : DualDedup → WrappedChunk → Outcome DualDedup
  unfolding dedup_as
  dedup_step s c = dedup_as c.info.stat s c

  -- The loop, over the chunks that the thread pops.
  unfoldable pub dedup_run : DualDedup → List WrappedChunk → Outcome DualDedup
  dedup_run s [] = ok s
  dedup_run s (c ∷ cs) = dedup_step s c >>= λ s'. dedup_run s' cs
