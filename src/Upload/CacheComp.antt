-- ===== src/Upload/CacheComp.antt =====
-- EDRStore/src/server/cache_comp_thd.cc: the thread that delta-compresses chunks against the
-- client's cache and maintains that cache. `delta_encode` is `DeltaComp::DeltaEncode` over xdelta
-- (EDRStore/src/reduction/delta_comp.cc), which may end the process.
use edrstore.Prelude.{
  ℕ, ◌+◌, List, [], ◌∷◌, ◌++◌, Bytes, Bool, true, false, u64, Outcome, ok, exit_failure, ◌>>=◌,
  if◌then◌else◌, ◌==◌,
}
use edrstore.Layout.{
  WrappedChunk, unique_chunk, unique_chunk_after_cache, cache_insert_chunk, cache_evict_chunk,
}
use edrstore.Cache.{
  KvStore, InformCache, process_normal_chunk, get_cache_size, insert_cached_chunk,
  evict_cache_chunk,
}

-- The cache, the chunks pushed to the writer, the local `output_data`, and the counters.
pub record CacheComp (S : Type 0) : Type 0 where
  pub inform_cache : InformCache S
  pub output_mq : List WrappedChunk
  pub output_data : WrappedChunk
  pub total_similar_chunk_num : ℕ
  pub total_similar_data_size : ℕ
  pub total_delta_size : ℕ

abbrev forward : {S : Type 0} → CacheComp S → WrappedChunk → CacheComp S
forward s c = record s { output_mq = s.output_mq ++ c ∷ [] }

abbrev as_unique : WrappedChunk → WrappedChunk
as_unique c = record c { info = record (c.info) { stat = unique_chunk } }

module _ {S : Type 0} (kv : KvStore S) (delta_encode : Bytes → Bytes → Outcome Bytes) where
  -- What follows `ProcessNormalChunk`.
  unfoldable pub after_cache :
      CacheComp S → Bool × WrappedChunk × WrappedChunk → Outcome (CacheComp S)
  after_cache s (true, input, output) = ok (record (forward s output) {
    output_data = output;
    total_similar_chunk_num = u64 (s.total_similar_chunk_num + 1);
    total_similar_data_size = u64 (s.total_similar_data_size + input.info.size);
    total_delta_size = u64 (s.total_delta_size + output.info.size);
  })
  after_cache s (false, input, output) =
      if get_cache_size s.inform_cache == 0 then ok (forward s (as_unique input)) else exit_failure

  -- One round of the loop of `Run`.
  unfoldable pub comp_step : CacheComp S → WrappedChunk → Outcome (CacheComp S)
  unfolding after_cache
  comp_step s c = elim c.info.stat [
    | unique_chunk_after_cache ↦ ok (forward s (as_unique c))
    | unique_chunk ↦
        process_normal_chunk kv delta_encode s.inform_cache c s.output_data >>= after_cache s
    | cache_insert_chunk ↦ ok (record s { inform_cache = insert_cached_chunk kv s.inform_cache c })
    | cache_evict_chunk ↦
        evict_cache_chunk s.inform_cache c >>= λ cache. ok (record s { inform_cache = cache })
    | _ ↦ exit_failure
  ]
