-- ===== src/Upload/Writer.antt =====
-- EDRStore/src/server/data_writer_thd.cc: the thread that delta-compresses chunks against stored
-- bases and writes them to containers. `delta_encode` is `DeltaComp::DeltaEncode` over xdelta. Each
-- round is given the ids that `CreateUUID` would draw in its writes.
pub mod Entered
use edrstore.Prelude.{
  ℕ, ◌+◌, [], none, some, Bytes, Bool, u64, take, length, bytes_discrete, assign, Outcome, ok,
  exit_failure, ◌>>=◌, if◌then◌else◌, ◌==◌,
}
use edrstore.Layout.{
  ChunkStatus, ChunkAddr, ChunkInfo, WrappedChunk, unique_chunk, similar_chunk, non_similar_chunk,
  cache_delta_chunk, comp_delta_chunk, comp_base_chunk,
}
use edrstore.Database
use edrstore.Reduction.Dedup.{FpIndex}
use edrstore.Reduction.Similar.{FeatureIndex, find_base_chunk_db, update_feature_index}
use edrstore.Storage.{StorageCore, read_chunk, write_chunk, save_container}
use edrstore.Storage.Lru.{LruCache}

pub record Writer (L : Type 0) : Type 0 where
  pub storage : StorageCore L
  pub fp_2_addr_db : FpIndex
  pub feature_2_fp_db : FeatureIndex
  pub total_similar_chunk_num : ℕ
  pub total_similar_data_size : ℕ
  pub total_delta_size : ℕ

abbrev set_addr : ChunkInfo → ChunkAddr → ChunkInfo
set_addr i a = record i { addr = a }

abbrev set_addr_stat : ChunkAddr → ChunkStatus → ChunkAddr
set_addr_stat a s = record a { stat = s }

-- The update of the fingerprint index.
unfoldable pub enter_addr : {L : Type 0} → Writer L × WrappedChunk → Writer L
enter_addr r = record (r.0) {
  fp_2_addr_db = assign bytes_discrete r.1.info.fp r.1.info.addr r.0.fp_2_addr_db;
}

module _ {L : Type 0} (can_open : Bytes → Bool) where
  -- A chunk written as it is, with the state that its address is given.
  unfoldable pub write_as :
      ChunkStatus → Bytes → Writer L → WrappedChunk → Outcome (Writer L × WrappedChunk)
  write_as stat uuid w c =
      write_chunk can_open uuid w.storage c.info.addr c.buf c.info.size >>= λ r.
      ok (record w { storage = r.0 }, record c { info = set_addr c.info (set_addr_stat r.1 stat) })

  unfoldable pub proc_non_similar_chunk :
      Bytes → Writer L → WrappedChunk → Outcome (Writer L × WrappedChunk)
  unfolding write_as
  proc_non_similar_chunk = write_as comp_base_chunk

  unfoldable pub proc_cache_delta_chunk :
      Bytes → Writer L → WrappedChunk → Outcome (Writer L × WrappedChunk)
  unfolding write_as
  proc_cache_delta_chunk = write_as cache_delta_chunk

  module _ {cap : ℕ} (lru : LruCache cap L) (delta_encode : Bytes → Bytes → Outcome Bytes) where
    -- The base's bytes; none of them where the storage does not find its container.
    unfoldable pub fetch_base_chunk : Writer L → Bytes → Outcome (Bytes × Writer L)
    fetch_base_chunk w base_fp = elim (Database.query bytes_discrete w.fp_2_addr_db base_fp).value [
      | none ↦ exit_failure
      | some base_addr ↦
          let (read, storage) = read_chunk lru w.storage base_addr in
          ok (elim read [ some base_data ↦ base_data | none ↦ [] ], record w { storage = storage })
    ]

    -- The write that comes first where the base is empty. It does not end the call.
    unfoldable pub write_without_base :
        Bytes → Bytes → Writer L → WrappedChunk → Outcome (Writer L × WrappedChunk)
    write_without_base uuid base_chunk w c =
        if length base_chunk == 0
        then (write_chunk can_open uuid w.storage c.info.addr c.buf c.info.size >>= λ r.
            ok (record w { storage = r.0 }, record c { info = set_addr c.info r.1 }))
        else ok (w, c)

    unfoldable pub proc_similar_chunk :
        Bytes → Bytes → Writer L → WrappedChunk → Outcome (Writer L × WrappedChunk)
    unfolding fetch_base_chunk write_without_base
    proc_similar_chunk uuid uuid' w c = do
      (base_chunk, w1) ← fetch_base_chunk w c.info.addr.base_fp
      (w2, c2) ← write_without_base uuid base_chunk w1 c
      delta_chunk ← delta_encode base_chunk (take c2.info.size c2.buf)
      (storage, addr) ←
          write_chunk can_open uuid' w2.storage c2.info.addr delta_chunk (length delta_chunk)
      ok (
        record w2 {
          storage = storage;
          total_delta_size = u64 (w2.total_delta_size + length delta_chunk);
        },
        record c2 { info = set_addr c2.info (set_addr_stat addr comp_delta_chunk) },
      )

    -- The inner switch, on the state that `FindBaseChunk` has set.
    unfoldable pub proc_unique_as :
        ChunkStatus → Bytes → Bytes → Writer L → WrappedChunk → Outcome (Writer L × WrappedChunk)
    unfolding proc_similar_chunk proc_non_similar_chunk
    proc_unique_as similar_chunk uuid uuid' w c =
        proc_similar_chunk uuid uuid'
          (record w {
            total_similar_chunk_num = u64 (w.total_similar_chunk_num + 1);
            total_similar_data_size = u64 (w.total_similar_data_size + c.info.size);
          })
          c
    proc_unique_as non_similar_chunk uuid uuid' w c = proc_non_similar_chunk uuid w c >>= λ r. ok (
      record (r.0) {
        feature_2_fp_db = update_feature_index r.0.feature_2_fp_db r.1.info.features r.1.info.fp;
      },
      r.1,
    )
    proc_unique_as _ uuid uuid' w c = exit_failure

    -- A chunk that is not a delta against the cache.
    unfoldable pub proc_unique_chunk :
        Bytes → Bytes → Writer L → WrappedChunk → Outcome (Writer L × WrappedChunk)
    unfolding proc_unique_as
    proc_unique_chunk uuid uuid' w c =
        let info = find_base_chunk_db w.feature_2_fp_db c.info in
        proc_unique_as info.stat uuid uuid' w (record c { info = info })

    -- The outer switch.
    unfoldable pub store_as :
        ChunkStatus → Bytes → Bytes → Writer L → WrappedChunk → Outcome (Writer L × WrappedChunk)
    unfolding proc_unique_chunk proc_cache_delta_chunk
    store_as cache_delta_chunk uuid uuid' w c = proc_cache_delta_chunk uuid w c
    store_as unique_chunk uuid uuid' w c = proc_unique_chunk uuid uuid' w c
    store_as _ uuid uuid' w c = exit_failure

    -- One round of the loop of `Run`: the chunk is stored, and its address is entered.
    unfoldable pub writer_step : Bytes → Bytes → Writer L → WrappedChunk → Outcome (Writer L)
    unfolding store_as enter_addr
    writer_step uuid uuid' w c = store_as c.info.stat uuid uuid' w c >>= λ r. ok (enter_addr r)

  -- What `Run` does when the queue is done: the tail container is saved.
  unfoldable pub writer_end : Writer L → Outcome (Writer L)
  writer_end w =
      if w.storage.cur_container.cur_size == 0
      then ok w
      else (save_container can_open w.storage >>= λ storage. ok (record w { storage = storage }))
