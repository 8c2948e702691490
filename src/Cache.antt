-- ===== src/Cache.antt =====
-- EDRStore/src/server/inform_cache.cc: the server's cache of base chunks of one client, with the
-- index from features to bases and the number of features that lead to each base. The chunk data
-- stand in a key-value store of a library (RocksDB), taken as a parameter with its laws.
pub mod Refs
pub mod Eviction
pub mod Deletion
pub mod Counting
pub mod Normal
pub mod File
pub mod Persistence
use edrstore.Prelude.{
  ℕ, zero, suc, ◌+◌, ◌-◌, ◌*◌, List, [], ◌∷◌, Option, none, some, Bool, true, false, Bytes,
  bytes_discrete, find, assign, erase, ltb, if◌then◌else◌, ◌==◌, u32, u64, ℕ_discrete, Outcome, ok,
  exit_failure, ◌>>=◌, take, drop, le_value, length, ◌≡◌, ◌≢◌,
}
use edrstore.Layout.{
  ChunkStatus, ChunkInfo, WrappedChunk, super_feature_per_chunk, similar_chunk, non_similar_chunk,
  cache_delta_chunk,
}
use edrstore.Reduction.Similar.{FeatureIndex, find_base_chunk_map, update_feature_index}

-- What the code relies on of a key-value store: a read sees the last write or deletion.
pub record KvStore (S : Type 0) : Type 0 where
  pub get : S → Bytes → Option Bytes
  pub put : S → Bytes → Bytes → S
  pub delete : S → Bytes → S
  pub get-put_self : (s : S) (k v : Bytes) → get (put s k v) k ≡ some v
  pub get-put_ne : (s : S) (k j v : Bytes) → j ≢ k → get (put s k v) j ≡ get s j
  pub get-delete_self : (s : S) (k : Bytes) → get (delete s k) k ≡ none
  pub get-delete_ne : (s : S) (k j : Bytes) → j ≢ k → get (delete s k) j ≡ get s j

-- The pair of `base_2_cnt_idx_`: the count of features, and the chunk's size.
pub record CntEntry : Type 0 where
  pub cnt : ℕ
  pub chunk_size : ℕ

pub record InformCache (S : Type 0) : Type 0 where
  pub base_2_data_db : S
  pub base_2_cnt_idx : List (Bytes × CntEntry)
  pub local_feature_2_fp_db : FeatureIndex

-- `*(uint64_t*)(data + i * sizeof(uint64_t))`
unfoldable pub feature_at : Bytes → ℕ → ℕ
feature_at buf i = le_value (take 8 (drop (8 * i) buf))

-- The features that the loop reads, for `i` in `[from, from + n)`.
unfoldable pub features_of : ℕ → ℕ → Bytes → List ℕ
features_of zero from buf = []
features_of (suc n) from buf = feature_at buf from ∷ features_of n (from + 1) buf

module _ {S : Type 0} where
  -- One round of the loop of `EvictCacheChunk`.
  unfoldable pub evict_feature : InformCache S → ℕ → Outcome (InformCache S)
  evict_feature c feature = elim (find ℕ_discrete feature c.local_feature_2_fp_db) [
    | none ↦ exit_failure
    | some base_fp ↦ elim (find bytes_discrete base_fp c.base_2_cnt_idx) [
      | none ↦ exit_failure
      | some e ↦ ok (record c {
        base_2_cnt_idx =
            assign bytes_discrete base_fp (record e { cnt = if ltb 0 e.cnt then e.cnt - 1 else 0 })
              c.base_2_cnt_idx;
        local_feature_2_fp_db = erase ℕ_discrete feature c.local_feature_2_fp_db;
      })
    ]
  ]

  unfoldable pub evict_features : List ℕ → InformCache S → Outcome (InformCache S)
  evict_features [] c = ok c
  evict_features (f ∷ fs) c = evict_feature c f >>= evict_features fs

  -- The size field of such a chunk holds the number of features.
  unfoldable pub evict_cache_chunk : InformCache S → WrappedChunk → Outcome (InformCache S)
  evict_cache_chunk c evict_chunk =
      evict_features (features_of evict_chunk.info.size 0 evict_chunk.buf) c

  unfoldable pub is_base_chunk_exist : InformCache S → Bytes → Bool
  is_base_chunk_exist c base_fp = elim (find bytes_discrete base_fp c.base_2_cnt_idx) [
    | some e ↦ true
    | none ↦ false
  ]

  unfoldable pub get_cache_size : InformCache S → ℕ
  get_cache_size c = length c.local_feature_2_fp_db

module _ {S : Type 0} (kv : KvStore S) where
  unfoldable pub insert_cached_chunk : InformCache S → WrappedChunk → InformCache S
  insert_cached_chunk c cache_chunk =
      let base_fp = cache_chunk.info.fp in
      let features =
        update_feature_index c.local_feature_2_fp_db cache_chunk.info.features base_fp in
      elim (find bytes_discrete base_fp c.base_2_cnt_idx) [
        | some e ↦ record c {
          local_feature_2_fp_db = features;
          base_2_cnt_idx =
              assign bytes_discrete base_fp
                (record e { cnt = u32 (e.cnt + super_feature_per_chunk) }) c.base_2_cnt_idx;
        }
        | none ↦ record c {
          local_feature_2_fp_db = features;
          base_2_cnt_idx =
              assign bytes_discrete base_fp
                (record { cnt = super_feature_per_chunk; chunk_size = cache_chunk.info.size })
                c.base_2_cnt_idx;
          base_2_data_db =
              kv.put c.base_2_data_db base_fp (take cache_chunk.info.size cache_chunk.buf);
        }
      ]

  -- The loop of `DeleteEvictChunk` over the count index: the index that is left, the store, and
  -- the total size.
  unfoldable pub delete_loop : List (Bytes × CntEntry) → S → ℕ → List (Bytes × CntEntry) × S × ℕ
  delete_loop [] db total = ([], db, total)
  delete_loop ((fp, e) ∷ idx) db total =
      let rest = delete_loop idx (kv.delete db fp) total in
      let keep = delete_loop idx db (u64 (total + e.chunk_size)) in
      if e.cnt == 0 then rest else ((fp, e) ∷ keep.0, keep.1, keep.2)

  unfoldable pub delete_evict_chunk : InformCache S → InformCache S × ℕ
  delete_evict_chunk c =
      let (idx, db, total) = delete_loop c.base_2_cnt_idx c.base_2_data_db 0 in
      (record c { base_2_cnt_idx = idx; base_2_data_db = db }, total)

  -- The size and the bytes of the base chunk that are copied out.
  unfoldable pub fetch_base_chunk : InformCache S → Bytes → Outcome Bytes
  fetch_base_chunk c base_fp = elim (kv.get c.base_2_data_db base_fp) [
    | none ↦ exit_failure
    | some chunk ↦ ok chunk
  ]

  module _ (delta_encode : Bytes → Bytes → Outcome Bytes) where
    -- The delta against the base that was fetched, in the output chunk. The output's other fields
    -- stay what the caller's buffer held.
    unfoldable pub delta_against :
        Option Bytes
        → WrappedChunk
        → ChunkInfo
        → WrappedChunk
        → Outcome (Bool × WrappedChunk × WrappedChunk)
    delta_against none input info output = exit_failure
    delta_against (some base) input info output =
        delta_encode base (take input.info.size input.buf) >>= λ delta. ok (
          true,
          record input { info = info },
          record {
            info = record (output.info) {
              size = length delta;
              addr = record (output.info.addr) { base_fp = info.addr.base_fp };
              fp = info.fp;
              stat = cache_delta_chunk;
            };
            buf = delta;
          },
        )

    -- The switch on the state that `FindBaseChunk` has set.
    unfoldable pub process_as :
        ChunkStatus
        → InformCache S
        → WrappedChunk
        → ChunkInfo
        → WrappedChunk
        → Outcome (Bool × WrappedChunk × WrappedChunk)
    unfolding delta_against
    process_as similar_chunk c input info output =
        delta_against (kv.get c.base_2_data_db info.addr.base_fp) input info output
    process_as non_similar_chunk c input info output =
        ok (false, record input { info = info }, output)
    process_as _ c input info output = exit_failure

    -- The answer, the input with its base and state, and the output chunk.
    unfoldable pub process_normal_chunk :
        InformCache S → WrappedChunk → WrappedChunk → Outcome (Bool × WrappedChunk × WrappedChunk)
    unfolding process_as
    process_normal_chunk c input output =
        let info = find_base_chunk_map c.local_feature_2_fp_db input.info in
        process_as info.stat c input info output
