-- ===== src/Download/Reader.antt =====
-- EDRStore/src/server/data_reader_thd.cc: the thread that fetches the chunks of a file. `delta_decode`
-- is `DeltaComp::DeltaDecode` over xdelta. The result of `ReadChunk` is not looked at: where it
-- finds no container, the buffer that it leaves unset is empty here.
use edrstore.Prelude.{
  ℕ, List, [], ◌∷◌, ◌++◌, none, some, Bytes, true, false, bytes_discrete, Outcome, ok, exit_failure,
  ◌>>=◌,
}
use edrstore.Layout.{
  ChunkStatus, ChunkAddr, comp_delta_chunk, comp_base_chunk, cache_delta_chunk, uncomp_base_chunk,
  multi_level_delta_chunk,
}
use edrstore.Database
use edrstore.Cache.{KvStore, InformCache, is_base_chunk_exist, fetch_base_chunk}
use edrstore.Reduction.Dedup.{FpIndex}
use edrstore.Storage.{StorageCore, read_chunk}
use edrstore.Storage.Lru.{LruCache}

-- A `SendChunk_t` of a `Reader2Decoder_t`: the state in its header, and its bytes, whose number is
-- the size in its header.
pub record Piece : Type 0 where
  pub kind : ChunkStatus
  pub buf : Bytes

-- `Reader2Decoder_t`
pub record RawChunk : Type 0 where
  pub input_chunk : Piece
  pub base_chunk : Piece

pub record Reader (S L : Type 0) : Type 0 where
  pub fp_2_addr_db : FpIndex
  pub storage : StorageCore L
  pub inform_cache : InformCache S
  pub output_mq : List RawChunk

module _ {S L : Type 0} where
  -- `fp_2_addr_db_->QueryBuffer`, which must find the fingerprint.
  unfoldable pub lookup_addr : Reader S L → Bytes → Outcome ChunkAddr
  lookup_addr r fp = elim (Database.query bytes_discrete r.fp_2_addr_db fp).value [
    | none ↦ exit_failure
    | some addr ↦ ok addr
  ]

  module _ {cap : ℕ} (lru : LruCache cap L) where
    -- `ReadChunk` into a chunk's buffer.
    unfoldable pub read_buf : Reader S L → ChunkAddr → Bytes × Reader S L
    read_buf r addr =
        let (read, storage) = read_chunk lru r.storage addr in
        (elim read [ some buf ↦ buf | none ↦ [] ], record r { storage = storage })

    unfoldable pub proc_normal_delta_chunk : Reader S L → ChunkAddr → Outcome (Piece × Reader S L)
    unfolding lookup_addr read_buf
    proc_normal_delta_chunk r input_addr = do
      base_addr ← lookup_addr r input_addr.base_fp
      ok (
        record { kind = base_addr.stat; buf = (read_buf r base_addr).0 },
        (read_buf r base_addr).1,
      )

    module _ (kv : KvStore S) (delta_decode : Bytes → Bytes → Outcome Bytes) where
      -- The base of a delta against the cache that the cache has dropped: its compressed form is
      -- read. `unset` is the base buffer that is left alone where deltas nest too deep.
      unfoldable pub compressed_base : Bytes → Reader S L → ChunkAddr → Outcome (Piece × Reader S L)
      unfolding lookup_addr read_buf
      compressed_base unset r base_addr = elim base_addr.stat [
        | comp_delta_chunk ↦ do
          let delta = read_buf r base_addr
          base_base_addr ← lookup_addr delta.1 base_addr.base_fp
          let base_base = read_buf delta.1 base_base_addr
          base ← delta_decode base_base.0 delta.0
          ok (record { kind = comp_base_chunk; buf = base }, base_base.1)
        | comp_base_chunk ↦ ok (
          record { kind = comp_base_chunk; buf = (read_buf r base_addr).0 },
          (read_buf r base_addr).1,
        )
        | cache_delta_chunk ↦ ok (record { kind = multi_level_delta_chunk; buf = unset }, r)
        | _ ↦ exit_failure
      ]

      unfoldable pub proc_cache_delta_chunk :
          Bytes → Reader S L → ChunkAddr → Outcome (Piece × Reader S L)
      unfolding lookup_addr compressed_base
      proc_cache_delta_chunk unset r input_addr =
          elim (is_base_chunk_exist r.inform_cache input_addr.base_fp) [
            | true ↦ fetch_base_chunk kv r.inform_cache input_addr.base_fp >>= λ base.
                ok (record { kind = uncomp_base_chunk; buf = base }, r)
            | false ↦ lookup_addr r input_addr.base_fp >>= compressed_base unset r
          ]

      -- The second step of `FetchChunk`: the base, where the chunk needs one.
      unfoldable pub fetch_base : Piece → Reader S L → ChunkAddr → Outcome (Piece × Reader S L)
      unfolding proc_normal_delta_chunk proc_cache_delta_chunk
      fetch_base unset r addr = elim addr.stat [
        | comp_delta_chunk ↦ proc_normal_delta_chunk r addr
        | comp_base_chunk ↦ ok (unset, r)
        | cache_delta_chunk ↦ proc_cache_delta_chunk unset.buf r addr
        | _ ↦ exit_failure
      ]

      unfoldable pub fetch_chunk : Piece → Reader S L → Bytes → Outcome (Reader S L)
      unfolding lookup_addr read_buf fetch_base
      fetch_chunk unset r fp = do
        addr ← lookup_addr r fp
        let input = read_buf r addr
        (base, r2) ← fetch_base unset input.1 addr
        ok (record r2 {
          output_mq =
              r2.output_mq
              ++ record {
                input_chunk = record { kind = addr.stat; buf = input.0 };
                base_chunk = base;
              }
                ∷ [];
        })
