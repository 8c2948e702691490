-- ===== src/Download/Restored.antt =====
-- A stored chunk on its way from EDRStore/src/server/data_reader_thd.cc to data_decoder_thd.cc: what
-- is fetched is decoded to the chunk.
use edrstore.Prelude.{
  ℕ, ◌≡◌, refl, ap, ◌∙◌, [], ◌∷◌, ◌++◌, Option, none, some, Bytes, bytes_discrete, find, Outcome,
  ok, ◌>>=◌,
}
use edrstore.Layout.{ChunkAddr, comp_base_chunk, comp_delta_chunk, comp_normal_chunk}
use edrstore.Database
use edrstore.Cache.{KvStore}
use edrstore.Storage.{StorageCore}
use edrstore.Storage.Lru.{LruCache}
use edrstore.Storage.Chunks.{content, IsAt, IsStorage, read_chunk-ReadsTo}
use edrstore.Download.Reader.{
  Piece, RawChunk, Reader, lookup_addr, read_buf, fetch_chunk, fetch_base, proc_normal_delta_chunk,
}
use edrstore.Download.Decoder.{item, decode_items}

-- A read leaves every chunk where it stands.
IsAt-same :
    {L : Type 0} (st st' : StorageCore L) (a : ChunkAddr) (chunk : Bytes)
    → st'.disk ≡ st.disk
    → st'.cur_container ≡ st.cur_container
    → IsAt st a chunk
    → IsAt st' a chunk
IsAt-same st st' a chunk d c at = record {
  bytes = at.bytes;
  there =
      ap (λ t. content (record st' { disk = t }) a.container_id) d
      ∙ ap (λ t. content (record st' { disk = st.disk; cur_container = t }) a.container_id) c
      ∙ at.there;
  inside = at.inside;
  same = at.same;
}

module _ {S L : Type 0} where
  lookup_addr-find :
      (r : Reader S L) (fp : Bytes) (a : ChunkAddr)
      → find bytes_discrete fp r.fp_2_addr_db ≡ some a
      → lookup_addr r fp ≡ ok a
  unfolding lookup_addr Database.query
  lookup_addr-find r fp a e = rw (e, lookup_addr) refl

  module _ {cap : ℕ} (lru : LruCache cap L) (kv : KvStore S)
      (delta_decode : Bytes → Bytes → Outcome Bytes) where
    -- A fetch pushes one chunk, which is decoded to the bytes of a chunk; the index stays, and the storage
    -- stays sound.
    pub record Restores (unset : Piece) (r : Reader S L) (fp chunk : Bytes) : Type 0 where
      pub after : Reader S L
      pub raw : RawChunk
      pub fetched : fetch_chunk lru kv delta_decode unset r fp ≡ ok after
      pub pushed : after.output_mq ≡ r.output_mq ++ raw ∷ []
      pub decoded : decode_items delta_decode raw ≡ ok (item comp_normal_chunk chunk ∷ [])
      pub storage : IsStorage lru after.storage
      pub same_index : after.fp_2_addr_db ≡ r.fp_2_addr_db

    module _ (unset : Piece) (r : Reader S L) (fp : Bytes) (h : IsStorage lru r.storage) where
      -- A base chunk that stands at its address is fetched and decoded to itself.
      pub fetch_chunk-Restores_base :
          (a : ChunkAddr) (chunk : Bytes)
          → find bytes_discrete fp r.fp_2_addr_db ≡ some (record a { stat = comp_base_chunk })
          → IsAt r.storage (record a { stat = comp_base_chunk }) chunk
          → Restores unset r fp chunk
      unfolding fetch_chunk read_buf fetch_base decode_items
      fetch_chunk-Restores_base a chunk e at =
          let addr : ChunkAddr = record a { stat = comp_base_chunk } in
          let rd = read_chunk-ReadsTo lru r.storage addr h chunk at in
          let input = read_buf lru r addr in
          let raw : RawChunk = record {
            input_chunk = record { kind = comp_base_chunk; buf = input.0 };
            base_chunk = unset;
          } in
          record {
            after = record (input.1) { output_mq = r.output_mq ++ raw ∷ [] };
            raw = raw;
            fetched = rw (lookup_addr-find r fp addr e, fetch_chunk) refl;
            pushed = refl;
            decoded =
                ap
                  (λ (o : Option Bytes).
                    ok (item comp_normal_chunk (elim o [ some buf ↦ buf | none ↦ [] ]) ∷ []))
                  rd.result;
            storage = rd.storage;
            same_index = refl;
          }

      -- A delta that stands at its address, against a base chunk that stands at its own, is fetched with
      -- the base and decoded to what the delta decoder makes of both.
      pub fetch_chunk-Restores_delta :
          (a b : ChunkAddr) (delta base chunk : Bytes)
          → find bytes_discrete fp r.fp_2_addr_db ≡ some (record a { stat = comp_delta_chunk })
          → find bytes_discrete a.base_fp r.fp_2_addr_db
            ≡ some (record b { stat = comp_base_chunk })
          → IsAt r.storage (record a { stat = comp_delta_chunk }) delta
          → IsAt r.storage (record b { stat = comp_base_chunk }) base
          → delta_decode base delta ≡ ok chunk
          → Restores unset r fp chunk
      unfolding fetch_chunk read_buf fetch_base proc_normal_delta_chunk decode_items
      fetch_chunk-Restores_delta a b delta base chunk e e' at at' d =
          let addr : ChunkAddr = record a { stat = comp_delta_chunk } in
          let base_addr : ChunkAddr = record b { stat = comp_base_chunk } in
          let rd = read_chunk-ReadsTo lru r.storage addr h delta at in
          let input = read_buf lru r addr in
          let at_base =
            IsAt-same r.storage input.1.storage base_addr base rd.same_disk rd.same_container at' in
          let rd' = read_chunk-ReadsTo lru input.1.storage base_addr rd.storage base at_base in
          let second = read_buf lru input.1 base_addr in
          let raw : RawChunk = record {
            input_chunk = record { kind = comp_delta_chunk; buf = input.0 };
            base_chunk = record { kind = comp_base_chunk; buf = second.0 };
          } in
          let bytes : Option Bytes → Bytes = (λ o. elim o [ some buf ↦ buf | none ↦ [] ]) in
          record {
            after = record (second.1) { output_mq = r.output_mq ++ raw ∷ [] };
            raw = raw;
            fetched =
                rw (lookup_addr-find r fp addr e, fetch_chunk)
                  (rw (lookup_addr-find input.1 a.base_fp base_addr e', proc_normal_delta_chunk)
                    refl);
            pushed = refl;
            decoded =
                ap
                  (λ (x : Bytes).
                    delta_decode second.0 x >>= λ c. ok (item comp_normal_chunk c ∷ []))
                  (ap bytes rd.result)
                ∙ ap
                    (λ (x : Bytes).
                      delta_decode x delta >>= λ c. ok (item comp_normal_chunk c ∷ []))
                    (ap bytes rd'.result)
                ∙ ap (λ o. o >>= λ c. ok (item comp_normal_chunk c ∷ [])) d;
            storage = rd'.storage;
            same_index = refl;
          }
