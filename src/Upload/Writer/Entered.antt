-- ===== src/Upload/Writer/Entered.antt =====
-- EDRStore/src/server/data_writer_thd.cc: what a round does with a unique chunk that shares no feature
-- with a stored one.
use edrstore.Prelude.{
  ℕ, ◌≤◌, ◌<◌, ◌^◌, ◌≡◌, ◌≢◌, refl, ap, ◌∙◌, subst, inl, inr, [], Option, none, some, Bool, true,
  Bytes, bytes_discrete, ℕ_discrete, find, find-assign_self, take, length, Outcome, ok, ◌>>=◌,
  arith,
}
use edrstore.Layout.{
  ChunkAddr, ChunkInfo, WrappedChunk, unique_chunk, non_similar_chunk, comp_base_chunk,
  max_container_size,
}
use edrstore.Database
use edrstore.Reduction.Similar.{
  FeatureIndex, find_base_chunk, find_base_chunk_db, update_feature_index,
}
use edrstore.Reduction.Similar.Counts.{count, matches}
use edrstore.Reduction.Similar.Choice.{find_base_chunk-IsChosen}
use edrstore.Reduction.Similar.Overloads.{find_base_chunk_db_lem}
use edrstore.Storage.Lru.{LruCache}
use edrstore.Storage.Chunks.{IsAt, IsStorage}
use edrstore.Storage.Writes.{write_chunk-IsWritten}
use edrstore.Upload.Writer.{
  Writer, writer_step, store_as, enter_addr, proc_unique_chunk, proc_unique_as,
  proc_non_similar_chunk, write_as,
}

abbrev pub lookup : FeatureIndex → ℕ → Option Bytes
lookup db f = (Database.query ℕ_discrete db f).value

-- A chunk whose features lead nowhere is marked as not similar.
find_base_chunk-none :
    (db : FeatureIndex) (info : ChunkInfo)
    → length info.features < 2 ^ 32
    → matches (lookup db) info.features ≡ []
    → find_base_chunk_db db info ≡ record info { stat = non_similar_chunk }
unfolding count
find_base_chunk-none db info b e = elim (find_base_chunk-IsChosen (lookup db) info [] b) [
  | inl (_, same) ↦ find_base_chunk_db_lem db info ∙ same
  | inr ((matched, _, _), _) ↦
      let base = (find_base_chunk (lookup db) info).addr.base_fp in
      let none_counted : 0 < count base [] = subst (λ l. 0 < count base l) e matched in
      absurd (omega arith)
]

module _ {cap : ℕ} {L : Type 0} (lru : LruCache cap L) where
  -- The chunk stands in the storage as a base chunk, at the address that the index has for its
  -- fingerprint; an older chunk stands where it stood.
  pub record IsEntered (w' : Writer L) (fp chunk : Bytes) (old : ChunkAddr) (old_chunk : Bytes)
      : Type 0 where
    pub addr : ChunkAddr
    pub entered :
        find bytes_discrete fp w'.fp_2_addr_db ≡ some (record addr { stat = comp_base_chunk })
    pub written : IsAt w'.storage (record addr { stat = comp_base_chunk }) chunk
    pub undisturbed : IsAt w'.storage old old_chunk
    pub storage : IsStorage lru w'.storage

  module _ (can_open : Bytes → Bool) (delta_encode : Bytes → Bytes → Outcome Bytes) where
    -- A round on a unique chunk that shares no feature succeeds if a full container can be saved: the chunk is
    -- then a base chunk under its fingerprint, and every chunk that stood at an address still stands there.
    -- The id drawn is new, and the chunk fits its buffer and a container.
    pub writer_step-IsEntered :
        (uuid uuid' : Bytes) (w : Writer L) (c : WrappedChunk) (old : ChunkAddr) (old_chunk : Bytes)
        → c.info.stat ≡ unique_chunk
        → matches (lookup w.feature_2_fp_db) c.info.features ≡ []
        → length c.info.features < 2 ^ 32
        → c.info.size ≤ length c.buf
        → c.info.size ≤ max_container_size
        → IsStorage lru w.storage
        → can_open w.storage.cur_container.id ≡ true
        → find bytes_discrete uuid w.storage.disk ≡ none
        → uuid ≢ w.storage.cur_container.id
        → IsAt w.storage old old_chunk
        → (w' : Writer L) × (writer_step can_open lru delta_encode uuid uuid' w c ≡ ok w')
          × IsEntered w' c.info.fp (take c.info.size c.buf) old old_chunk
    unfolding writer_step store_as enter_addr proc_unique_chunk proc_unique_as
        proc_non_similar_chunk write_as
    writer_step-IsEntered uuid uuid' w c old old_chunk u none_found b whole small h opens new other
          at =
        let c1 : WrappedChunk = record c { info = record (c.info) { stat = non_similar_chunk } } in
        let (st', addr', writes, is) =
          write_chunk-IsWritten lru c.info.addr c.buf c.info.size whole can_open uuid w.storage h
            opens new other old old_chunk small at in
        let addr'' : ChunkAddr = record addr' { stat = comp_base_chunk } in
        let stored : Writer L × WrappedChunk = (
          record w {
            storage = st';
            feature_2_fp_db = update_feature_index w.feature_2_fp_db c.info.features c.info.fp;
          },
          record c1 { info = record (c1.info) { addr = addr'' } },
        ) in
        (
          enter_addr stored,
          ap (λ t. store_as can_open lru delta_encode t uuid uuid' w c >>= λ r. ok (enter_addr r)) u
              ∙ ap
                  (λ i.
                    proc_unique_as can_open lru delta_encode i.stat uuid uuid' w
                      (record c { info = i })
                    >>= λ r. ok (enter_addr r))
                  (find_base_chunk-none w.feature_2_fp_db c.info b none_found)
              ∙ rw (writes) refl,
          record {
            addr = addr';
            entered = find-assign_self bytes_discrete c.info.fp addr'' w.fp_2_addr_db;
            written = record {
              bytes = is.written.bytes;
              there = is.written.there;
              inside = is.written.inside;
              same = is.written.same;
            };
            undisturbed = is.undisturbed;
            storage = is.storage;
          },
        )
