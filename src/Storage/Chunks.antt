-- ===== src/Storage/Chunks.antt =====
-- Chunks stay readable: a written chunk reads back, and later writes and reads do not disturb it.
use edrstore.Prelude.{
  ℕ, ◌+◌, ◌≤◌, ◌<◌, ◌++◌, Option, none, some, true, false, Bytes, bytes_discrete, find, ◌≡◌, arith,
  length, slice, Bool-cases, Option-cases, inl, inr, ◌∙◌, ap, ite, if_pos, slice-append, subst,
}
use edrstore.Layout.{ChunkAddr, max_container_size}
use edrstore.Storage.{StorageCore, read_chunk, count_read}
use edrstore.Storage.Lru.{LruCache}
use edrstore.Storage.ContainerCache
use edrstore.Storage.Cached.{IsCopy, read-IsCopy, read_cached, insert-IsCopy}

module _ {L : Type 0} where
  -- The bytes of a container: its file, or else the body of the container that is being filled.
  abbrev pub content : StorageCore L → Bytes → Option Bytes
  content st id = elim (find bytes_discrete id st.disk) [
    | some file ↦ some file
    | none ↦ ite (bytes_discrete st.cur_container.id id) (some st.cur_container.body) none
  ]

  pub content_of_file :
      (st : StorageCore L) (id file : Bytes)
      → find bytes_discrete id st.disk ≡ some file
      → content st id ≡ some file
  content_of_file st id file e = rw (e, content)

  pub content_of_body :
      (st : StorageCore L) (id : Bytes)
      → find bytes_discrete id st.disk ≡ none
      → st.cur_container.id ≡ id
      → content st id ≡ some st.cur_container.body
  content_of_body st id e here =
      rw (e, content) (if_pos (bytes_discrete st.cur_container.id id) here _ _)

  -- The address lies inside its container, and `chunk` stands there.
  pub record IsAt (st : StorageCore L) (addr : ChunkAddr) (chunk : Bytes) : Type 0 where
    pub bytes : Bytes
    pub there : content st addr.container_id ≡ some bytes
    pub inside : addr.offset + addr.len ≤ length bytes
    pub same : slice addr.offset addr.len bytes ≡ chunk

module _ {cap : ℕ} {L : Type 0} (lru : LruCache cap L) where
  pub record IsStorage (st : StorageCore L) : Type 0 where
    pub copies : IsCopy lru st.disk st.container_cache
    pub has_room : 0 < cap
    pub body_size : length st.cur_container.body ≡ st.cur_container.cur_size
    pub bounded : st.cur_container.cur_size ≤ max_container_size
    pub unsaved : find bytes_discrete st.cur_container.id st.disk ≡ none

  module _ (st : StorageCore L) (addr : ChunkAddr) (h : IsStorage st) where
    -- What a read leaves as it is.
    pub record ReadsTo (chunk : Option Bytes) : Type 0 where
      pub result : (read_chunk lru st addr).0 ≡ chunk
      pub storage : IsStorage (read_chunk lru st addr).1
      pub same_disk : (read_chunk lru st addr).1.disk ≡ st.disk
      pub same_container : (read_chunk lru st addr).1.cur_container ≡ st.cur_container

    read_from_cache :
        (file zeros : Bytes)
        → ContainerCache.exist lru st.container_cache addr.container_id ≡ true
        → (ContainerCache.read lru st.container_cache addr.container_id).0 ≡ file ++ zeros
        → addr.offset + addr.len ≤ length file
        → ReadsTo (some (slice addr.offset addr.len file))
    unfolding read_chunk
    read_from_cache file zeros cached reads inside = record {
      result =
          rw (cached, read_chunk, reads)
            (ap some (slice-append addr.offset addr.len file zeros inside));
      storage =
          rw (cached, read_chunk)
            (record {
              copies = read-IsCopy lru h.copies addr.container_id;
              has_room = h.has_room;
              body_size = h.body_size;
              bounded = h.bounded;
              unsaved = h.unsaved;
            });
      same_disk = rw (cached, read_chunk);
      same_container = rw (cached, read_chunk);
    }

    read_from_disk :
        (file : Bytes)
        → ContainerCache.exist lru st.container_cache addr.container_id ≡ false
        → find bytes_discrete addr.container_id st.disk ≡ some file
        → ReadsTo (some (slice addr.offset addr.len file))
    unfolding read_chunk ContainerCache.exist
    read_from_disk file uncached on_disk = record {
      result = rw (uncached, read_chunk, on_disk);
      storage =
          rw (uncached, read_chunk, on_disk)
            (record {
              copies = insert-IsCopy lru h.copies addr.container_id file absent on_disk h.has_room;
              has_room = h.has_room;
              body_size = h.body_size;
              bounded = h.bounded;
              unsaved = h.unsaved;
            });
      same_disk = rw (uncached, read_chunk, on_disk);
      same_container = rw (uncached, read_chunk, on_disk);
    }
      where
        absent : lru.peek st.container_cache.lru_state addr.container_id ≡ none
        absent = ground (arith, lru.contains_lem st.container_cache.lru_state addr.container_id)

    read_body_lem :
        ContainerCache.exist lru st.container_cache addr.container_id ≡ false
        → find bytes_discrete addr.container_id st.disk ≡ none
        → st.cur_container.id ≡ addr.container_id
        → read_chunk lru st addr
          ≡ (some (slice addr.offset addr.len st.cur_container.body), count_read st addr.len)
    unfolding read_chunk
    read_body_lem uncached unsaved here =
        rw (uncached, read_chunk, unsaved)
          (if_pos (bytes_discrete st.cur_container.id addr.container_id) here _ _)

    read_from_body :
        ContainerCache.exist lru st.container_cache addr.container_id ≡ false
        → find bytes_discrete addr.container_id st.disk ≡ none
        → st.cur_container.id ≡ addr.container_id
        → ReadsTo (some (slice addr.offset addr.len st.cur_container.body))
    read_from_body uncached unsaved here =
        let e = read_body_lem uncached unsaved here in
        record {
          result = ap (λ r. r.0) e;
          storage = rw e (record {
            copies = h.copies;
            has_room = h.has_room;
            body_size = h.body_size;
            bounded = h.bounded;
            unsaved = h.unsaved;
          });
          same_disk = ap (λ r. r.1.disk) e;
          same_container = ap (λ r. r.1.cur_container) e;
        }

    -- `ReadChunk` returns the chunk that stands at an address, wherever its container is, and
    -- leaves the disk and the container that is being filled as they are.
    pub read_chunk-ReadsTo : (chunk : Bytes) → IsAt st addr chunk → ReadsTo (some chunk)
    read_chunk-ReadsTo chunk at =
        elim (Bool-cases (ContainerCache.exist lru st.container_cache addr.container_id)) [
          | inl cached ↦
              let (file, zeros, on_disk, reads) =
                read_cached lru h.copies addr.container_id cached in
              let e : file ≡ at.bytes = ground (arith, at.there) in
              subst (λ c. ReadsTo (some c)) (ap (slice addr.offset addr.len) e ∙ at.same)
                (read_from_cache file zeros cached reads (rw e at.inside))
          | inr uncached ↦ elim (Option-cases (find bytes_discrete addr.container_id st.disk)) [
            | inr (file, on_disk) ↦
                let e : file ≡ at.bytes = ground (arith, at.there) in
                subst (λ c. ReadsTo (some c)) (ap (slice addr.offset addr.len) e ∙ at.same)
                  (read_from_disk file uncached on_disk)
            | inl unsaved ↦ elim (bytes_discrete st.cur_container.id addr.container_id) [
              | yes here ↦
                  let e : st.cur_container.body ≡ at.bytes = ground (arith, at.there) in
                  subst (λ c. ReadsTo (some c)) (ap (slice addr.offset addr.len) e ∙ at.same)
                    (read_from_body uncached unsaved here)
              | no nowhere ↦ absurd (ground (arith, at.there))
            ]
          ]
        ]
