-- ===== src/Storage.antt =====
-- EDRStore/src/server/storage_core.cc: chunks are written to containers of 4 MB, and read from the
-- container cache, the disk or the container that is being filled.
-- The disk maps the id of a container to its file (the path's prefix and suffix are constants);
-- `can_open` says whether the file system lets a file be opened for writing. `uuid` is the id
-- that `CreateUUID` draws, if it is called.
pub mod Lru
pub mod ContainerCache
pub mod Cached
pub mod Writes
pub mod Chunks
use edrstore.Prelude.{
  ℕ, ◌+◌, List, Option, none, some, Bool, Bytes, bytes_discrete, find, assign, ltb, if◌then◌else◌,
  u32, u64, Outcome, ok, exit_failure, ◌>>=◌, take, ◌++◌, slice, length, ite,
}
use edrstore.Layout.{ChunkAddr, Container, max_container_size}
use edrstore.Storage.Lru.{LruCache}
use edrstore.Storage.ContainerCache
use edrstore.Storage.ContainerCache.{ReadCache}

abbrev pub Disk : Type 0
Disk = List (Bytes × Bytes)

-- The counters of `StorageCore`.
pub record Stat : Type 0 where
  pub write_chunk_num : ℕ
  pub write_data_size : ℕ
  pub write_container_num : ℕ
  pub read_chunk_num : ℕ
  pub read_data_size : ℕ
  pub read_container_num : ℕ

-- The disk, the counters, and the client's current container and container cache.
pub record StorageCore (L : Type 0) : Type 0 where
  pub disk : Disk
  pub stat : Stat
  pub cur_container : Container
  pub container_cache : ReadCache L

module _ {L : Type 0} where
  -- The copy to the container's body, the chunk's address, and the counters.
  unfoldable pub append_chunk : StorageCore L → ChunkAddr → Bytes → ℕ → StorageCore L × ChunkAddr
  append_chunk st addr buf size =
      let cur = st.cur_container in
      (
        record st {
          cur_container = record cur {
            body = take cur.cur_size cur.body ++ take size buf;
            cur_size = u32 (cur.cur_size + size);
          };
          stat = record (st.stat) {
            write_chunk_num = u64 (st.stat.write_chunk_num + 1);
            write_data_size = u64 (st.stat.write_data_size + size);
          };
        },
        record addr { container_id = cur.id; len = size; offset = cur.cur_size },
      )

  module _ (can_open : Bytes → Bool) where
    unfoldable pub save_container : StorageCore L → Outcome (StorageCore L)
    save_container st =
        let cur = st.cur_container in
        if can_open cur.id
        then ok (record st {
          disk = assign bytes_discrete cur.id (take cur.cur_size cur.body) st.disk;
          stat = record (st.stat) { write_container_num = u64 (st.stat.write_container_num + 1) };
        })
        else exit_failure

    unfoldable pub write_chunk :
        Bytes → StorageCore L → ChunkAddr → Bytes → ℕ → Outcome (StorageCore L × ChunkAddr)
    unfolding append_chunk
    write_chunk uuid st addr buf size =
        if ltb max_container_size (u32 (st.cur_container.cur_size + size))
        then (save_container st >>= λ saved. ok (
            append_chunk
              (record saved {
                cur_container = record (saved.cur_container) { cur_size = 0; id = uuid };
              })
              addr buf size))
        else ok (append_chunk st addr buf size)

  abbrev pub count_read : StorageCore L → ℕ → StorageCore L
  count_read st len = record st {
    stat = record (st.stat) {
      read_chunk_num = u64 (st.stat.read_chunk_num + 1);
      read_data_size = u64 (st.stat.read_data_size + len);
    };
  }

  module _ {cap : ℕ} (lru : LruCache cap L) where
    -- The bytes that are copied out, or `none` where the source returns false.
    unfoldable pub read_chunk : StorageCore L → ChunkAddr → Option Bytes × StorageCore L
    read_chunk st addr =
        if ContainerCache.exist lru st.container_cache addr.container_id
        then (let (container_buf, cache) =
              ContainerCache.read lru st.container_cache addr.container_id in
            (
              some (slice addr.offset addr.len container_buf),
              count_read (record st { container_cache = cache }) addr.len,
            ))
        else elim (find bytes_discrete addr.container_id st.disk) [
          | none ↦
              ite (bytes_discrete st.cur_container.id addr.container_id)
                (some (slice addr.offset addr.len st.cur_container.body), count_read st addr.len)
                (none, st)
          | some file ↦ (
            some (slice addr.offset addr.len file),
            count_read
                (record st {
                  container_cache =
                      ContainerCache.insert lru st.container_cache addr.container_id file
                        (length file);
                  stat = record (st.stat) {
                    read_container_num = u64 (st.stat.read_container_num + 1);
                  };
                })
                addr.len,
          )
        ]
