-- ===== src/Session/Stat.antt =====
-- EDRStore/src/server/server_opt_thd.cc: the file that keeps the statistics of the server between
-- runs. A file that does not exist is `none`; `opens` says whether a file that exists can be opened.
use edrstore.Prelude.{
  ℕ, ◌^◌, ◌<◌, [], ◌∷◌, ◌++◌, Option, none, some, Bool, Bytes, le_bytes, All, Ifstream, open_stream,
  read_int, Outcome, ok, exit_failure, if◌then◌else◌,
}

-- The counters of `DataRecvThd`.
pub record RecvStat : Type 0 where
  pub total_logical_chunk_num : ℕ
  pub total_logical_data_size : ℕ
  pub total_unique_chunk_num : ℕ
  pub total_unique_data_size : ℕ

-- Those of `DualDedupThd`, which counts the unique chunks in the FULL_EDR mode.
pub record DualStat : Type 0 where
  pub total_unique_chunk_num : ℕ
  pub total_unique_data_size : ℕ

-- Those of `CacheCompThd`, and of `DataWriterThd`.
pub record DeltaStat : Type 0 where
  pub total_similar_chunk_num : ℕ
  pub total_similar_data_size : ℕ
  pub total_delta_size : ℕ

-- Those of `StorageCore`.
pub record StorageStat : Type 0 where
  pub write_chunk_num : ℕ
  pub write_data_size : ℕ

pub record ServerStat : Type 0 where
  pub data_recv : RecvStat
  pub dual_dedup : DualStat
  pub cache_comp : DeltaStat
  pub data_writer : DeltaStat
  pub storage_core : StorageStat

-- `LoadStat`: each part is read in front of what follows.
unfoldable pub read_recv : RecvStat → Ifstream → RecvStat × Ifstream
unfolding read_int
read_recv c s =
    let (logical_num, s1) = read_int 8 c.total_logical_chunk_num s in
    let (logical_size, s2) = read_int 8 c.total_logical_data_size s1 in
    let (unique_num, s3) = read_int 8 c.total_unique_chunk_num s2 in
    let (unique_size, s4) = read_int 8 c.total_unique_data_size s3 in
    (
      record {
        total_logical_chunk_num = logical_num;
        total_logical_data_size = logical_size;
        total_unique_chunk_num = unique_num;
        total_unique_data_size = unique_size;
      },
      s4,
    )

unfoldable pub read_delta : DeltaStat → Ifstream → DeltaStat × Ifstream
unfolding read_int
read_delta c s =
    let (similar_num, s1) = read_int 8 c.total_similar_chunk_num s in
    let (similar_size, s2) = read_int 8 c.total_similar_data_size s1 in
    let (delta_size, s3) = read_int 8 c.total_delta_size s2 in
    (
      record {
        total_similar_chunk_num = similar_num;
        total_similar_data_size = similar_size;
        total_delta_size = delta_size;
      },
      s3,
    )

unfoldable pub read_storage : StorageStat → Ifstream → StorageStat
unfolding read_int
read_storage c s =
    let (num, s1) = read_int 8 c.write_chunk_num s in
    record { write_chunk_num = num; write_data_size = (read_int 8 c.write_data_size s1).0 }

unfoldable pub read_stat : ServerStat → Ifstream → ServerStat
unfolding read_recv read_delta read_storage
read_stat stat s =
    let (recv, s1) = read_recv stat.data_recv s in
    let (comp, s2) = read_delta stat.cache_comp s1 in
    let (writer, s3) = read_delta stat.data_writer s2 in
    record stat {
      data_recv = recv;
      cache_comp = comp;
      data_writer = writer;
      storage_core = read_storage stat.storage_core s3;
    }

unfoldable pub load_stat : Bool → Option Bytes → ServerStat → Outcome ServerStat
unfolding read_stat
load_stat opens none stat = ok stat
load_stat opens (some file) stat =
    if opens then ok (read_stat stat (open_stream file)) else exit_failure

-- `StoreStat`: the parts of the file, each in front of what follows.
unfoldable pub recv_bytes : RecvStat → Bytes → Bytes
recv_bytes c rest =
    le_bytes 8 c.total_logical_chunk_num
    ++ (le_bytes 8 c.total_logical_data_size
        ++ (le_bytes 8 c.total_unique_chunk_num ++ (le_bytes 8 c.total_unique_data_size ++ rest)))

unfoldable pub delta_bytes : DeltaStat → Bytes → Bytes
delta_bytes c rest =
    le_bytes 8 c.total_similar_chunk_num
    ++ (le_bytes 8 c.total_similar_data_size ++ (le_bytes 8 c.total_delta_size ++ rest))

unfoldable pub storage_bytes : StorageStat → Bytes
storage_bytes c = le_bytes 8 c.write_chunk_num ++ (le_bytes 8 c.write_data_size ++ [])

unfoldable pub store_stat : Bool → ServerStat → Outcome Bytes
unfolding recv_bytes delta_bytes storage_bytes
store_stat opens stat =
    if opens
    then ok (
        recv_bytes stat.data_recv (
          delta_bytes stat.cache_comp
            (delta_bytes stat.data_writer (storage_bytes stat.storage_core))))
    else exit_failure

-- The counters of the file fit their fields.
pub record Fits (stat : ServerStat) : Type 0 where
  pub recv :
      All
        (λ n. n < 2 ^ 64)
        (stat.data_recv.total_logical_chunk_num ∷ stat.data_recv.total_logical_data_size
          ∷ stat.data_recv.total_unique_chunk_num ∷ stat.data_recv.total_unique_data_size ∷ [])
  pub comp :
      All
        (λ n. n < 2 ^ 64)
        (stat.cache_comp.total_similar_chunk_num ∷ stat.cache_comp.total_similar_data_size
          ∷ stat.cache_comp.total_delta_size ∷ [])
  pub writer :
      All
        (λ n. n < 2 ^ 64)
        (stat.data_writer.total_similar_chunk_num ∷ stat.data_writer.total_similar_data_size
          ∷ stat.data_writer.total_delta_size ∷ [])
  pub storage :
      All
        (λ n. n < 2 ^ 64)
        (stat.storage_core.write_chunk_num ∷ stat.storage_core.write_data_size ∷ [])
