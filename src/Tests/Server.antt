-- ===== src/Tests/Server.antt =====
-- Examples of the theorems on the server.
use edrstore.Prelude.{
  ℕ, ◌+◌, ◌≤◌, ◌≡◌, ◌⊎◌, refl, ap, List, [], ◌∷◌, ◌++◌, Option, none, some, true, Bytes, flatten,
  replicate, find, u64, ltb, if◌then◌else◌, ◌&&◌, ◌==◌, bytes_discrete, ℕ_discrete, ok, arith,
  le_value, assign, take, drop, slice, inl, inr,
}
use edrstore.Layout.{
  ChunkAddr, WrappedChunk, SendChunkHeader, single_chunk, chunk_pair, cache_insert_chunk,
  comp_base_chunk, non_similar_chunk, similar_chunk,
}
use edrstore.Storage.{StorageCore, Stat, write_chunk}
use edrstore.Storage.ContainerCache
use edrstore.Storage.ContainerCache.{ReadCache}
use edrstore.Storage.Cached.{IsCopy, insert-IsCopy}
use edrstore.Storage.Chunks.{IsAt, IsStorage, ReadsTo, read_chunk-ReadsTo}
use edrstore.Storage.Writes.{IsWritten, write_chunk-IsWritten}
use edrstore.Cache.{
  InformCache, insert_cached_chunk, evict_cache_chunk, delete_evict_chunk, features_of, feature_at,
  is_base_chunk_exist,
}
use edrstore.Cache.Refs.{refs}
use edrstore.Cache.Counting.{IsCounted, insert_cached_chunk-IsCounted}
use edrstore.Cache.Eviction.{erase_all, evict_cache_chunk-IsCounted}
use edrstore.Cache.Deletion.{total_size, delete_evict_chunk-IsCounted}
use edrstore.Reduction.Similar.{
  find_base_chunk, find_base_chunk_db, find_base_chunk_map, update_feature_index,
}
use edrstore.Reduction.Similar.Counts.{matches}
use edrstore.Reduction.Similar.Choice.{IsChosen, find_base_chunk-IsChosen}
use edrstore.Recipe.{Recipe, read_batches}
use edrstore.Recipe.RoundTrip.{AreFps}
use edrstore.Recipe.Reading.{read_batches-flatten}
use edrstore.Upload.Wire.{header_bytes, read_header, IsHeader, read_header-header_bytes}
use edrstore.Upload.DualDedup.{DualDedup, dedup_run}
use edrstore.Upload.DualDedup.Once.{is_new, is_offered, stored, dedup_run-stored}
use edrstore.Cache.{process_normal_chunk}
use edrstore.Cache.Normal.{IsDelta, process_normal_chunk-IsDelta}
use edrstore.Upload.Recv.{Recv, process_evict_feature}
use edrstore.Upload.Recv.Evicts.{IsBatch, process_evict_feature-AreBatches}
use edrstore.Layout.{comp_delta_chunk, unique_chunk}
use edrstore.Database
use edrstore.Download.Reader.{RawChunk}
use edrstore.Layout.{comp_normal_chunk}
use edrstore.Download.Decoder.{Item, item}
use edrstore.Reduction.Similar.Overloads.{find_base_chunk_db-find_base_chunk_map}
use edrstore.Upload.Writer.{Writer, writer_step}
use edrstore.Upload.Writer.Entered.{IsEntered, writer_step-IsEntered}
use edrstore.Download.Reader.{Piece, Reader}
use edrstore.Download.Restored.{Restores, fetch_chunk-Restores_base, fetch_chunk-Restores_delta}
use edrstore.Prelude.{map, Outcome, false, All, ◌≢◌}
use edrstore.Tests.Stores.{Slot, one_slot, list_store}

abbrev no_addr : ChunkAddr
no_addr = record {
  stat = comp_base_chunk;
  container_id = [];
  offset = 0;
  len = 0;
  base_fp = [];
  compressed_fp = [];
}

abbrev chunk : WrappedChunk
chunk = record {
  info = record {
    fp = 9 ∷ [];
    features = 1 ∷ 2 ∷ 3 ∷ [];
    addr = no_addr;
    size = 2;
    stat = single_chunk;
  };
  buf = 70 ∷ 71 ∷ 72 ∷ [];
}

-- An empty storage, with the container `1 ∷ []`.
abbrev zero_stat : Stat
zero_stat = record {
  write_chunk_num = 0;
  write_data_size = 0;
  write_container_num = 0;
  read_chunk_num = 0;
  read_data_size = 0;
  read_container_num = 0;
}

abbrev empty_cache : ReadCache Slot
empty_cache = record {
  lru_state = none;
  container_pool = [] ∷ [];
  cache_size = 1;
  item_size = 8;
  current_index = 0;
}

abbrev started : StorageCore Slot
started = record {
  disk = (5 ∷ [], 50 ∷ 51 ∷ []) ∷ [];
  stat = zero_stat;
  cur_container = record { id = 1 ∷ []; body = 40 ∷ 41 ∷ 42 ∷ []; cur_size = 3 };
  container_cache = empty_cache;
}

empty_cache-IsCopy : IsCopy one_slot started.disk empty_cache
empty_cache-IsCopy = record {
  lru_valid = tt;
  capacity = refl;
  narrow = omega arith;
  pool_size = refl;
  next_index = refl;
  holds = λ name i e. ground arith;
  distinct = λ name other i e f. ground arith;
}

started-IsStorage : IsStorage one_slot started
unfolding find bytes_discrete ℕ_discrete
started-IsStorage = record {
  copies = empty_cache-IsCopy;
  has_room = omega arith;
  body_size = refl;
  bounded = omega arith;
  unsaved = refl;
}

abbrev addr : ChunkAddr
addr = record no_addr { container_id = 5 ∷ []; offset = 1; len = 1 }

addr-IsAt : IsAt started addr (51 ∷ [])
unfolding find bytes_discrete ℕ_discrete slice take drop
addr-IsAt = record { bytes = 50 ∷ 51 ∷ []; there = refl; inside = omega arith; same = refl }

read_chunk-IsRead_example : ReadsTo one_slot started addr started-IsStorage (some (51 ∷ []))
read_chunk-IsRead_example =
    read_chunk-ReadsTo one_slot started addr started-IsStorage (51 ∷ []) addr-IsAt

two_of_three : 2 ≤ 3
two_of_three = omega arith

first_byte : Bytes → ℕ
first_byte [] = 0
first_byte (b ∷ _) = b

write_chunk-IsWritten_example :
    (st' : StorageCore Slot) × (addr' : ChunkAddr) × (write_chunk
        (λ id. true)
        (2 ∷ [])
        started
        no_addr
        (70 ∷ 71 ∷ 72 ∷ [])
        2
      ≡ ok (st', addr'))
    × IsWritten one_slot no_addr (70 ∷ 71 ∷ 72 ∷ []) 2 two_of_three started st' addr' addr (51 ∷ [])
unfolding find bytes_discrete ℕ_discrete first_byte
write_chunk-IsWritten_example =
    write_chunk-IsWritten one_slot no_addr (70 ∷ 71 ∷ 72 ∷ []) 2 two_of_three (λ id. true) (2 ∷ [])
      started started-IsStorage refl refl (λ e. let h : 2 ≡ 1 = ap first_byte e in omega arith) addr
      (51 ∷ []) (omega arith) addr-IsAt

insert-IsCopy_example :
    IsCopy one_slot started.disk
      (ContainerCache.insert one_slot empty_cache (5 ∷ []) (50 ∷ 51 ∷ []) 2)
unfolding find bytes_discrete ℕ_discrete
insert-IsCopy_example =
    insert-IsCopy one_slot empty_cache-IsCopy (5 ∷ []) (50 ∷ 51 ∷ []) refl refl (omega arith)

-- The cache of one client, empty and with a chunk.
abbrev no_bases : InformCache (List (Bytes × Bytes))
no_bases = record { base_2_data_db = []; base_2_cnt_idx = []; local_feature_2_fp_db = [] }

no_bases-IsCounted : IsCounted list_store no_bases
unfolding find refs
no_bases-IsCounted = record {
  features_map = tt;
  bases_map = tt;
  counted = λ b. refl;
  backed = λ b. tt;
}

abbrev one_base : InformCache (List (Bytes × Bytes))
one_base = record {
  base_2_data_db = (9 ∷ [], 70 ∷ 71 ∷ []) ∷ [];
  base_2_cnt_idx = (9 ∷ [], record { cnt = 3; chunk_size = 2 }) ∷ [];
  local_feature_2_fp_db = (1, 9 ∷ []) ∷ (2, 9 ∷ []) ∷ (3, 9 ∷ []) ∷ [];
}

insert_cached_chunk-IsCounted_example :
    IsCounted list_store (insert_cached_chunk list_store no_bases chunk)
unfolding find
insert_cached_chunk-IsCounted_example =
    insert_cached_chunk-IsCounted list_store no_bases chunk no_bases-IsCounted refl
      (
        refl,
        ((λ e. omega arith), ((λ e. omega arith), tt)),
        (refl, ((λ e. omega arith), tt), (refl, tt, tt)),
      )
      (omega arith) (omega arith)

one_base-IsCounted : IsCounted list_store one_base
unfolding insert_cached_chunk find assign update_feature_index bytes_discrete ℕ_discrete take
one_base-IsCounted =
    insert_cached_chunk-IsCounted list_store no_bases chunk no_bases-IsCounted refl
      (
        refl,
        ((λ e. omega arith), ((λ e. omega arith), tt)),
        (refl, ((λ e. omega arith), tt), (refl, tt, tt)),
      )
      (omega arith) (omega arith)

abbrev two_features : WrappedChunk
two_features = record {
  info = record (chunk.info) { size = 2 };
  buf = 2 ∷ 0 ∷ 0 ∷ 0 ∷ 0 ∷ 0 ∷ 0 ∷ 0 ∷ 3 ∷ 0 ∷ 0 ∷ 0 ∷ 0 ∷ 0 ∷ 0 ∷ 0 ∷ [];
}

evict_cache_chunk-IsCounted_example :
    (c' : InformCache (List (Bytes × Bytes))) × (evict_cache_chunk one_base two_features ≡ ok c')
    × IsCounted list_store c'
    × (c'.local_feature_2_fp_db
        ≡ erase_all (features_of 2 0 two_features.buf) one_base.local_feature_2_fp_db)
    × (c'.base_2_data_db ≡ one_base.base_2_data_db)
unfolding features_of feature_at take drop le_value find ℕ_discrete
evict_cache_chunk-IsCounted_example =
    evict_cache_chunk-IsCounted list_store one_base two_features one_base-IsCounted
      ((9 ∷ [], refl), ((λ e. omega arith), tt), ((9 ∷ [], refl), tt, tt))

delete_evict_chunk-IsCounted_example :
    let r = delete_evict_chunk list_store one_base in
    IsCounted list_store r.0
    × (r.0.local_feature_2_fp_db ≡ one_base.local_feature_2_fp_db)
    × (is_base_chunk_exist r.0 (9 ∷ []) ≡ ltb 0 (refs (9 ∷ []) one_base.local_feature_2_fp_db))
    × (r.1 ≡ u64 (total_size r.0.base_2_cnt_idx))
delete_evict_chunk-IsCounted_example =
    delete_evict_chunk-IsCounted list_store one_base (9 ∷ []) one_base-IsCounted

-- Features 1 and 3 lead to one base, feature 2 to another.
abbrev lookup : ℕ → Option Bytes
lookup f = if f == 2 then some (8 ∷ []) else some (9 ∷ [])

find_base_chunk-IsChosen_example :
    let found = matches lookup chunk.info.features in
    let r = find_base_chunk lookup chunk.info in
    ((found ≡ []) × (r ≡ record (chunk.info) { stat = non_similar_chunk }))
    ⊎ (IsChosen found r.addr.base_fp (8 ∷ [])
        × (r ≡ record (chunk.info) {
          stat = similar_chunk;
          addr = record (chunk.info.addr) { base_fp = r.addr.base_fp };
        }))
find_base_chunk-IsChosen_example = find_base_chunk-IsChosen lookup chunk.info (8 ∷ []) (omega arith)

abbrev fp_of : ℕ → Bytes
fp_of n = replicate 32 n

abbrev three_fps : List Bytes
three_fps = fp_of 1 ∷ fp_of 2 ∷ fp_of 1 ∷ []

three_fps-AreFps : AreFps three_fps
unfolding replicate
three_fps-AreFps = (refl, (refl, (refl, tt)))

read_batches-flatten_example : read_batches 4 2 (flatten three_fps) ≡ three_fps
read_batches-flatten_example =
    read_batches-flatten 2 (omega arith) (omega arith) 4 three_fps three_fps-AreFps (omega arith)

abbrev header : SendChunkHeader
header = record { size = 2; kind = 3; cipher_features = 1 ∷ 2 ∷ 3 ∷ []; compressed_fp = fp_of 7 }

header-IsHeader : IsHeader header
unfolding replicate
header-IsHeader = record {
  size_fits = omega arith;
  kind_fits = omega arith;
  features_fit = (omega arith, (omega arith, (omega arith, tt)));
  three = refl;
  fp_size = refl;
}

read_header-header_bytes_example :
    read_header ((1 ∷ []) ++ (header_bytes (0 ∷ 0 ∷ 0 ∷ []) header ++ (70 ∷ 71 ∷ []))) 1 ≡ header
read_header-header_bytes_example =
    read_header-header_bytes (1 ∷ []) (70 ∷ 71 ∷ []) (0 ∷ 0 ∷ 0 ∷ []) header refl header-IsHeader

-- The same chunk twice, as a single chunk and behind a chunk for the cache.
abbrev popped : List WrappedChunk
popped =
    chunk
    ∷ record chunk { info = record (chunk.info) { stat = cache_insert_chunk } }
    ∷ record chunk { info = record (chunk.info) { stat = chunk_pair } }
    ∷ []

abbrev fresh_thread : DualDedup
fresh_thread = record {
  fp_2_addr_db = [];
  output_mq = [];
  total_unique_chunk_num = 0;
  total_unique_data_size = 0;
}

dedup_run-stored_example :
    (s' : DualDedup) × (dedup_run (λ x. x) fresh_thread popped ≡ ok s')
    × (stored (9 ∷ []) s'.output_mq
        ≡ stored (9 ∷ []) fresh_thread.output_mq
          + (if is_new (9 ∷ []) fresh_thread.fp_2_addr_db && is_offered (9 ∷ []) popped
              then 1
              else 0))
dedup_run-stored_example =
    dedup_run-stored (λ x. x) (9 ∷ []) fresh_thread popped
      (inr (inl refl), (inr (inr (inl refl)), (inl refl, tt)))

abbrev copy_delta : Bytes → Bytes → Outcome Bytes
copy_delta base x = ok x

process_normal_chunk-IsDelta_example :
    let found =
      matches (λ f. find ℕ_discrete f one_base.local_feature_2_fp_db) chunk.info.features in
    (input' : WrappedChunk) × (output' : WrappedChunk) × (((found ≡ [])
        × (process_normal_chunk list_store copy_delta one_base chunk two_features
            ≡ ok (false, input', two_features)))
      ⊎ ((found ≢ [])
          × (process_normal_chunk list_store copy_delta one_base chunk two_features
              ≡ ok (true, input', output'))
          × IsDelta list_store copy_delta one_base chunk output'))
process_normal_chunk-IsDelta_example =
    process_normal_chunk-IsDelta list_store copy_delta (λ base x. (x, refl)) one_base chunk
      two_features one_base-IsCounted (omega arith)

abbrev receiver : Recv
receiver = record {
  fp_2_addr_db = [];
  recipe = record { buf = []; cnt = 0; file = [] };
  output_mq = chunk ∷ [];
  tmp_chunk = chunk;
  chunk_batch_num = 0;
  total_logical_chunk_num = 0;
  total_logical_data_size = 0;
  total_unique_chunk_num = 0;
  total_unique_data_size = 0;
}

process_evict_feature-AreBatches_example :
    (pushed : List WrappedChunk) × (process_evict_feature chunk two_features.buf 2 receiver
      ≡ record receiver { output_mq = receiver.output_mq ++ pushed })
    × (flatten (map (λ c. c.buf) pushed) ≡ two_features.buf)
    × All IsBatch pushed
process_evict_feature-AreBatches_example =
    process_evict_feature-AreBatches chunk two_features.buf 2 receiver refl

-- A base chunk, and a chunk that is a delta against it.
abbrev delta_addr : ChunkAddr
delta_addr = record addr { stat = comp_delta_chunk; base_fp = 9 ∷ []; offset = 0 }

abbrev reader : Reader (List (Bytes × Bytes)) Slot
reader = record {
  fp_2_addr_db = (9 ∷ [], addr) ∷ (8 ∷ [], delta_addr) ∷ [];
  storage = started;
  inform_cache = no_bases;
  output_mq = [];
}

abbrev unset : Piece
unset = record { kind = comp_base_chunk; buf = [] }

delta_addr-IsAt : IsAt started delta_addr (50 ∷ [])
unfolding find bytes_discrete ℕ_discrete slice take drop
delta_addr-IsAt = record { bytes = 50 ∷ 51 ∷ []; there = refl; inside = omega arith; same = refl }

fetch_chunk-Restores_base_example :
    Restores one_slot list_store copy_delta unset reader (9 ∷ []) (51 ∷ [])
unfolding find bytes_discrete ℕ_discrete
fetch_chunk-Restores_base_example =
    fetch_chunk-Restores_base one_slot list_store copy_delta unset reader (9 ∷ []) started-IsStorage
      addr (51 ∷ []) refl addr-IsAt

fetch_chunk-Restores_delta_example :
    Restores one_slot list_store copy_delta unset reader (8 ∷ []) (50 ∷ [])
unfolding find bytes_discrete ℕ_discrete
fetch_chunk-Restores_delta_example =
    fetch_chunk-Restores_delta one_slot list_store copy_delta unset reader (8 ∷ [])
      started-IsStorage delta_addr addr (50 ∷ []) (51 ∷ []) (50 ∷ []) refl refl delta_addr-IsAt
      addr-IsAt refl

-- A unique chunk, and a writer whose feature index is empty.
abbrev unique : WrappedChunk
unique = record chunk { info = record (chunk.info) { stat = unique_chunk } }

abbrev writer : Writer Slot
writer = record {
  storage = started;
  fp_2_addr_db = [];
  feature_2_fp_db = [];
  total_similar_chunk_num = 0;
  total_similar_data_size = 0;
  total_delta_size = 0;
}

writer_step-IsEntered_example :
    (w' : Writer Slot) × (writer_step
        (λ id. true)
        one_slot
        copy_delta
        (2 ∷ [])
        (3 ∷ [])
        writer
        unique
      ≡ ok w')
    × IsEntered one_slot w' (9 ∷ []) (take 2 unique.buf) addr (51 ∷ [])
unfolding find bytes_discrete ℕ_discrete first_byte matches Database.query
writer_step-IsEntered_example =
    writer_step-IsEntered one_slot (λ id. true) copy_delta (2 ∷ []) (3 ∷ []) writer unique addr
      (51 ∷ []) refl refl (omega arith) (omega arith) (omega arith) started-IsStorage refl refl
      (λ e. let h : 2 ≡ 1 = ap first_byte e in omega arith) addr-IsAt

-- One index with its entries in two orders.
abbrev bases_db : List (ℕ × Bytes)
bases_db = (1, 8 ∷ []) ∷ (2, 9 ∷ []) ∷ []

abbrev bases_map : List (ℕ × Bytes)
bases_map = (2, 9 ∷ []) ∷ (1, 8 ∷ []) ∷ []

same_bases : (f : ℕ) → find ℕ_discrete f bases_db ≡ find ℕ_discrete f bases_map
unfolding find
same_bases f = elim (ℕ_discrete 1 f) [ yes p ↦ ground arith | no p ↦ ground arith ]

find_base_chunk_db-find_base_chunk_map_example :
    find_base_chunk_db bases_db chunk.info ≡ find_base_chunk_map bases_map chunk.info
find_base_chunk_db-find_base_chunk_map_example =
    find_base_chunk_db-find_base_chunk_map bases_db bases_map chunk.info same_bases

abbrev raw_chunks : List RawChunk
raw_chunks =
    record { input_chunk = record { kind = comp_base_chunk; buf = 60 ∷ [] }; base_chunk = unset }
    ∷ record { input_chunk = record { kind = comp_delta_chunk; buf = 61 ∷ [] }; base_chunk = unset }
    ∷ record { input_chunk = record { kind = comp_base_chunk; buf = 62 ∷ [] }; base_chunk = unset }
    ∷ []

abbrev three_items : List Item
three_items =
    item comp_normal_chunk (60 ∷ [])
    ∷ item comp_normal_chunk (61 ∷ [])
    ∷ item comp_normal_chunk (62 ∷ [])
    ∷ []
