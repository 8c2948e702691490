-- ===== src/Upload/Recv.antt =====
-- EDRStore/src/server/data_recv_thd.cc: the thread that takes a client's messages apart. Hashing
-- (SHA-256 of a library) and the features of a chunk (`FinesseUtil`) are the parameters `hash` and
-- `extract_feature`. The time measurements of `EDR_BREAKDOWN` are left out.
-- `tmp_chunk` is the local variable that is reused from chunk to chunk.
pub mod Evicts
pub mod Features
use edrstore.Prelude.{
  ℕ, zero, suc, ◌+◌, ◌-◌, ◌*◌, List, [], ◌∷◌, ◌++◌, Bytes, u32, u64, slice, take, drop, Outcome, ok,
  exit_failure, ◌>>=◌, if◌then◌else◌, ltb, ◌==◌, replicate,
}
use edrstore.Layout.{
  ChunkInfo, WrappedChunk, SendChunkHeader, unique_chunk, cache_insert_chunk, chunk_pair,
  single_chunk, cache_evict_chunk, chunk_hash_size, type_code, normal_chunk, full_edr_cache_chunk,
  full_edr_uncompress_chunk,
}
use edrstore.Reduction.Dedup.{FpIndex, detect_duplicate}
use edrstore.Recipe.{Recipe, process_recipe, process_recipe_end}
use edrstore.Upload.Wire.{header_size, read_header}

-- The fingerprint index, the recipe, the chunks pushed to the next thread, and the counters.
pub record Recv : Type 0 where
  pub fp_2_addr_db : FpIndex
  pub recipe : Recipe
  pub output_mq : List WrappedChunk
  pub tmp_chunk : WrappedChunk
  pub chunk_batch_num : ℕ
  pub total_logical_chunk_num : ℕ
  pub total_logical_data_size : ℕ
  pub total_unique_chunk_num : ℕ
  pub total_unique_data_size : ℕ

-- `output_MQ->Push(tmp_chunk)`
abbrev pub push : Recv → Recv
push s = record s { output_mq = s.output_mq ++ s.tmp_chunk ∷ [] }

abbrev pub set_info : WrappedChunk → ChunkInfo → WrappedChunk
set_info c i = record c { info = i }

abbrev count_logical : Recv → Recv
count_logical s = record s {
  total_logical_chunk_num = u64 (s.total_logical_chunk_num + 1);
  total_logical_data_size = u64 (s.total_logical_data_size + s.tmp_chunk.info.size);
}

module _ (hash : Bytes → Bytes) (extract_feature : Bytes → List ℕ)
    (send_recipe_batch_size : ℕ) where
  -- `ProcessRecipe` on the fingerprint of `tmp_chunk`.
  abbrev add_to_recipe : Recv → Outcome Recv
  add_to_recipe s = process_recipe send_recipe_batch_size s.recipe s.tmp_chunk.info.fp >>= λ r.
      ok (record s { recipe = r })

  -- A chunk for the cache, and the compressed chunk that must follow it. The result is the state
  -- and the offset behind both.
  unfoldable pub recv_cache_chunk : Bytes → SendChunkHeader → ℕ → Recv → Outcome (Recv × ℕ)
  recv_cache_chunk data_buf header offset s =
      let cached = slice offset header.size data_buf in
      let offset2 = u32 (offset + header.size) in
      let header2 = read_header data_buf offset2 in
      let offset3 = u32 (offset2 + header_size) in
      let compressed = slice offset3 header2.size data_buf in
      let fp = hash (hash cached ++ hash compressed) in
      let s1 = push (record s {
        tmp_chunk = record {
          info = record (s.tmp_chunk.info) {
            size = header.size;
            features = header.cipher_features;
            stat = cache_insert_chunk;
            fp = fp;
          };
          buf = cached;
        };
      }) in
      let s2 = push (record s1 {
        tmp_chunk = record {
          info = record (s1.tmp_chunk.info) { size = header2.size; stat = chunk_pair };
          buf = compressed;
        };
      }) in
      add_to_recipe s2 >>= λ s3. ok (count_logical s3, u32 (offset3 + header2.size))

  -- A chunk that the client found similar: its compressed form is known by its hash only.
  unfoldable pub recv_uncompress_chunk : Bytes → SendChunkHeader → ℕ → Recv → Outcome (Recv × ℕ)
  recv_uncompress_chunk data_buf header offset s =
      let chunk = slice offset header.size data_buf in
      let s1 = push (record s {
        tmp_chunk = record {
          info = record (s.tmp_chunk.info) {
            size = header.size;
            fp = hash (hash chunk ++ header.compressed_fp);
            stat = single_chunk;
            features = header.cipher_features;
          };
          buf = chunk;
        };
      }) in
      add_to_recipe s1 >>= λ s2. ok (count_logical s2, u32 (offset + header.size))

  -- A chunk of the modes without a cache: it is deduplicated here.
  unfoldable pub recv_normal_chunk : Bytes → SendChunkHeader → ℕ → Recv → Outcome (Recv × ℕ)
  recv_normal_chunk data_buf header offset s =
      let chunk = slice offset header.size data_buf in
      let info = s.tmp_chunk.info in
      let (db, info') = detect_duplicate s.fp_2_addr_db (record info {
        size = header.size;
        fp = hash chunk;
        addr = record (info.addr) { compressed_fp = replicate chunk_hash_size 0 };
      }) in
      add_to_recipe (record s { fp_2_addr_db = db; tmp_chunk = set_info s.tmp_chunk info' })
      >>= λ s1.
          let s2 : Recv = elim info'.stat [
            | unique_chunk ↦
                let pushed = push (record s1 {
                  tmp_chunk = record {
                    info = record info' { features = extract_feature chunk };
                    buf = chunk;
                  };
                }) in
                record pushed {
                  total_unique_chunk_num = u64 (pushed.total_unique_chunk_num + 1);
                  total_unique_data_size = u64 (pushed.total_unique_data_size + info'.size);
                }
            | _ ↦ s1
          ] in
          ok (count_logical s2, u32 (offset + header.size))

  -- One round of the loop of `ProcessChunks`, at an offset.
  unfoldable pub recv_chunk : Bytes → ℕ → Recv → Outcome (Recv × ℕ)
  recv_chunk data_buf offset s =
      let header = read_header data_buf offset in
      let offset' = u32 (offset + header_size) in
      if header.kind == type_code full_edr_cache_chunk
      then recv_cache_chunk data_buf header offset' s
      else if header.kind == type_code full_edr_uncompress_chunk
      then recv_uncompress_chunk data_buf header offset' s
      else if header.kind == type_code normal_chunk
      then recv_normal_chunk data_buf header offset' s
      else exit_failure

  -- `ProcessChunks`: as many rounds as the message's header says.
  unfoldable pub process_chunks : ℕ → Bytes → ℕ → Recv → Outcome Recv
  process_chunks zero data_buf offset s = ok s
  process_chunks (suc n) data_buf offset s =
      recv_chunk data_buf offset s >>= λ r. process_chunks n data_buf r.1 r.0

abbrev pub feature_batch_size : ℕ
feature_batch_size = 2048

-- `ProcessEvictFeature`: the loop over the features of a message, the part of the message that is
-- left, and how many are left. `tmp` is the local chunk.
unfoldable pub evict_batches : ℕ → WrappedChunk → Bytes → ℕ → List WrappedChunk
evict_batches zero tmp rest n = []
evict_batches (suc fuel) tmp rest n =
    let k = if ltb feature_batch_size n then feature_batch_size else n in
    let next = evict_batches fuel tmp (drop (k * 8) rest) (n - k) in
    if n == 0
    then []
    else record {
      info = record (tmp.info) { size = k; stat = cache_evict_chunk };
      buf = take (k * 8) rest;
    }
      ∷ next

unfoldable pub process_evict_feature : WrappedChunk → Bytes → ℕ → Recv → Recv
unfolding evict_batches
process_evict_feature tmp data_buf recv_feature_num s = record s {
  output_mq = s.output_mq ++ evict_batches (recv_feature_num + 1) tmp data_buf recv_feature_num;
}

-- A message of the client.
pub data ClientMessage : Type 0 where
  upload_chunk : ℕ → Bytes → ClientMessage
  upload_recipe : ClientMessage
  upload_recipe_end : Bytes → ClientMessage
  upload_feature : ℕ → Bytes → ClientMessage
  other_message : ClientMessage

module _ (hash : Bytes → Bytes) (extract_feature : Bytes → List ℕ) (send_recipe_batch_size : ℕ)
    (tmp : WrappedChunk) where
  -- One round of the loop of `Run`.
  unfoldable pub recv_message : Recv → ClientMessage → Outcome Recv
  unfolding process_chunks process_evict_feature
  recv_message s (upload_chunk cur_item_num data_buf) =
      process_chunks hash extract_feature send_recipe_batch_size cur_item_num data_buf 0
        (record s { chunk_batch_num = u64 (s.chunk_batch_num + 1) })
  recv_message s upload_recipe = exit_failure
  recv_message s (upload_recipe_end data_buf) =
      ok (record s { recipe = process_recipe_end s.recipe data_buf })
  recv_message s (upload_feature cur_item_num data_buf) =
      ok (process_evict_feature tmp data_buf cur_item_num s)
  recv_message s other_message = exit_failure
