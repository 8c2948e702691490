-- ===== src/Chunker.antt =====
-- EDRStore/src/chunker/abs_chunker.cc and fix_chunker.cc, and the loops of `ChunkerFPThd::Run` in
-- EDRStore/src/client/chunker_fp_thd.cc. FastCDC is in Chunker/FastCdc.
pub mod Gear
pub mod FastCdc
pub mod Loop
pub mod Fixed
pub mod CutPoint
use edrstore.Layout.{max_chunk_size}
use edrstore.Prelude.{
  ℕ, zero, suc, ◌+◌, ◌-◌, ◌^◌, List, [], ◌++◌, ◌∷◌, Bytes, u32, u64, slice, take, drop, length, leb,
  ltb, Option, some, none, ◌==◌, ◌||◌, if◌then◌else◌,
}

-- The read buffer of `AbsChunker`, the sizes, and the totals.
pub record Chunker : Type 0 where
  pub read_data_buf : Bytes
  pub pending_chunking_size : ℕ
  pub remain_chunking_size : ℕ
  pub cur_offset : ℕ
  pub total_chunk_num : ℕ
  pub total_file_size : ℕ

-- The chunker after `GenerateOneChunk`, the chunk, and its size.
pub record Generated : Type 0 where
  pub chunker : Chunker
  pub chunk : Bytes
  pub chunk_size : ℕ

-- `LoadDataFromFile`: the chunker, and the part of the file that is still unread.
unfoldable pub load_data_from_file : ℕ → Bytes → Chunker → Chunker × Bytes
load_data_from_file read_size file c =
    let buf = take read_size file in
    (
      record c {
        read_data_buf = buf;
        pending_chunking_size = length buf;
        cur_offset = 0;
        remain_chunking_size = length buf;
      },
      drop read_size file,
    )

-- The end of `GenerateOneChunk`: the offset and the counters after a chunk of a size. The
-- subtraction is on `uint64_t`.
unfoldable pub advance : ℕ → Chunker → Chunker
advance chunk_size c = record c {
  cur_offset = u64 (c.cur_offset + chunk_size);
  remain_chunking_size = u64 (c.remain_chunking_size + (2 ^ 64 - chunk_size));
  total_chunk_num = u64 (c.total_chunk_num + 1);
  total_file_size = u64 (c.total_file_size + chunk_size);
}

-- The chunk of a number of bytes at the current offset.
unfoldable pub cut_chunk : ℕ → Chunker → Generated
unfolding advance
cut_chunk n c = record {
  chunker = advance (u32 n) c;
  chunk = slice c.cur_offset n c.read_data_buf;
  chunk_size = u32 n;
}

unfoldable pub no_chunk : Chunker → Generated
no_chunk c = record { chunker = c; chunk = []; chunk_size = 0 }

-- `FixChunker::GenerateOneChunk`
unfoldable pub fix_generate : ℕ → Chunker → Generated
unfolding cut_chunk no_chunk
fix_generate avg_chunk_size c =
    if c.pending_chunking_size == 0 || c.remain_chunking_size == 0
    then no_chunk c
    else if leb avg_chunk_size c.remain_chunking_size
    then cut_chunk avg_chunk_size c
    else cut_chunk c.remain_chunking_size c

-- A chunk before those of the rest of a buffer, and the chunks of a buffer before those of the others.
abbrev pub with_chunks : List Bytes → Option (Chunker × List Bytes) → Option (Chunker × List Bytes)
with_chunks chunks (some (c, later)) = some (c, chunks ++ later)
with_chunks chunks none = none

module _ (generate_one_chunk : Chunker → Generated) where
  -- The inner loop of `Run`: the chunks of the loaded buffer. A chunk is copied to an array of
  -- MAX_CHUNK_SIZE bytes; a larger one would be written behind its end, which is `none`.
  unfoldable pub chunk_buffer : ℕ → Chunker → Option (Chunker × List Bytes)
  chunk_buffer zero c = some (c, [])
  chunk_buffer (suc fuel) c =
      let g = generate_one_chunk c in
      let rest = with_chunks (g.chunk ∷ []) (chunk_buffer fuel g.chunker) in
      if ltb max_chunk_size g.chunk_size
      then none
      else if g.chunk_size == 0
      then some (g.chunker, [])
      else rest

  -- The outer loop: the buffers of a file. A buffer of n bytes takes at most n + 1 inner rounds.
  unfoldable pub chunk_file : ℕ → ℕ → Bytes → Chunker → Option (Chunker × List Bytes)
  unfolding chunk_buffer load_data_from_file
  chunk_file read_size zero file c = some (c, [])
  chunk_file read_size (suc fuel) file c =
      let (loaded, unread) = load_data_from_file read_size file c in
      let all =
        elim (chunk_buffer (loaded.pending_chunking_size + 1) loaded)
          as (λ _. Option (Chunker × List Bytes)) [
            | some b ↦ with_chunks (b.1) (chunk_file read_size fuel unread b.0)
            | none ↦ none
          ] in
      if u32 loaded.pending_chunking_size == 0 then some (loaded, []) else all
