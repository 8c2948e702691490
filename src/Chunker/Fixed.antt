-- ===== src/Chunker/Fixed.antt =====
-- EDRStore/src/chunker/fix_chunker.cc: the chunks of a fixed size.
use edrstore.Prelude.{
  ℕ, suc, ◌^◌, ◌≤◌, ◌<◌, ◌≡◌, Bytes, length, flatten, leb, ◌==◌, ◌||◌, true, false, inl, inr,
  Bool-cases, arith, List, some, u32,
}
use edrstore.Chunker.{Chunker, fix_generate, cut_chunk, no_chunk, chunk_file}
use edrstore.Layout.{max_chunk_size}
use edrstore.Chunker.Loop.{IsReady, IsNext, no_chunk-IsNext, cut_chunk-IsNext, chunk_file-flatten}

-- The two sizes that end the chunks, and the one that does not.
pub at_end :
    (c : Chunker)
    → IsReady c
    → (c.pending_chunking_size == 0 || c.remain_chunking_size == 0) ≡ true
    → c.remain_chunking_size ≡ 0
at_end c (r, q, b) e = ground arith

pub not_at_end :
    (c : Chunker)
    → (c.pending_chunking_size == 0 || c.remain_chunking_size == 0) ≡ false
    → 0 < c.remain_chunking_size
not_at_end c e = ground arith

fix_generate-IsNext :
    (avg : ℕ) → 0 < avg → (c : Chunker) → IsReady c → IsNext c (fix_generate avg c)
unfolding fix_generate
fix_generate-IsNext avg p c r =
    elim (Bool-cases (c.pending_chunking_size == 0 || c.remain_chunking_size == 0)) [
      | inl e ↦ rw (e) (no_chunk-IsNext c r (at_end c r e))
      | inr e ↦
          let pos = not_at_end c e in
          elim (Bool-cases (leb avg c.remain_chunking_size)) [
            | inl l ↦
                rw (e, l)
                  (cut_chunk-IsNext avg c r p
                    (let h : avg ≤ c.remain_chunking_size = ground arith in h))
            | inr l ↦
                rw (e, l)
                  (cut_chunk-IsNext c.remain_chunking_size c r pos
                    (let h : c.remain_chunking_size ≤ c.remain_chunking_size = omega arith in h))
          ]
    ]

fix_generate-fits :
    (avg : ℕ) → avg ≤ 2 ^ 14 → (c : Chunker) → IsReady c → (fix_generate avg c).chunk_size ≤ 2 ^ 14
unfolding fix_generate cut_chunk no_chunk
fix_generate-fits avg p c r =
    elim (Bool-cases (c.pending_chunking_size == 0 || c.remain_chunking_size == 0)) [
      | inl e ↦ rw (e) (let h : 0 ≤ 2 ^ 14 = omega arith in h)
      | inr e ↦ elim (Bool-cases (leb avg c.remain_chunking_size)) [
        | inl l ↦ rw (e, l) (let h : u32 avg ≤ 2 ^ 14 = omega arith in h)
        | inr l ↦ rw (e, l) (let h : u32 c.remain_chunking_size ≤ 2 ^ 14 = ground arith in h)
      ]
    ]

-- With a chunk size of 1 to MAX_CHUNK_SIZE bytes and a read buffer of one byte at least and under 4 GiB, the chunks that
-- the fixed-size chunker makes of a file fit their array and, one after the other, are the file; one outer round for each
-- byte of the file, and one more, are enough.
pub fix_chunks-flatten :
    (avg read_size : ℕ) (file : Bytes) (c : Chunker)
    → 0 < avg
    → avg ≤ max_chunk_size
    → 0 < read_size
    → read_size < 2 ^ 32
    → (r : Chunker × List Bytes) × (chunk_file
          (fix_generate avg)
          read_size
          (suc (length file))
          file
          c
        ≡ some r)
      × (flatten r.1 ≡ file)
fix_chunks-flatten avg read_size file c a m p l =
    chunk_file-flatten (fix_generate avg) (fix_generate-IsNext avg a) (fix_generate-fits avg m)
      read_size (suc (length file)) file c p l
      (let h : length file < suc (length file) = omega arith in h)
