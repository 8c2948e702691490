-- ===== src/Chunker/Loop.antt =====
-- EDRStore/src/client/chunker_fp_thd.cc: what the loops do with any chunker that cuts its chunks at
-- the current offset.
use edrstore.Prelude.{
  length-zero, drop_of_length-le, slice-append-drop, ℕ, zero, suc, ◌+◌, ◌-◌, ◌%◌, ◌^◌, ◌≤◌, ◌<◌,
  ◌≡◌, refl, sym, ap, ap₂, ◌∙◌, ◌++◌, Bytes, u32, slice, take, drop, length, ◌==◌, flatten,
  flatten-append, take-append-drop, length-drop, length-take, arith, inl, inr, Bool-cases, ==_iff,
  Bool, false, Option, some, none, List, [], ◌∷◌, ltb, if◌then◌else◌,
}
use edrstore.Layout.{max_chunk_size}
use edrstore.Chunker.{
  Chunker, Generated, with_chunks, chunk_buffer, chunk_file, load_data_from_file, cut_chunk,
  no_chunk, advance,
}

-- The sizes of a chunker agree with its buffer.
abbrev pub IsReady : Chunker → Type 0
IsReady c =
    (c.cur_offset + c.remain_chunking_size ≡ length c.read_data_buf)
    × (c.pending_chunking_size ≡ length c.read_data_buf)
    × (length c.read_data_buf < 2 ^ 32)

-- The next chunk stands at the current offset, and none is left out.
abbrev pub IsNext : Chunker → Generated → Type 0
IsNext c g =
    IsReady g.chunker
    × (g.chunker.read_data_buf ≡ c.read_data_buf)
    × (g.chunker.cur_offset ≡ c.cur_offset + g.chunk_size)
    × (g.chunk ≡ slice c.cur_offset g.chunk_size c.read_data_buf)
    × (g.chunk_size ≡ 0 → c.remain_chunking_size ≡ 0)

pub no_chunk-IsNext : (c : Chunker) → IsReady c → c.remain_chunking_size ≡ 0 → IsNext c (no_chunk c)
unfolding no_chunk slice take
no_chunk-IsNext c r z =
    (r, refl, (let e : c.cur_offset ≡ c.cur_offset + 0 = omega arith in e), refl, λ _. z)

pub cut_chunk-IsNext :
    (n : ℕ) (c : Chunker)
    → IsReady c
    → 0 < n
    → n ≤ c.remain_chunking_size
    → IsNext c (cut_chunk n c)
unfolding cut_chunk advance
cut_chunk-IsNext n c (r, q, b) p l =
    let e : u32 n ≡ n = omega arith in
    (
      (
        (let h : (c.cur_offset + u32 n) % 2 ^ 64
                  + (c.remain_chunking_size + (2 ^ 64 - u32 n)) % 2 ^ 64
                ≡ length c.read_data_buf =
              omega arith in
            h),
        q,
        b,
      ),
      refl,
      (let h : (c.cur_offset + u32 n) % 2 ^ 64 ≡ c.cur_offset + u32 n = omega arith in h),
      ap (λ k. slice c.cur_offset k c.read_data_buf) (sym e),
      (λ z. let h : c.remain_chunking_size ≡ 0 = omega arith in h),
    )

module _ (gen : Chunker → Generated) (is_next : (c : Chunker) → IsReady c → IsNext c (gen c))
    (no_overflow : (c : Chunker) → IsReady c → (gen c).chunk_size ≤ max_chunk_size) where
  pub chunk_buffer-flatten :
      (fuel : ℕ) (c : Chunker)
      → IsReady c
      → c.remain_chunking_size < fuel
      → (r : Chunker × List Bytes) × (chunk_buffer gen fuel c ≡ some r)
        × (flatten r.1 ≡ drop c.cur_offset c.read_data_buf)
  unfolding chunk_buffer flatten
  chunk_buffer-flatten zero c r l = ground arith
  chunk_buffer-flatten (suc fuel) c r l =
      let (r', buf, off, chunk, none_left) = is_next c r in
      let g = gen c in
      let kept : ltb max_chunk_size g.chunk_size ≡ false = ground (arith, no_overflow c r) in
      let rest = with_chunks (g.chunk ∷ []) (chunk_buffer gen fuel g.chunker) in
      let branch : Bool → Bool → Option (Chunker × List Bytes) =
        (λ over done. if over then none else if done then some (g.chunker, []) else rest) in
      elim (Bool-cases (g.chunk_size == 0)) [
        | inl e ↦
            let z = none_left ((==_iff g.chunk_size 0).0 e) in
            (
              (g.chunker, []),
              ap₂ branch kept e,
              sym (
                  drop_of_length-le c.cur_offset c.read_data_buf
                    (let h : length c.read_data_buf ≤ c.cur_offset = omega arith in h)),
            )
        | inr e ↦
            let k_pos : 0 < g.chunk_size = ground arith in
            let len = ap (λ t. length t) buf in
            let (later, runs, ih) =
              chunk_buffer-flatten fuel g.chunker r'
                (let h : g.chunker.remain_chunking_size < fuel = omega arith in h) in
            (
              (later.0, g.chunk ∷ later.1),
              ap₂ branch kept e ∙ ap (with_chunks (g.chunk ∷ [])) runs,
              ap₂ (λ a b. a ++ b) chunk (ih ∙ ap₂ (λ n b. drop n b) off buf)
                  ∙ slice-append-drop c.cur_offset g.chunk_size c.read_data_buf,
            )
      ]

  loaded-IsReady :
      (read_size : ℕ) (file : Bytes) (c : Chunker)
      → read_size < 2 ^ 32
      → IsReady (load_data_from_file read_size file c).0
  unfolding load_data_from_file
  loaded-IsReady read_size file c l =
      let e = length-take read_size file in
      (
        (let h : 0 + length (take read_size file) ≡ length (take read_size file) = omega arith in
            h),
        refl,
        (let h : length (take read_size file) < 2 ^ 32 = omega arith in h),
      )

  -- With a read buffer of one byte at least, and under 4 GiB, no chunk is too large, and the chunks of a
  -- file are the file: they
  -- are cut in the order of the file, nothing is left out, and the fuel is enough when it is above
  -- the size of the file.
  pub chunk_file-flatten :
      (read_size fuel : ℕ) (file : Bytes) (c : Chunker)
      → 0 < read_size
      → read_size < 2 ^ 32
      → length file < fuel
      → (r : Chunker × List Bytes) × (chunk_file gen read_size fuel file c ≡ some r)
        × (flatten r.1 ≡ file)
  unfolding chunk_file load_data_from_file drop flatten
  chunk_file-flatten read_size zero file c p l f = ground arith
  chunk_file-flatten read_size (suc fuel) file c p l f =
      let len = length-take read_size file in
      let buf = take read_size file in
      let loaded = (load_data_from_file read_size file c).0 in
      let after : Option (Chunker × List Bytes) → Option (Chunker × List Bytes) = (λ o.
        elim o as (λ _. Option (Chunker × List Bytes)) [
          | some b ↦ with_chunks (b.1) (chunk_file gen read_size fuel (drop read_size file) b.0)
          | none ↦ none
        ]) in
      let branch : Bool → Option (Chunker × List Bytes) = (λ done.
        if done then some (loaded, []) else after (chunk_buffer gen (length buf + 1) loaded)) in
      elim (Bool-cases (u32 (length buf) == 0)) [
        | inl e ↦ (
          (loaded, []),
          ap branch e,
          sym (length-zero file (let h : length file ≡ 0 = ground arith in h)),
        )
        | inr e ↦
            let nonempty : 0 < length buf = ground arith in
            let unread_len = length-drop read_size file in
            let ready = loaded-IsReady read_size file c l in
            let (chunked, runs, here) =
              chunk_buffer-flatten (length buf + 1) loaded ready
                (let h : length buf < length buf + 1 = omega arith in h) in
            let (later, more, there) =
              chunk_file-flatten read_size fuel (drop read_size file) chunked.0 p l
                (let h : length (drop read_size file) < fuel = omega arith in h) in
            (
              (later.0, chunked.1 ++ later.1),
              ap branch e ∙ ap after runs ∙ ap (with_chunks (chunked.1)) more,
              flatten-append chunked.1 later.1
                  ∙ ap₂ (λ a b. a ++ b) here there
                  ∙ take-append-drop read_size file,
            )
      ]
