-- ===== src/Client/Padding.antt =====
-- EDRStore/src/client/comp_pad.cc: what the padding adds, and that it is taken off again.
use edrstore.Prelude.{
  ℕ, zero, suc, ◌+◌, ◌-◌, ◌*◌, ◌/◌, ◌%◌, ◌^◌, ◌≤◌, ◌<◌, min, ◌≡◌, ◌≢◌, refl, sym, ap, ◌∙◌, ◌++◌,
  Bytes, u32, take, drop, length, le_bytes, le_value, length-append, length-le_bytes,
  le_value-le_bytes, take-length-append, drop-length-append, take_of_length-le, ltb, ◌==◌,
  Bool-cases, inl, inr, ◌⊎◌, Outcome, ok, ◌>>=◌, arith,
}
use mathlib.Core.List.{append_assoc}
use native.Mathlib.Nat.{mod-lt}
use edrstore.Layout.{max_chunk_size}
use edrstore.Client.CompressUtil.{
  CompressType, Codec, done, cannot, init_fails, compress_one_chunk, decompress_one_chunk,
  compress_answer, decompress_answer,
}
use edrstore.Client.CompPad.{
  padding_blk_num, padding_words, padding_with_seed, compress_with_pad, decompress_with_pad,
}

length-padding_words : (draw : ℕ → ℕ) (n i : ℕ) → length (padding_words draw n i) ≡ n * 4
unfolding padding_words
length-padding_words draw zero i = refl
length-padding_words draw (suc n) i =
    length-append (le_bytes 4 (draw i)) (padding_words draw n (i + 1))
    ∙ let e = length-le_bytes 4 (draw i) in
      let ih = length-padding_words draw n (i + 1) in omega arith

-- The words fit the bytes that compression has saved, up to 255, when it has saved 4 of them.
padding_blk_num-bound :
    (seed original compressed : ℕ)
    → compressed ≤ original
    → original < 2 ^ 32
    → padding_blk_num seed original compressed * 4 ≤ min (original - compressed) 255
unfolding padding_blk_num
padding_blk_num-bound seed original compressed l b =
    let limit = min (u32 (original + (2 ^ 32 - compressed))) 255 in
    let e : limit ≡ min (original - compressed) 255 = omega arith in
    elim (Bool-cases (ltb limit 4)) [
      | inl c ↦ rw (c) (let h : 0 * 4 ≤ min (original - compressed) 255 = omega arith in h)
      | inr c ↦
          let four : 4 ≤ limit = ground arith in
          let below = mod-lt seed (let h : 0 < limit = omega arith in h) in
          elim (Bool-cases ((seed % limit) / 4 == 0)) [
            | inl z ↦ rw (c, z) (let h : 1 * 4 ≤ min (original - compressed) 255 = omega arith in h)
            | inr z ↦
                rw (c, z)
                  (let h : (seed % limit) / 4 * 4 ≤ min (original - compressed) 255 = omega arith in
                    h)
          ]
    ]

-- Padded data is never longer than the original data and the 4 bytes of the size, nor more than 259
-- bytes longer than the compressed data.
pub padding_with_seed-bound :
    (random : ℕ → ℕ → ℕ) (seed original : ℕ) (compressed : Bytes)
    → length compressed ≤ original
    → original < 2 ^ 32
    → length (padding_with_seed random seed original compressed)
      ≤ min original (length compressed + 255) + 4
unfolding padding_with_seed
padding_with_seed-bound random seed original compressed l b =
    let n = padding_blk_num seed original (length compressed) in
    let words = padding_words (random seed) n 0 in
    let size = le_bytes 4 (length compressed) in
    let e1 = length-append compressed (words ++ size) in
    let e2 = length-append words size in
    let e3 = length-padding_words (random seed) n 0 in
    let e4 = length-le_bytes 4 (length compressed) in
    let bound = padding_blk_num-bound seed original (length compressed) l b in omega arith

-- The size behind the padding is the one that is read, whatever the padding.
decompress_padded :
    (lib_decompress : CompressType → ℕ → Bytes → Codec) (t : CompressType) (random : ℕ → ℕ → ℕ)
    (seed original : ℕ) (compressed : Bytes)
    → length compressed < 2 ^ 32
    → decompress_with_pad lib_decompress t (padding_with_seed random seed original compressed)
      ≡ decompress_one_chunk lib_decompress t compressed
unfolding decompress_with_pad padding_with_seed
decompress_padded lib_decompress t random seed original compressed b =
    let n = padding_blk_num seed original (length compressed) in
    let words = padding_words (random seed) n 0 in
    let size = le_bytes 4 (length compressed) in
    let input = compressed ++ (words ++ size) in
    let flat : input ≡ (compressed ++ words) ++ size = sym (append_assoc compressed words size) in
    let four = length-le_bytes 4 (length compressed) in
    let at : length input - 4 ≡ length (compressed ++ words) =
      (let e = ap (λ t. length t) flat ∙ length-append (compressed ++ words) size in omega arith) in
    let tail : drop (length input - 4) input ≡ size =
      ap (λ k. drop k input) at
      ∙ ap (λ t. drop (length (compressed ++ words)) t) flat
      ∙ drop-length-append (compressed ++ words) size in
    let value : le_value (take 4 (drop (length input - 4) input)) ≡ length compressed =
      ap (λ t. le_value (take 4 t)) tail
      ∙ ap le_value (take_of_length-le 4 size (omega arith))
      ∙ le_value-le_bytes 4 (length compressed) (omega arith) in
    ap (λ k. decompress_one_chunk lib_decompress t (take k input)) value
    ∙ ap (λ x. decompress_one_chunk lib_decompress t x)
        (take-length-append compressed (words ++ size))

-- What the libraries document: what was compressed is no longer than the room for it, the size of the
-- chunk, and is decompressed to the chunk wherever there is room for the chunk; and, as long as there is
-- memory, zlib is initialised.
pub record IsCodec (compress : CompressType → Bytes → Codec)
    (decompress : CompressType → ℕ → Bytes → Codec) : Type 0 where
  pub fits :
      (t : CompressType) (x output : Bytes) → compress t x ≡ done output → length output ≤ length x
  pub restores :
      (t : CompressType) (x output : Bytes) (room : ℕ)
      → compress t x ≡ done output
      → length x ≤ room
      → decompress t room output ≡ done x
  pub starts : (t : CompressType) (x : Bytes) → compress t x ≢ init_fails

Codec-cases : (c : Codec) → ((x : Bytes) × (c ≡ done x)) ⊎ ((c ≡ cannot) ⊎ (c ≡ init_fails))
Codec-cases (done x) = inl (x, refl)
Codec-cases cannot = inr (inl refl)
Codec-cases init_fails = inr (inr refl)

-- With a library that keeps its promises, compressing and padding a chunk of at most MAX_CHUNK_SIZE bytes
-- succeeds for each compression type; the result is at most 4 bytes longer than the chunk; and it
-- decompresses to the chunk, if the library can compress the chunk, or cannot and does not take the
-- chunk itself for compressed data either.
pub decompress_with_pad-compress_with_pad :
    (compress : CompressType → Bytes → Codec) (decompress : CompressType → ℕ → Bytes → Codec)
    → IsCodec compress decompress
    → (random : ℕ → ℕ → ℕ) (t : CompressType) (x : Bytes) (seed : ℕ) → length x ≤ max_chunk_size
    → (compress t x ≡ cannot → decompress t max_chunk_size x ≡ cannot)
    → (padded : Bytes) × (compress_with_pad random compress t x seed ≡ ok padded)
      × (decompress_with_pad decompress t padded ≡ ok x)
      × (length padded ≤ length x + 4)
unfolding compress_with_pad compress_one_chunk decompress_one_chunk compress_answer
    decompress_answer
decompress_with_pad-compress_with_pad compress decompress law random t x seed b refuses =
    let small : length x < 2 ^ 32 = omega arith in
    let pad : Codec → Outcome Bytes =
      (λ c. compress_answer x c >>= λ r. ok (padding_with_seed random seed (length x) r.1)) in
    elim (Codec-cases (compress t x)) [
      | inl (output, e) ↦
          let fits = law.fits t x output e in
          (
            padding_with_seed random seed (length x) output,
            ap pad e,
            decompress_padded decompress t random seed (length x) output (omega arith)
                ∙ ap (decompress_answer output) (law.restores t x output max_chunk_size e b),
            omega (arith, padding_with_seed-bound random seed (length x) output fits small),
          )
      | inr (inl e) ↦ (
        padding_with_seed random seed (length x) x,
        ap pad e,
        decompress_padded decompress t random seed (length x) x small
            ∙ ap (decompress_answer x) (refuses e),
        omega (arith, padding_with_seed-bound random seed (length x) x (omega arith) small),
      )
      | inr (inr e) ↦ absurd (law.starts t x e)
    ]
