-- ===== src/Client/CompPad.antt =====
-- EDRStore/src/client/comp_pad.cc. `random seed i` is the i-th number that
-- `std::default_random_engine`, seeded with `seed`, gives in the range of `uint32_t`.
use edrstore.Prelude.{
  ℕ, zero, suc, ◌+◌, ◌-◌, ◌/◌, ◌%◌, ◌^◌, min, [], ◌++◌, Bytes, u32, take, drop, length, le_bytes,
  le_value, ltb, ◌==◌, if◌then◌else◌, Outcome, ok, ◌>>=◌,
}
use edrstore.Client.CompressUtil.{CompressType, Codec, compress_one_chunk, decompress_one_chunk}

abbrev pub max_padding_size : ℕ
max_padding_size = 255

-- The number of words that `PaddingWithSeed` adds. The difference is on `uint32_t`.
unfoldable pub padding_blk_num : ℕ → ℕ → ℕ → ℕ
padding_blk_num padding_seed original_size compressed_size =
    let padding_limit = min (u32 (original_size + (2 ^ 32 - compressed_size))) max_padding_size in
    let blk_num = (padding_seed % padding_limit) / 4 in
    if ltb padding_limit 4 then 0 else if blk_num == 0 then 1 else blk_num

-- The loop that writes the words, for as many words, from the i-th number on.
unfoldable pub padding_words : (ℕ → ℕ) → ℕ → ℕ → Bytes
padding_words draw zero i = []
padding_words draw (suc n) i = le_bytes 4 (draw i) ++ padding_words draw n (i + 1)

module _ (random : ℕ → ℕ → ℕ) where
  -- `PaddingWithSeed`: the data, the padding, and the size of the data.
  unfoldable pub padding_with_seed : ℕ → ℕ → Bytes → Bytes
  unfolding padding_blk_num padding_words
  padding_with_seed padding_seed original_size compressed =
      let n = padding_blk_num padding_seed original_size (length compressed) in
      compressed ++ (padding_words (random padding_seed) n 0 ++ le_bytes 4 (length compressed))

  -- `CompressWithPad`
  unfoldable pub compress_with_pad :
      (CompressType → Bytes → Codec) → CompressType → Bytes → ℕ → Outcome Bytes
  unfolding compress_one_chunk padding_with_seed
  compress_with_pad lib_compress t input padding_seed =
      compress_one_chunk lib_compress t input >>= λ r.
      ok (padding_with_seed padding_seed (length input) r.1)

-- `DecompressWithPad`
unfoldable pub decompress_with_pad :
    (CompressType → ℕ → Bytes → Codec) → CompressType → Bytes → Outcome Bytes
unfolding decompress_one_chunk
decompress_with_pad lib_decompress t input =
    let compressed_size = le_value (take 4 (drop (length input - 4) input)) in
    decompress_one_chunk lib_decompress t (take compressed_size input)
