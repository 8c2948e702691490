-- ===== src/Tests/Client.antt =====
-- Examples of the theorems on the client.
use edrstore.Prelude.{
  some, suc, leb, ltb, ◌==◌, if◌then◌else◌, replicate, ap₂, ◌≢◌, Bool-cases, inl, inr, ◌∙◌, ℕ, ◌+◌,
  ◌≤◌, ◌<◌, ◌≡◌, refl, List, [], ◌∷◌, ◌++◌, Bytes, flatten, drop, drop-length-append, length, min,
  All, ok, arith, true, false, Bool, sym, ap,
}
use edrstore.Chunker.{Chunker, fix_generate, chunk_file}
use edrstore.Chunker.FastCdc.{FastCdc, fastcdc, fastcdc_generate, cut_point}
use edrstore.Chunker.Fixed.{fix_chunks-flatten}
use edrstore.Chunker.CutPoint.{cut_point-bounds, fastcdc_chunks-flatten}
use edrstore.Layout.{normal_chunk, crypto_block_size, enc_max_chunk_size}
use edrstore.Client.CompressUtil.{CompressType, Codec, done, cannot, init_fails, lz4_compress_type}
use edrstore.Client.CompPad.{padding_with_seed, compress_with_pad, decompress_with_pad}
use edrstore.Client.Padding.{
  padding_with_seed-bound, decompress_with_pad-compress_with_pad, IsCodec,
}
use edrstore.Client.TwoPhaseEnc.{Ciphers}
use edrstore.Client.CacheMeta.{EvictBuf, evict_feature}
use edrstore.Client.Eviction.{evict_feature-sends, outdated, recent}
use edrstore.Client.SelectComp.{KeyedChunk, FileRecipeHead, enc_comp_mode}
use edrstore.Client.Retriever.{proc_comp_chunk}
use edrstore.Client.Restore.{encrypted, proc_comp_chunk-enc_comp_mode}

abbrev file : Bytes
file = 7 ∷ 1 ∷ 200 ∷ 3 ∷ 90 ∷ 5 ∷ 6 ∷ []

abbrev new_chunker : Chunker
new_chunker = record {
  read_data_buf = [];
  pending_chunking_size = 0;
  remain_chunking_size = 0;
  cur_offset = 0;
  total_chunk_num = 0;
  total_file_size = 0;
}

fix_chunks-flatten_example :
    (r : Chunker × List Bytes) × (chunk_file (fix_generate 2) 5 8 file new_chunker ≡ some r)
    × (flatten r.1 ≡ file)
fix_chunks-flatten_example =
    fix_chunks-flatten 2 5 file new_chunker (omega arith) (omega arith) (omega arith) (omega arith)

fastcdc_chunks-flatten_example :
    (r : Chunker × List Bytes) × (chunk_file
        (fastcdc_generate (fastcdc 1 2 4 1))
        5
        8
        file
        new_chunker
      ≡ some r)
    × (flatten r.1 ≡ file)
fastcdc_chunks-flatten_example =
    fastcdc_chunks-flatten 1 2 4 1 5 file new_chunker (omega arith) (omega arith) (omega arith)
      (omega arith) (omega arith)

abbrev cdc : FastCdc
cdc = record {
  min_chunk_size = 1;
  max_chunk_size = 4;
  normal_chunk_size = 2;
  mask_s = 3;
  mask_l = 1;
}

cut_point-bounds_example : (1 ≤ cut_point cdc file 7) × (cut_point cdc file 7 ≤ 4)
cut_point-bounds_example =
    cut_point-bounds cdc file 7 (omega arith, omega arith, omega arith, omega arith) (omega arith)

abbrev draw : ℕ → ℕ → ℕ
draw seed i = seed + i

padding_with_seed-bound_example :
    length (padding_with_seed draw 6 9 (5 ∷ 6 ∷ [])) ≤ min 9 (2 + 255) + 4
padding_with_seed-bound_example =
    padding_with_seed-bound draw 6 9 (5 ∷ 6 ∷ []) (omega arith) (omega arith)

-- A library that compresses runs: a byte, and how often it comes. Other chunks it cannot compress.
abbrev same_bytes : ℕ → Bytes → Bool
same_bytes b [] = true
same_bytes b (c ∷ x) = let rest = same_bytes b x in if c == b then rest else false

abbrev run_of : ℕ → Bytes → Bool → Codec
run_of b x true = done (b ∷ suc (length x) ∷ [])
run_of b x false = cannot

-- A run of two bytes at least.
abbrev is_run : ℕ → Bytes → Bool
is_run b x = if ltb 0 (length x) then same_bytes b x else false

abbrev compress_runs : CompressType → Bytes → Codec
compress_runs t [] = cannot
compress_runs t (b ∷ x) = run_of b x (is_run b x)

abbrev run_with : ℕ → ℕ → Bool → Codec
run_with b n true = done (replicate n b)
run_with b n false = cannot

abbrev decompress_runs : CompressType → ℕ → Bytes → Codec
decompress_runs t room (b ∷ n ∷ []) = run_with b n (leb n room)
decompress_runs t room _ = cannot

abbrev contents : Codec → Bytes
contents c = elim c [ done x ↦ x | _ ↦ [] ]

abbrev is_done : Codec → Bool
is_done c = elim c [ done _ ↦ true | _ ↦ false ]

abbrev is_init_failure : Codec → Bool
is_init_failure c = elim c [ init_fails ↦ true | _ ↦ false ]

same_bytes_lem : (b : ℕ) (x : Bytes) → same_bytes b x ≡ true → replicate (length x) b ≡ x
unfolding replicate
same_bytes_lem b [] e = refl
same_bytes_lem b (c ∷ x) e = elim (Bool-cases (c == b)) [
  | inl same ↦ let here : b ≡ c = ground arith in ap₂ ◌∷◌ here (same_bytes_lem b x (ground arith))
  | inr differs ↦ ground arith
]

run_of-done :
    (b : ℕ) (x output : Bytes)
    → run_of b x (is_run b x) ≡ done output
    → (0 < length x) × (replicate (length x) b ≡ x) × (output ≡ b ∷ suc (length x) ∷ [])
run_of-done b x output e = elim (Bool-cases (is_run b x)) [
  | inl run ↦ elim (Bool-cases (ltb 0 (length x))) [
    | inl some_bytes ↦ (
      ground arith,
      same_bytes_lem b x (ground arith),
      sym (ap contents e) ∙ ap (λ c. contents (run_of b x c)) run,
    )
    | inr empty ↦ ground arith
  ]
  | inr no_run ↦
      let h : true ≡ false = sym (ap is_done e) ∙ ap (λ c. is_done (run_of b x c)) no_run in
      ground arith
]

compress_runs-length :
    (t : CompressType) (x output : Bytes)
    → compress_runs t x ≡ done output
    → length output ≤ length x
compress_runs-length t [] output e = let h : true ≡ false = sym (ap is_done e) in ground arith
compress_runs-length t (b ∷ x) output e =
    let (pos, _, is) = run_of-done b x output e in omega (arith, ap length is)

decompress_runs-compress_runs :
    (t : CompressType) (x output : Bytes) (room : ℕ)
    → compress_runs t x ≡ done output
    → length x ≤ room
    → decompress_runs t room output ≡ done x
unfolding replicate
decompress_runs-compress_runs t [] output room e h =
    let h : true ≡ false = sym (ap is_done e) in ground arith
decompress_runs-compress_runs t (b ∷ x) output room e h =
    let (pos, run, is) = run_of-done b x output e in
    let enough : leb (suc (length x)) room ≡ true = ground arith in
    ap (decompress_runs t room) is
    ∙ ap (run_with b (suc (length x))) enough
    ∙ ap (λ y. done (b ∷ y)) run

compress_runs-starts : (t : CompressType) (x : Bytes) → compress_runs t x ≢ init_fails
compress_runs-starts t [] e = let h : false ≡ true = ap is_init_failure e in ground arith
compress_runs-starts t (b ∷ x) e = elim (Bool-cases (is_run b x)) [
  | inl run ↦
      let h : false ≡ true =
        sym (ap (λ c. is_init_failure (run_of b x c)) run) ∙ ap is_init_failure e in
      ground arith
  | inr no_run ↦
      let h : false ≡ true =
        sym (ap (λ c. is_init_failure (run_of b x c)) no_run) ∙ ap is_init_failure e in
      ground arith
]

runs-IsCodec : IsCodec compress_runs decompress_runs
runs-IsCodec = record {
  fits = compress_runs-length;
  restores = decompress_runs-compress_runs;
  starts = compress_runs-starts;
}

abbrev plain : Ciphers
plain = record {
  ctr_encrypt = λ key x. key ++ x;
  ctr_decrypt = λ key x. drop (length key) x;
  ecb_encrypt = λ key x. key ++ x;
  ecb_decrypt = λ key x. drop (length key) x;
}

abbrev run : Bytes
run = 5 ∷ 5 ∷ 5 ∷ 5 ∷ []

decompress_with_pad-compress_with_pad_example :
    (padded : Bytes) × (compress_with_pad draw compress_runs lz4_compress_type run 6 ≡ ok padded)
    × (decompress_with_pad decompress_runs lz4_compress_type padded ≡ ok run)
    × (length padded ≤ length run + 4)
decompress_with_pad-compress_with_pad_example =
    decompress_with_pad-compress_with_pad compress_runs decompress_runs runs-IsCodec draw
      lz4_compress_type run 6 (omega arith)
      (λ e. let h : true ≡ false = ap is_done e in ground arith)

abbrev head : FileRecipeHead
head = record { size = 7; chunk_num = 1 }

abbrev blank : KeyedChunk
blank = record {
  send_chunk = record {
    header = record { size = 0; kind = 0; cipher_features = []; compressed_fp = [] };
    buf = [];
  };
  key = [];
}

proc_comp_chunk-enc_comp_mode_example :
    (o : KeyedChunk) × (enc_comp_mode
        (λ x. x)
        plain
        draw
        compress_runs
        lz4_compress_type
        (record {
          kind = normal_chunk;
          raw_chunk = file;
          slack = [];
          fp = [];
          head = head;
          features = 1 ∷ 2 ∷ 3 ∷ [];
          enc_buf = [];
          key = 8 ∷ [];
          seed = 6;
        })
        blank
      ≡ ok o)
    × (o.send_chunk.header.size + crypto_block_size ≤ enc_max_chunk_size)
    × (proc_comp_chunk plain decompress_runs lz4_compress_type (encrypted plain o) (8 ∷ [])
        ≡ ok file)
proc_comp_chunk-enc_comp_mode_example =
    proc_comp_chunk-enc_comp_mode plain draw compress_runs decompress_runs lz4_compress_type
      (λ key x. drop-length-append key x) (λ key x. drop-length-append key x) runs-IsCodec file []
      [] (1 ∷ 2 ∷ 3 ∷ []) [] (8 ∷ []) head 6 blank (omega arith) (λ _. refl)

-- All but the feature 12 are outdated.
abbrev versions : List (ℕ × ℕ)
versions = (11, 1) ∷ (12, 5) ∷ (13, 2) ∷ (14, 3) ∷ []

evict_feature-sends_example :
    (b' : EvictBuf) × (evict_feature true 2 2 5 versions
        (record { items = []; size = 0; cur_item_num = 0; sent = [] })
      ≡ ok (recent 2 5 versions, b'))
    × (flatten b'.sent ≡ outdated 2 5 versions)
    × All (λ m. length m ≤ 2) b'.sent
    × (b'.size ≡ 0)
    × (b'.cur_item_num ≡ 0)
evict_feature-sends_example = evict_feature-sends 2 2 5 versions (omega arith) (omega arith)

outdated-versions : outdated 2 5 versions ≡ 11 ∷ 13 ∷ 14 ∷ []
unfolding outdated
outdated-versions = refl
