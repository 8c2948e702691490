-- ===== src/Tests/Keys.antt =====
-- The key manager and the key thread on small requests. The hash of the tests keeps 32 bytes of its
-- input, filled up with zeros.
use edrstore.Prelude.{
  ℕ, ◌+◌, List, [], ◌∷◌, ◌++◌, true, Bytes, ℕ_discrete, find, length, length-append, length-take,
  length-replicate, take, drop, replicate, u64, drop-length-append, ok, ◌≡◌, refl, arith,
}
use edrstore.Layout.{ChunkInfo, unique_chunk, normal_chunk, recipe_chunk}
use edrstore.Upload.Wire.{features_bytes}
use edrstore.KeyManager.{BasicKm, global_secret, gen_seed, gen_seeds, answer}
use edrstore.KeyManager.Stable.{gen_seed-gen_seed}
use edrstore.KeyManager.Server.{HasSeeds}
use edrstore.Client.SelectComp.{EncFeatureChunk}
use edrstore.Client.TwoPhaseEnc.{Ciphers}
use edrstore.Client.KeyGen.{KeyGen, run}
use edrstore.Client.KeyGen.Keyed.{All2, IsKeyed}
use edrstore.Client.KeyGen.Session.{run-answer}

abbrev fold : Bytes → Bytes
fold x = take 32 (x ++ replicate 32 0)

fold_size : (x : Bytes) → length (fold x) ≡ 32
fold_size x = omega (
  arith,
  length-take 32 (x ++ replicate 32 0),
  length-append x (replicate 32 0),
  length-replicate {A = ℕ} 32 0,
)

abbrev blank_info : ChunkInfo
blank_info = record {
  fp = [];
  features = [];
  addr = record {
    stat = unique_chunk;
    container_id = [];
    offset = 0;
    len = 0;
    base_fp = [];
    compressed_fp = [];
  };
  size = 0;
  stat = unique_chunk;
}

abbrev km : BasicKm
km = record {
  feature_2_key_index = (7, replicate 32 5) ∷ [];
  total_key_gen_num = 1;
  total_similar_chunk_num = 0;
}

-- Between the two requests for 1, 2 and 3 come one that shares a feature and one that is new.
gen_seed-gen_seed_example :
    let seed = fold (global_secret ++ features_bytes (1 ∷ 2 ∷ 3 ∷ [])) in
    (first : ChunkInfo × BasicKm) × (between : List Bytes × BasicKm) × (info' : ChunkInfo)
    × (gen_seed fold (1 ∷ 2 ∷ 3 ∷ []) blank_info km ≡ ok (seed, first.0, first.1))
    × (gen_seeds fold ((3 ∷ 4 ∷ 5 ∷ []) ∷ (8 ∷ 9 ∷ 10 ∷ []) ∷ []) blank_info first.1 ≡ ok between)
    × (gen_seed fold (1 ∷ 2 ∷ 3 ∷ []) blank_info between.1
        ≡ ok (
          seed,
          info',
          record (between.1) {
            total_similar_chunk_num = u64 (between.1.total_similar_chunk_num + 1);
          },
        ))
unfolding find ℕ_discrete
gen_seed-gen_seed_example =
    gen_seed-gen_seed fold 1 (2 ∷ 3 ∷ []) ((3 ∷ 4 ∷ 5 ∷ []) ∷ (8 ∷ 9 ∷ 10 ∷ []) ∷ []) blank_info
      blank_info blank_info km fold_size (omega arith) (omega arith, (omega arith, tt))
      (refl, (refl, (refl, tt)))

abbrev plain : Ciphers
plain = record {
  ctr_encrypt = λ key x. key ++ x;
  ctr_decrypt = λ key x. drop (length key) x;
  ecb_encrypt = λ key x. key ++ x;
  ecb_decrypt = λ key x. drop (length key) x;
}

abbrev normal : EncFeatureChunk
normal = record {
  kind = normal_chunk;
  raw_chunk = 70 ∷ 71 ∷ 72 ∷ [];
  slack = [];
  fp = 9 ∷ [];
  head = record { size = 3; chunk_num = 1 };
  features = 1 ∷ 2 ∷ 3 ∷ [];
  enc_buf = [];
  key = [];
  seed = 0;
}

abbrev last : EncFeatureChunk
last = record normal { kind = recipe_chunk }

-- Two chunks in batches of 2, and a third that waits until the end.
run-answer_example :
    (g' : KeyGen BasicKm) × (outs : List EncFeatureChunk) × (run fold plain
        (answer fold true blank_info)
        2
        ((normal ∷ normal ∷ normal ∷ []) ++ last ∷ [])
        (record { chunk_buf = []; send_buf = []; output = []; remote = km })
      ≡ ok g')
    × (g'.output ≡ outs ++ last ∷ [])
    × All2 (IsKeyed plain fold) (normal ∷ normal ∷ normal ∷ []) outs
    × (g'.chunk_buf ≡ [])
    × HasSeeds g'.remote
unfolding replicate
run-answer_example =
    run-answer fold plain blank_info 2 (normal ∷ normal ∷ normal ∷ []) last km fold_size
      (λ key x. drop-length-append key x) (λ key x. drop-length-append key x) (omega arith)
      (omega arith) ((refl, omega arith), ((refl, omega arith), ((refl, omega arith), tt))) refl
      (refl, tt)
