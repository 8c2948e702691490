-- ===== src/Tests/Pipelines.antt =====
-- The threads of the client one behind the other, on small files.
use edrstore.Prelude.{
  ℕ, List, [], ◌∷◌, ◌++◌, true, Bytes, length, length-take, length-append, length-replicate, take,
  drop, drop-length-append, replicate, map, Outcome, ok, ◌≡◌, refl, arith,
}
use edrstore.Layout.{ChunkInfo, SendChunkHeader, unique_chunk, normal_chunk, recipe_chunk}
use edrstore.KeyManager.{BasicKm, answer}
use edrstore.Client.CompressUtil.{CompressType, Codec, done}
use edrstore.Client.TwoPhaseEnc.{Ciphers}
use edrstore.Client.SelectComp.{EncFeatureChunk}
use edrstore.Client.KeyGen.{KeyGen, run}
use edrstore.Client.KeyGen.Keyed.{All2}
use edrstore.Client.SimilarThd.{plain_run, cipher_run}
use edrstore.Client.SimilarThd.Prepared.{IsPrepared, with_features, cipher_run-IsPrepared}
use edrstore.Client.Retriever.{Retriever}
use edrstore.Client.Retriever.Message.{Item}

abbrev fold : Bytes → Bytes
fold x = take 32 (x ++ replicate 32 0)

fold_size : (x : Bytes) → length (fold x) ≡ 32
fold_size x = omega (
  arith,
  length-take 32 (x ++ replicate 32 0),
  length-append x (replicate 32 0),
  length-replicate {A = ℕ} 32 0,
)

abbrev first_three : Bytes → List ℕ
first_three x = take 3 x

abbrev plain : Ciphers
plain = record {
  ctr_encrypt = λ key x. key ++ x;
  ctr_decrypt = λ key x. drop (length key) x;
  ecb_encrypt = λ key x. key ++ x;
  ecb_decrypt = λ key x. drop (length key) x;
}

abbrev blank_info : ChunkInfo
blank_info = record {
  fp = [];
  features = [];
  addr = record {
    stat = unique_chunk;
    container_id = [];
    offset = 0;
    len = 0;
    base_fp = [];
    compressed_fp = [];
  };
  size = 0;
  stat = unique_chunk;
}

abbrev km : BasicKm
km = record { feature_2_key_index = []; total_key_gen_num = 0; total_similar_chunk_num = 0 }

abbrev normal : EncFeatureChunk
normal = record {
  kind = normal_chunk;
  raw_chunk = 70 ∷ 71 ∷ 72 ∷ 73 ∷ [];
  slack = [];
  fp = 9 ∷ [];
  head = record { size = 4; chunk_num = 1 };
  features = [];
  enc_buf = [];
  key = [];
  seed = 0;
}

abbrev last : EncFeatureChunk
last = record normal { kind = recipe_chunk }

cipher_run-IsPrepared_example :
    (plain_chunks : List EncFeatureChunk) × (g : KeyGen BasicKm) × (outs : List EncFeatureChunk)
    × (last' : EncFeatureChunk) × (plain_run first_three ((normal ∷ normal ∷ []) ++ last ∷ []) []
        ≡ ok plain_chunks)
    × (plain_chunks ≡ map (with_features first_three) (normal ∷ normal ∷ []) ++ last' ∷ [])
    × (run fold plain
          (answer fold true blank_info)
          2
          plain_chunks
          (record { chunk_buf = []; send_buf = []; output = []; remote = km })
        ≡ ok g)
    × (cipher_run first_three g.output ≡ ok (outs ++ last' ∷ []))
    × All2 (IsPrepared first_three plain) (normal ∷ normal ∷ []) outs
    × (last'.kind ≡ recipe_chunk)
cipher_run-IsPrepared_example =
    cipher_run-IsPrepared first_three fold plain blank_info 2 (normal ∷ normal ∷ []) last [] km
      (λ x. omega (arith, length-take 3 x)) fold_size (λ key x. drop-length-append key x)
      (λ key x. drop-length-append key x) (omega arith) (omega arith) (refl, (refl, tt)) refl tt

-- A library whose compressed data are the data.
abbrev stores : CompressType → ℕ → Bytes → Codec
stores t room x = done x

abbrev no_delta : Bytes → Bytes → Outcome Bytes
no_delta base delta = ok []

abbrev head : SendChunkHeader
head = record {
  size = 8;
  kind = 7;
  cipher_features = 0 ∷ 0 ∷ 0 ∷ [];
  compressed_fp = replicate 32 0;
}

abbrev item_1 : Item
item_1 = record {
  header = head;
  body = 8 ∷ 8 ∷ 70 ∷ 71 ∷ 2 ∷ 0 ∷ 0 ∷ 0 ∷ [];
  key = 8 ∷ [];
  chunk = 70 ∷ 71 ∷ [];
}

abbrev item_2 : Item
item_2 = record {
  header = head;
  body = 9 ∷ 9 ∷ 72 ∷ 73 ∷ 2 ∷ 0 ∷ 0 ∷ 0 ∷ [];
  key = 9 ∷ [];
  chunk = 72 ∷ 73 ∷ [];
}
