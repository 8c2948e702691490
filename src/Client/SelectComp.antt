-- ===== src/Client/SelectComp.antt =====
-- EDRStore/src/client/select_comp_thd.cc: which form of a chunk is sent. `hash` is SHA-256 of a
-- library. The time measurements of `EDR_BREAKDOWN` are left out. A chunk that a thread reuses from
-- round to round is an argument and a result.
use edrstore.Prelude.{
  ℕ, ◌++◌, List, [], ◌∷◌, Bytes, Bool, true, false, u32, length, le_bytes, Outcome, ok,
  exit_failure, ◌>>=◌, if◌then◌else◌,
}
use edrstore.Layout.{
  DataType, normal_chunk, compressed_normal_chunk, recipe_chunk, full_edr_cache_chunk,
  full_edr_uncompress_chunk, type_code, SendChunk,
}
use edrstore.Client.CompressUtil.{CompressType, Codec}
use edrstore.Client.CompPad.{compress_with_pad}
use edrstore.Client.TwoPhaseEnc.{Ciphers, two_phase_enc_chunk}
use edrstore.Client.CacheMeta.{CacheMeta, query_cache_meta, update_cache_meta}

-- `FileRecipeHead_t`
pub record FileRecipeHead : Type 0 where
  pub size : ℕ
  pub chunk_num : ℕ

-- `EncFeatureChunk_t`, with the `Chunk_t` in it. `slack` is what the data buffer holds behind the
-- chunk.
pub record EncFeatureChunk : Type 0 where
  pub kind : DataType
  pub raw_chunk : Bytes
  pub slack : Bytes
  pub fp : Bytes
  pub head : FileRecipeHead
  pub features : List ℕ
  pub enc_buf : Bytes
  pub key : Bytes
  pub seed : ℕ

-- `SelectComp2Sender_t`
pub record KeyedChunk : Type 0 where
  pub send_chunk : SendChunk
  pub key : Bytes

-- The data, with its type and size, in a chunk whose other fields stay.
unfoldable pub set_data : DataType → Bytes → KeyedChunk → KeyedChunk
set_data t bytes out = record out {
  send_chunk = record {
    header = record (out.send_chunk.header) { kind = type_code t; size = u32 (length bytes) };
    buf = bytes;
  };
}

unfoldable pub head_bytes : FileRecipeHead → Bytes
head_bytes h = le_bytes 8 h.size ++ le_bytes 8 h.chunk_num

abbrev set_key : Bytes → KeyedChunk → KeyedChunk
set_key key out = record out { key = key }

-- The cipher features in the header.
abbrev set_features : List ℕ → KeyedChunk → KeyedChunk
set_features features out = record out {
  send_chunk = record (out.send_chunk) {
    header = record (out.send_chunk.header) { cipher_features = features };
  };
}

-- `OnlyEncMode`
unfoldable pub only_enc_mode : EncFeatureChunk → KeyedChunk → Outcome KeyedChunk
unfolding set_data head_bytes
only_enc_mode input out = elim input.kind [
  | normal_chunk ↦ ok (set_key input.key (set_data normal_chunk input.enc_buf out))
  | recipe_chunk ↦ ok (set_data recipe_chunk (head_bytes input.head) out)
  | _ ↦ exit_failure
]

-- What `FullEDR` leaves: the map of the client, the two chunks, and whether the first is pushed.
pub record Selected : Type 0 where
  pub meta : CacheMeta
  pub cache_chunk : KeyedChunk
  pub output_chunk : KeyedChunk
  pub need_cache_chunk : Bool

module _ (hash : Bytes → Bytes) (ciphers : Ciphers) (random : ℕ → ℕ → ℕ)
    (lib_compress : CompressType → Bytes → Codec) (t : CompressType) where
  -- `EncCompMode`
  unfoldable pub enc_comp_mode : EncFeatureChunk → KeyedChunk → Outcome KeyedChunk
  unfolding set_data head_bytes compress_with_pad
  enc_comp_mode input out = elim input.kind [
    | normal_chunk ↦
        compress_with_pad random lib_compress t input.raw_chunk input.seed >>= λ padded.
        ok (set_key input.key (set_data compressed_normal_chunk padded out))
    | recipe_chunk ↦ ok (set_data recipe_chunk (head_bytes input.head) out)
    | _ ↦ exit_failure
  ]

  -- A chunk that shares a feature: it is sent uncompressed, with the hash of its compressed form.
  unfoldable pub select_similar : EncFeatureChunk → KeyedChunk → Outcome KeyedChunk
  unfolding set_data compress_with_pad two_phase_enc_chunk
  select_similar input out =
      compress_with_pad random lib_compress t input.raw_chunk input.seed >>= λ padded.
      let o = set_features input.features (set_data full_edr_uncompress_chunk input.enc_buf out) in
      ok (record o {
        send_chunk = record (o.send_chunk) {
          header = record (o.send_chunk.header) {
            compressed_fp = hash (two_phase_enc_chunk ciphers padded input.key);
          };
        };
        key = input.key;
      })

  -- `FullEDR`
  unfoldable pub full_edr : EncFeatureChunk → CacheMeta → KeyedChunk → KeyedChunk → Outcome Selected
  unfolding select_similar set_data head_bytes query_cache_meta update_cache_meta compress_with_pad
  full_edr input meta cache out = elim input.kind [
    | normal_chunk ↦
        let (meta', is_similar) = query_cache_meta input.features meta in
        if is_similar
        then (select_similar input out >>= λ o. ok (record {
          meta = meta';
          cache_chunk = cache;
          output_chunk = o;
          need_cache_chunk = false;
        }))
        else (compress_with_pad random lib_compress t input.raw_chunk input.seed >>= λ padded.
            ok (record {
              meta = update_cache_meta input.features meta';
              cache_chunk =
                  set_features input.features (set_data full_edr_cache_chunk input.enc_buf cache);
              output_chunk = set_key input.key (set_data compressed_normal_chunk padded out);
              need_cache_chunk = true;
            }))
    | recipe_chunk ↦ ok (record {
      meta = meta;
      cache_chunk = cache;
      output_chunk = set_data recipe_chunk (head_bytes input.head) out;
      need_cache_chunk = false;
    })
    | _ ↦ exit_failure
  ]

-- `enum EDR_DESIGN_SET`
pub data EdrDesign : Type 0 where
  only_similar_enc similar_enc_comp full_edr_design : EdrDesign

-- The two chunks that the loop reuses, the map of features, and what was pushed.
pub record Select : Type 0 where
  pub meta : CacheMeta
  pub cache_chunk : KeyedChunk
  pub send_chunk : KeyedChunk
  pub output_mq : List KeyedChunk

abbrev push_send : Select → KeyedChunk → Select
push_send s o = record s { send_chunk = o; output_mq = s.output_mq ++ o ∷ [] }

module _ (hash : Bytes → Bytes) (ciphers : Ciphers) (random : ℕ → ℕ → ℕ)
    (lib_compress : CompressType → Bytes → Codec) (t : CompressType) where
  -- The switch on the design in `Run`.
  unfoldable pub select_step : EdrDesign → Select → EncFeatureChunk → Outcome Select
  unfolding only_enc_mode enc_comp_mode full_edr
  select_step only_similar_enc s c = only_enc_mode c s.send_chunk >>= λ o. ok (push_send s o)
  select_step similar_enc_comp s c =
      enc_comp_mode hash ciphers random lib_compress t c s.send_chunk >>= λ o. ok (push_send s o)
  select_step full_edr_design s c =
      full_edr hash ciphers random lib_compress t c s.meta s.cache_chunk s.send_chunk >>= λ r.
      let s' = record s { meta = r.meta; cache_chunk = r.cache_chunk } in
      ok (
        if r.need_cache_chunk
        then push_send (record s' { output_mq = s.output_mq ++ r.cache_chunk ∷ [] }) r.output_chunk
        else push_send s' r.output_chunk)

  -- `Run`
  unfoldable pub select_run : EdrDesign → Select → List EncFeatureChunk → Outcome Select
  unfolding select_step
  select_run design s [] = ok s
  select_run design s (c ∷ cs) = select_step design s c >>= λ s'. select_run design s' cs
