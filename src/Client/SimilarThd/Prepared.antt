-- ===== src/Client/SimilarThd/Prepared.antt =====
-- The way of a file's chunks through the three threads before the choice of their form: the features of
-- the chunk, its key and encryption, and the features of the encryption.
use edrstore.Prelude.{
  ℕ, ◌<◌, ◌^◌, List, [], ◌∷◌, ◌++◌, true, Bytes, length, map, ok, ◌>>=◌, All, ◌≡◌, refl, ap, ◌∙◌,
}
use edrstore.Layout.{ChunkInfo, normal_chunk, recipe_chunk}
use edrstore.KeyManager.{BasicKm, answer}
use edrstore.KeyManager.Server.{HasSeeds}
use edrstore.Client.SelectComp.{EncFeatureChunk}
use edrstore.Client.TwoPhaseEnc.{Ciphers, IsCipher, two_phase_dec_chunk}
use edrstore.Client.KeyGen.{KeyGen, convert_fp2_val, run}
use edrstore.Client.KeyGen.Keyed.{All2, IsKeyed}
use edrstore.Client.KeyGen.Queue.{AreNormal}
use edrstore.Client.KeyGen.Session.{run-answer}
use edrstore.Client.SimilarThd.{plain_as, plain_run, cipher_as, cipher_run}

abbrev AllNormal : List EncFeatureChunk → Type 0
AllNormal = All (λ c. c.kind ≡ normal_chunk)

-- What comes out for a chunk: its data and fingerprint, the padding seed of the fingerprint, features of
-- the encryption, and an encryption that is undone under the key.
pub record IsPrepared (extract : Bytes → List ℕ) (ciphers : Ciphers) (c o : EncFeatureChunk)
    : Type 0 where
  pub normal : o.kind ≡ normal_chunk
  pub raw : o.raw_chunk ≡ c.raw_chunk
  pub fp : o.fp ≡ c.fp
  pub seed_of_fp : o.seed ≡ convert_fp2_val c.fp
  pub cipher_features : o.features ≡ extract o.enc_buf
  pub decrypts : two_phase_dec_chunk ciphers o.enc_buf o.key ≡ c.raw_chunk

module _ (extract : Bytes → List ℕ) where
  abbrev pub with_features : EncFeatureChunk → EncFeatureChunk
  with_features c = record c { features = extract c.raw_chunk }

  plain_run_lem :
      (cs : List EncFeatureChunk) (last : EncFeatureChunk) (old : List ℕ)
      → AllNormal cs
      → last.kind ≡ recipe_chunk
      → (last' : EncFeatureChunk) × (last'.kind ≡ recipe_chunk)
        × (plain_run extract (cs ++ last ∷ []) old ≡ ok (map with_features cs ++ last' ∷ []))
  unfolding plain_run plain_as
  plain_run_lem [] last old normal kind = (
    record last { features = old },
    kind,
    ap (λ k. plain_as extract k last old >>= λ o. ok (o ∷ [])) kind,
  )
  plain_run_lem (c ∷ cs) last old normal kind =
      let (last', kind', runs) = plain_run_lem cs last (extract c.raw_chunk) normal.1 kind in
      (
        last',
        kind',
        ap
              (λ k. plain_as extract k c old >>= λ o.
                plain_run extract (cs ++ last ∷ []) o.features >>= λ os. ok (o ∷ os))
              normal.0
            ∙ ap (λ r. r >>= λ os. ok (with_features c ∷ os)) runs,
      )

  with_features-AreNormal :
      (cs : List EncFeatureChunk)
      → ((x : Bytes) → length (extract x) < 2 ^ 32)
      → AllNormal cs
      → AreNormal (map with_features cs)
  with_features-AreNormal [] few normal = tt
  with_features-AreNormal (c ∷ cs) few normal =
      ((normal.0, few c.raw_chunk), with_features-AreNormal cs few normal.1)

  cipher_run_lem :
      (ciphers : Ciphers) (hash : Bytes → Bytes) (cs outs : List EncFeatureChunk)
      (last : EncFeatureChunk)
      → AllNormal cs
      → All2 (IsKeyed ciphers hash) (map with_features cs) outs
      → last.kind ≡ recipe_chunk
      → (os : List EncFeatureChunk) × (cipher_run extract (outs ++ last ∷ [])
          ≡ ok (os ++ last ∷ []))
        × All2 (IsPrepared extract ciphers) cs os
  unfolding cipher_run cipher_as
  cipher_run_lem ciphers hash [] [] last normal keyed kind =
      ([], ap (λ k. cipher_as extract k last >>= λ o. ok (o ∷ [])) kind, tt)
  cipher_run_lem ciphers hash [] (o ∷ outs) last normal keyed kind = absurd keyed
  cipher_run_lem ciphers hash (c ∷ cs) [] last normal keyed kind = absurd keyed
  cipher_run_lem ciphers hash (c ∷ cs) (o ∷ outs) last normal keyed kind =
      let (os, runs, prepared) = cipher_run_lem ciphers hash cs outs last normal.1 keyed.1 kind in
      let o_normal : o.kind ≡ normal_chunk = ap (λ x. x.kind) keyed.0.same ∙ normal.0 in
      let out : EncFeatureChunk = record o { features = extract o.enc_buf } in
      (
        out ∷ os,
        ap
              (λ k. cipher_as extract k o >>= λ o.
                cipher_run extract (outs ++ last ∷ []) >>= λ os. ok (o ∷ os))
              o_normal
            ∙ ap (λ r. r >>= λ os. ok (out ∷ os)) runs,
        (
          record {
            normal = o_normal;
            raw = ap (λ x. x.raw_chunk) keyed.0.same;
            fp = ap (λ x. x.fp) keyed.0.same;
            seed_of_fp = keyed.0.seed_of_fp;
            cipher_features = refl;
            decrypts = keyed.0.decrypts;
          },
          prepared,
        ),
      )

-- With a batch size above 0 and in 32 bits, ciphers that keep their promise, a hash of 32 bytes, a key
-- index of seeds of 32 bytes, and fewer than 2^32 features for a chunk, the three threads and the key
-- manager succeed on any normal chunks and the recipe's chunk behind them. The key thread is given each
-- chunk with the features of its data. What comes out is, in this order, one chunk for each, with the same
-- data and fingerprint, the padding seed of the fingerprint, the features of its encryption and an
-- encryption that is undone under its key, and then a chunk of the recipe.
pub cipher_run-IsPrepared :
    (extract : Bytes → List ℕ) (hash : Bytes → Bytes) (ciphers : Ciphers) (uninit : ChunkInfo)
    (batch : ℕ) (cs : List EncFeatureChunk) (last : EncFeatureChunk) (old : List ℕ) (km : BasicKm)
    → ((x : Bytes) → length (extract x) < 2 ^ 32)
    → ((x : Bytes) → length (hash x) ≡ 32)
    → IsCipher ciphers.ctr_encrypt ciphers.ctr_decrypt
    → IsCipher ciphers.ecb_encrypt ciphers.ecb_decrypt
    → 0 < batch
    → batch < 2 ^ 32
    → All (λ c. c.kind ≡ normal_chunk) cs
    → last.kind ≡ recipe_chunk
    → HasSeeds km
    → (plain : List EncFeatureChunk) × (g : KeyGen BasicKm) × (outs : List EncFeatureChunk)
      × (last' : EncFeatureChunk) × (plain_run extract (cs ++ last ∷ []) old ≡ ok plain)
      × (plain ≡ map (with_features extract) cs ++ last' ∷ [])
      × (run hash ciphers
            (answer hash true uninit)
            batch
            plain
            (record { chunk_buf = []; send_buf = []; output = []; remote = km })
          ≡ ok g)
      × (cipher_run extract g.output ≡ ok (outs ++ last' ∷ []))
      × All2 (IsPrepared extract ciphers) cs outs
      × (last'.kind ≡ recipe_chunk)
cipher_run-IsPrepared extract hash ciphers uninit batch cs last old km few hash_size ctr ecb pos
      fits normal kind seeds =
    let (last', kind', plains) = plain_run_lem extract cs last old normal kind in
    let (g, keys, runs, out, keyed, _, _) =
      run-answer hash ciphers uninit batch (map (with_features extract) cs) last' km hash_size ctr
        ecb pos fits (with_features-AreNormal extract cs few normal) kind' seeds in
    let (outs, ciphered, prepared) =
      cipher_run_lem extract ciphers hash cs keys last' normal keyed kind' in
    (
      map (with_features extract) cs ++ last' ∷ [],
      g,
      outs,
      last',
      plains,
      refl,
      runs,
      ap (cipher_run extract) out ∙ ciphered,
      prepared,
      kind',
    )
