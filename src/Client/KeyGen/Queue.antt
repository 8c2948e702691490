-- ===== src/Client/KeyGen/Queue.antt =====
-- The key thread on a whole file: what it pushes for the chunks of its input queue.
use edrstore.Prelude.{
  map-append, ℕ, ◌+◌, ◌%◌, ◌^◌, ◌<◌, ◌==◌, List, [], ◌∷◌, ◌++◌, Bytes, length, length-append, map,
  Outcome, ok, ◌>>=◌, ◌≡◌, refl, sym, ap, ◌∙◌, arith, All, All-append, not_full-lt, Bool-cases, inl,
  inr, subst,
}
use mathlib.Core.List.{append_assoc, append-nil}
use edrstore.Layout.{normal_chunk, recipe_chunk}
use edrstore.KeyManager.{KeyBuffer}
use edrstore.Client.SelectComp.{EncFeatureChunk}
use edrstore.Client.TwoPhaseEnc.{Ciphers, IsCipher}
use edrstore.Client.KeyGen.{KeyGen, process_batch, add_chunk_to_buf, run_as, run}
use edrstore.Client.KeyGen.Keyed.{
  All2, All2-append, IsKeyed, IsKeyServer, IsReady, process_batch-All2,
}

abbrev pub features_of_chunk : EncFeatureChunk → List ℕ
features_of_chunk c = c.features

-- Chunks as the thread expects them: normal ones, with fewer than 2^32 features.
abbrev pub AreNormal : List EncFeatureChunk → Type 0
AreNormal = All (λ c. (c.kind ≡ normal_chunk) × (length c.features < 2 ^ 32))

module _ (hash : Bytes → Bytes) (ciphers : Ciphers)
    (ctr : IsCipher ciphers.ctr_encrypt ciphers.ctr_decrypt)
    (ecb : IsCipher ciphers.ecb_encrypt ciphers.ecb_decrypt) {K : Type 0}
    (exchange : KeyBuffer (List ℕ) → K → Outcome (KeyBuffer Bytes × K)) (Sound : K → Type 0)
    (server : IsKeyServer exchange Sound) (batch : ℕ) (pos : 0 < batch)
    (fits : batch < 2 ^ 32) where
  abbrev IsKey : EncFeatureChunk → EncFeatureChunk → Type 0
  IsKey = IsKeyed ciphers hash

  -- After `done ++ waiting`: the outputs of `done`, and a batch that is not full.
  record IsAfter (start done : List EncFeatureChunk) (g : KeyGen K) : Type 0 where
    outs : List EncFeatureChunk
    pushed : g.output ≡ start ++ outs
    keyed : All2 IsKey done outs
    ready : IsReady hash ciphers ctr ecb exchange Sound server g
    not_full : length g.chunk_buf < batch

  process_batch-IsAfter :
      (start done : List EncFeatureChunk) (g : KeyGen K) (outs : List EncFeatureChunk)
      → g.output ≡ start ++ outs
      → All2 IsKey done outs
      → IsReady hash ciphers ctr ecb exchange Sound server g
      → (g' : KeyGen K) × (process_batch hash ciphers exchange g ≡ ok g')
        × IsAfter start (done ++ g.chunk_buf) g'
        × (g'.chunk_buf ≡ [])
  process_batch-IsAfter start done g outs pushed keyed ready =
      let (g', new, runs, no_chunks, no_requests, sound, out, new_keyed) =
        process_batch-All2 hash ciphers ctr ecb exchange Sound server g ready in
      (
        g',
        runs,
        record {
          outs = outs ++ new;
          pushed = out ∙ ap (λ t. t ++ new) pushed ∙ append_assoc start outs new;
          keyed = All2-append IsKey done g.chunk_buf outs new keyed new_keyed;
          ready = record {
            requests = no_requests ∙ sym (ap (map features_of_chunk) no_chunks);
            small = subst (All (λ fs. length fs < 2 ^ 32)) (sym no_requests) tt;
            few = omega (arith, ap length no_chunks);
            sound = sound;
          };
          not_full = omega (arith, ap length no_chunks);
        },
        no_chunks,
      )

  add_chunk_to_buf-IsAfter :
      (start done : List EncFeatureChunk) (c : EncFeatureChunk) (g : KeyGen K)
      → length c.features < 2 ^ 32
      → IsAfter start done g
      → (g' : KeyGen K) × (done' : List EncFeatureChunk) × (add_chunk_to_buf hash ciphers exchange
            batch c g
          ≡ ok g')
        × IsAfter start done' g'
        × (done' ++ g'.chunk_buf ≡ done ++ g.chunk_buf ++ c ∷ [])
  unfolding add_chunk_to_buf
  add_chunk_to_buf-IsAfter start done c g small h =
      let g1 : KeyGen K = record g {
        chunk_buf = g.chunk_buf ++ c ∷ [];
        send_buf = g.send_buf ++ c.features ∷ [];
      } in
      let one_more : length g1.chunk_buf ≡ length g.chunk_buf + 1 =
        omega (arith, length-append g.chunk_buf (c ∷ [])) in
      let ready : IsReady hash ciphers ctr ecb exchange Sound server g1 = record {
        requests =
            ap (λ t. t ++ c.features ∷ []) h.ready.requests
            ∙ sym (map-append features_of_chunk g.chunk_buf (c ∷ []));
        small =
            All-append (λ fs. length fs < 2 ^ 32) g.send_buf (c.features ∷ []) h.ready.small
              (small, tt);
        few = omega (arith, one_more, h.not_full, fits);
        sound = h.ready.sound;
      } in
      let assoc : done ++ g1.chunk_buf ≡ done ++ g.chunk_buf ++ c ∷ [] =
        sym (append_assoc done g.chunk_buf (c ∷ [])) in
      elim (Bool-cases (length g1.chunk_buf % batch == 0)) [
        | inl e ↦
            let (g', runs, after, no_chunks) =
              process_batch-IsAfter start done g1 h.outs h.pushed h.keyed ready in
            (
              g',
              done ++ g1.chunk_buf,
              rw (e, add_chunk_to_buf) runs,
              after,
              ap (λ t. done ++ g1.chunk_buf ++ t) no_chunks
                  ∙ append-nil (done ++ g1.chunk_buf)
                  ∙ assoc,
            )
        | inr e ↦ (
          g1,
          done,
          rw (e, add_chunk_to_buf) refl,
          record {
            outs = h.outs;
            pushed = h.pushed;
            keyed = h.keyed;
            ready = ready;
            not_full =
                not_full-lt batch (length g1.chunk_buf) (omega (arith, one_more, h.not_full)) e;
          },
          assoc,
        )
      ]

  run-IsAfter :
      (start cs done : List EncFeatureChunk) (last : EncFeatureChunk) (g : KeyGen K)
      → AreNormal cs
      → last.kind ≡ recipe_chunk
      → IsAfter start done g
      → (g' : KeyGen K) × (outs : List EncFeatureChunk) × (run hash ciphers exchange batch
            (cs ++ last ∷ [])
            g
          ≡ ok g')
        × (g'.output ≡ start ++ outs ++ last ∷ [])
        × All2 IsKey (done ++ g.chunk_buf ++ cs) outs
        × (g'.chunk_buf ≡ [])
        × Sound g'.remote
  unfolding run run_as
  run-IsAfter start [] done last g normal kind h =
      let (g', runs, after, no_chunks) =
        process_batch-IsAfter start done g h.outs h.pushed h.keyed h.ready in
      let push_last : KeyGen K → Outcome (KeyGen K) =
        (λ g'. ok (record g' { output = g'.output ++ last ∷ [] })) in
      (
        record g' { output = g'.output ++ last ∷ [] },
        after.outs,
        ap (λ k. run_as hash ciphers exchange batch k last g >>= λ g'. ok g') kind
            ∙ ap (λ o. (o >>= push_last) >>= λ g'. ok g') runs,
        ap (λ t. t ++ last ∷ []) after.pushed,
        subst (λ t. All2 IsKey t after.outs) (sym (append-nil (done ++ g.chunk_buf))) after.keyed,
        no_chunks,
        after.ready.sound,
      )
  run-IsAfter start (c ∷ cs) done last g normal kind h =
      let (g1, done1, adds, after, same) = add_chunk_to_buf-IsAfter start done c g normal.0.1 h in
      let (g', outs, runs, out, keyed, no_chunks, sound) =
        run-IsAfter start cs done1 last g1 normal.1 kind after in
      (
        g',
        outs,
        ap
              (λ k. run_as hash ciphers exchange batch k c g >>= λ g'.
                run hash ciphers exchange batch (cs ++ last ∷ []) g')
              normal.0.0
            ∙ ap (λ o. o >>= λ g'. run hash ciphers exchange batch (cs ++ last ∷ []) g') adds
            ∙ runs,
        out,
        subst (λ t. All2 IsKey t outs)
            (ap (λ t. t ++ cs) same ∙ append_assoc (done ++ g.chunk_buf) (c ∷ []) cs) keyed,
        no_chunks,
        sound,
      )

-- With a batch size above 0 and in 32 bits, ciphers that keep their promise and a key manager that
-- answers each item with a seed, the thread succeeds on any normal chunks and the recipe's chunk
-- behind them. It pushes, in this order, one output for each chunk and then the recipe's chunk; only
-- the padding seed, the key and the encryption of a chunk are set; the key is the hash of the chunk's
-- first 32 bytes and a seed of the key manager; the encryption is undone under the key; and no chunk
-- is left waiting.
pub run-IsKeyed :
    (hash : Bytes → Bytes) (ciphers : Ciphers)
    → IsCipher ciphers.ctr_encrypt ciphers.ctr_decrypt
    → IsCipher ciphers.ecb_encrypt ciphers.ecb_decrypt
    → {K : Type 0} (exchange : KeyBuffer (List ℕ) → K → Outcome (KeyBuffer Bytes × K))
    → (Sound : K → Type 0) → IsKeyServer exchange Sound
    → (batch : ℕ) → 0 < batch
    → batch < 2 ^ 32
    → (cs : List EncFeatureChunk) (last : EncFeatureChunk) (k : K) → AreNormal cs
    → last.kind ≡ recipe_chunk
    → Sound k
    → (g' : KeyGen K) × (outs : List EncFeatureChunk) × (run hash ciphers exchange batch
          (cs ++ last ∷ [])
          (record { chunk_buf = []; send_buf = []; output = []; remote = k })
        ≡ ok g')
      × (g'.output ≡ outs ++ last ∷ [])
      × All2 (IsKeyed ciphers hash) cs outs
      × (g'.chunk_buf ≡ [])
      × Sound g'.remote
run-IsKeyed hash ciphers ctr ecb exchange Sound server batch pos fits cs last k normal kind sound =
    run-IsAfter hash ciphers ctr ecb exchange Sound server batch pos fits [] cs [] last
      (record { chunk_buf = []; send_buf = []; output = []; remote = k }) normal kind
      (record {
        outs = [];
        pushed = refl;
        keyed = tt;
        ready = record { requests = refl; small = tt; few = omega arith; sound = sound };
        not_full = pos;
      })
