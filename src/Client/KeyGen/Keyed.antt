-- ===== src/Client/KeyGen/Keyed.antt =====
-- Every chunk that goes into the key thread comes out of it once, in order, with a key of its own.
use edrstore.Prelude.{
  length-map, ℕ, ◌^◌, ◌<◌, ◌==◌, List, [], ◌∷◌, ◌++◌, Bytes, length, take, map, take_of_length-le,
  u32, Outcome, ok, ◌>>=◌, ◌≡◌, refl, sym, ap, arith, All, Bool-cases, inl, inr, length-zero,
  ==_iff, subst,
}
use mathlib.Core.List.{append-nil}
use edrstore.KeyManager.{KeyBuffer, client_key_gen}
use edrstore.Client.SelectComp.{EncFeatureChunk}
use edrstore.Client.TwoPhaseEnc.{Ciphers, IsCipher, two_phase_dec_chunk, two_phase_dec-enc}
use edrstore.Client.KeyGen.{KeyGen, convert_fp2_val, finish_chunk, finish_batch, process_batch}

-- A relation between the elements of two lists of one length.
abbrev pub All2 : {A B : Type 0} → (A → B → Type 0) → List A → List B → Type 0
All2 R [] [] = Unit
All2 R (x ∷ xs) (y ∷ ys) = R x y × All2 R xs ys
All2 R _ _ = ⊥

pub All2-append :
    {A B : Type 0} (R : A → B → Type 0) (xs xs' : List A) (ys ys' : List B)
    → All2 R xs ys
    → All2 R xs' ys'
    → All2 R (xs ++ xs') (ys ++ ys')
All2-append R [] xs' [] ys' h k = k
All2-append R (x ∷ xs) xs' (y ∷ ys) ys' h k = (h.0, All2-append R xs xs' ys ys' h.1 k)
All2-append R [] xs' (y ∷ ys) ys' h k = absurd h
All2-append R (x ∷ xs) xs' [] ys' h k = absurd h

-- What the thread makes of a chunk: only the seed for padding, the key and the encryption are set; the
-- encryption is undone under the key.
pub record IsKeyed (ciphers : Ciphers) (hash : Bytes → Bytes) (c o : EncFeatureChunk) : Type 0 where
  pub same : o ≡ record c { seed = o.seed; key = o.key; enc_buf = o.enc_buf }
  pub seed_of_fp : o.seed ≡ convert_fp2_val c.fp
  pub key_seed : Bytes
  pub sized : length key_seed ≡ 32
  pub key_of_data : o.key ≡ hash (take 32 (c.raw_chunk ++ c.slack) ++ take 32 key_seed)
  pub decrypts : two_phase_dec_chunk ciphers o.enc_buf o.key ≡ c.raw_chunk

-- What the thread relies on of the other end: a request is answered with one seed of 32 bytes for
-- each of its items, and the other end stays sound.
pub record IsKeyServer {K : Type 0}
    (exchange : KeyBuffer (List ℕ) → K → Outcome (KeyBuffer Bytes × K)) (Sound : K → Type 0)
    : Type 0 where
  pub answers :
      (m : KeyBuffer (List ℕ)) (k : K)
      → Sound k
      → m.msg_type ≡ client_key_gen
      → m.cur_item_num ≡ length m.items
      → All (λ fs. length fs < 2 ^ 32) m.items
      → (r : KeyBuffer Bytes × K) × (exchange m k ≡ ok r)
        × Sound r.1
        × (length r.0.items ≡ m.cur_item_num)
        × All (λ s. length s ≡ 32) r.0.items

module _ (hash : Bytes → Bytes) (ciphers : Ciphers)
    (ctr : IsCipher ciphers.ctr_encrypt ciphers.ctr_decrypt)
    (ecb : IsCipher ciphers.ecb_encrypt ciphers.ecb_decrypt) where
  finish_chunk-IsKeyed :
      (c : EncFeatureChunk) (s : Bytes)
      → length s ≡ 32
      → IsKeyed ciphers hash c (finish_chunk hash ciphers c s)
  unfolding finish_chunk
  finish_chunk-IsKeyed c s sized = record {
    same = refl;
    seed_of_fp = refl;
    key_seed = s;
    sized = sized;
    key_of_data = refl;
    decrypts =
        two_phase_dec-enc ciphers c.raw_chunk (hash (take 32 (c.raw_chunk ++ c.slack) ++ take 32 s))
          ctr ecb;
  }

  finish_batch-All2 :
      (cs : List EncFeatureChunk) (seeds : List Bytes)
      → length seeds ≡ length cs
      → All (λ s. length s ≡ 32) seeds
      → All2 (IsKeyed ciphers hash) cs (finish_batch hash ciphers cs seeds)
  unfolding finish_batch
  finish_batch-All2 [] seeds len sized = tt
  finish_batch-All2 (c ∷ cs) [] len sized = absurd (omega arith)
  finish_batch-All2 (c ∷ cs) (s ∷ seeds) len sized =
      (finish_chunk-IsKeyed c s sized.0, finish_batch-All2 cs seeds (omega arith) sized.1)

  module _ {K : Type 0} (exchange : KeyBuffer (List ℕ) → K → Outcome (KeyBuffer Bytes × K))
      (Sound : K → Type 0) (server : IsKeyServer exchange Sound) where
    abbrev exchanged : KeyGen K → KeyBuffer Bytes × K → KeyGen K
    exchanged g reply = record {
      chunk_buf = [];
      send_buf = [];
      output =
          g.output
          ++ finish_batch hash ciphers (take (u32 (length g.chunk_buf)) g.chunk_buf) reply.0.items;
      remote = reply.1;
    }

    -- The send buffer has the features of the chunks that wait, and the key manager is sound.
    pub record IsReady (g : KeyGen K) : Type 0 where
      pub requests : g.send_buf ≡ map (λ c. c.features) g.chunk_buf
      pub small : All (λ fs. length fs < 2 ^ 32) g.send_buf
      pub few : length g.chunk_buf < 2 ^ 32
      pub sound : Sound g.remote

    pub process_batch-All2 :
        (g : KeyGen K)
        → IsReady g
        → (g' : KeyGen K) × (outs : List EncFeatureChunk) × (process_batch hash ciphers exchange g
            ≡ ok g')
          × (g'.chunk_buf ≡ [])
          × (g'.send_buf ≡ [])
          × Sound g'.remote
          × (g'.output ≡ g.output ++ outs)
          × All2 (IsKeyed ciphers hash) g.chunk_buf outs
    unfolding process_batch
    process_batch-All2 g h =
        let whole : u32 (length g.chunk_buf) ≡ length g.chunk_buf = omega (arith, h.few) in
        let counted : u32 (length g.chunk_buf) ≡ length g.send_buf = omega (
          arith,
          h.few,
          length-map (λ (c : EncFeatureChunk). c.features) g.chunk_buf,
          ap length h.requests,
        ) in
        elim (Bool-cases (u32 (length g.chunk_buf) == 0)) [
          | inl e ↦
              let no_chunks = length-zero g.chunk_buf (omega (arith, whole, (==_iff _ _).0 e)) in
              (
                g,
                [],
                rw (e, process_batch) refl,
                no_chunks,
                length-zero g.send_buf (omega (arith, counted, (==_iff _ _).0 e)),
                h.sound,
                sym (append-nil g.output),
                subst (λ cs. All2 (IsKeyed ciphers hash) cs []) (sym no_chunks) tt,
              )
          | inr e ↦
              let (r, sends, sound, len, sized) =
                server.answers
                  (record {
                    msg_type = client_key_gen;
                    cur_item_num = u32 (length g.chunk_buf);
                    items = g.send_buf;
                  })
                  g.remote h.sound refl counted h.small in
              let all =
                take_of_length-le (u32 (length g.chunk_buf)) g.chunk_buf (omega (arith, whole)) in
              (
                exchanged g r,
                finish_batch hash ciphers (take (u32 (length g.chunk_buf)) g.chunk_buf) r.0.items,
                rw (e, process_batch) (ap (λ o. o >>= λ reply. ok (exchanged g reply)) sends),
                refl,
                refl,
                sound,
                refl,
                subst
                    (λ cs.
                      All2 (IsKeyed ciphers hash) g.chunk_buf
                        (finish_batch hash ciphers cs r.0.items))
                    (sym all)
                    (finish_batch-All2 g.chunk_buf r.0.items (omega (arith, len, whole)) sized),
              )
        ]
