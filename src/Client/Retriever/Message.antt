-- ===== src/Client/Retriever/Message.antt =====
-- A download as the client sees it: the items of the messages, with the keys of its key recipe, are the
-- chunks of the file.
use edrstore.Prelude.{
  ℕ, ◌+◌, ◌*◌, ◌^◌, ◌<◌, List, [], ◌∷◌, ◌++◌, Bytes, le_bytes, length-le_bytes, slice, length,
  length-append, slice-add-append, map, take-length-append, drop, Outcome, ok, ◌>>=◌, All, ◌≡◌,
  refl, sym, ap, ap₂, ◌∙◌, arith, Bool-cases, inl, inr, ◌==◌, if◌then◌else◌,
}
use mathlib.Core.List.{append_assoc, append-nil}
use edrstore.Layout.{SendChunkHeader}
use edrstore.Upload.Wire.{
  header_bytes, features_bytes, header_size, IsHeader, read_header-header_bytes,
}
use edrstore.Client.CompressUtil.{CompressType, Codec}
use edrstore.Client.TwoPhaseEnc.{Ciphers}
use edrstore.Client.Retriever.{
  Retriever, fetch_key_recipe, ensure_key, cur_key, push_restored, restore_one, retrieve_loop,
}
use edrstore.Client.Retriever.Keys.{IsKeys, ensure_key-IsKeys, cur_key_lem, push_restored-IsKeys}

-- An item of a message, its key in the key recipe, and the chunk that it stands for.
pub record Item : Type 0 where
  pub header : SendChunkHeader
  pub body : Bytes
  pub key : Bytes
  pub chunk : Bytes

-- The data of a message.
unfoldable pub items_bytes : Bytes → List Item → Bytes
items_bytes pad [] = []
items_bytes pad (it ∷ its) = header_bytes pad it.header ++ (it.body ++ items_bytes pad its)

abbrev pub keys_of : List Item → List Bytes
keys_of = map (λ it. it.key)

abbrev pub chunks_of : List Item → List Bytes
chunks_of = map (λ it. it.chunk)

pub record IsItem (restore : Bytes → Bytes → Outcome Bytes) (it : Item) : Type 0 where
  pub header_fits : IsHeader it.header
  pub sized : it.header.size ≡ length it.body
  pub restores : restore it.body it.key ≡ ok it.chunk

length-features_bytes : (fs : List ℕ) → length (features_bytes fs) ≡ length fs * 8
unfolding features_bytes
length-features_bytes [] = refl
length-features_bytes (f ∷ fs) = omega (
  arith,
  length-append (le_bytes 8 f) (features_bytes fs),
  length-le_bytes 8 f,
  length-features_bytes fs,
)

length-header_bytes :
    (pad : Bytes) (h : SendChunkHeader)
    → length pad ≡ 3
    → IsHeader h
    → length (header_bytes pad h) ≡ header_size
unfolding header_bytes
length-header_bytes pad h padded fits = omega (
  arith,
  length-append (le_bytes 4 h.size)
      (le_bytes 1 h.kind ++ (pad ++ (features_bytes h.cipher_features ++ h.compressed_fp))),
  length-append (le_bytes 1 h.kind) (pad ++ (features_bytes h.cipher_features ++ h.compressed_fp)),
  length-append pad (features_bytes h.cipher_features ++ h.compressed_fp),
  length-append (features_bytes h.cipher_features) h.compressed_fp,
  length-le_bytes 4 h.size,
  length-le_bytes 1 h.kind,
  length-features_bytes h.cipher_features,
  fits.three,
  fits.fp_size,
)

-- The body of an item stands behind its header.
slice-body :
    (pre head body rest : Bytes) (n : ℕ)
    → n ≡ length pre + length head
    → slice n (length body) (pre ++ (head ++ (body ++ rest))) ≡ body
unfolding slice drop
slice-body pre head body rest n e =
    slice-add-append (length head) n (length body) pre (head ++ (body ++ rest)) e
    ∙ slice-add-append 0 (length head) (length body) head (body ++ rest) (omega arith)
    ∙ take-length-append body rest

module _ (ciphers : Ciphers) (lib_decompress : CompressType → ℕ → Bytes → Codec) (t : CompressType)
    (delta_decode : Bytes → Bytes → Outcome Bytes) (batch : ℕ) (unread pad : Bytes)
    (pos : 0 < batch) (small : batch < 2 ^ 32) (padded : length pad ≡ 3) where
  module _ (restore : Bytes → Bytes → Outcome Bytes) where
    abbrev step : Bytes → ℕ → Retriever → Outcome (Retriever × ℕ)
    step = restore_one ciphers lib_decompress t delta_decode batch unread restore

    same_output : (r : Retriever) → (ensure_key batch r).output_mq ≡ r.output_mq
    unfolding ensure_key fetch_key_recipe
    same_output r = elim (Bool-cases (r.remain_recipe_num == 0)) [
      | inl e ↦ ap (λ b. (if b then fetch_key_recipe batch r else r).output_mq) e
      | inr e ↦ ap (λ b. (if b then fetch_key_recipe batch r else r).output_mq) e
    ]

    restore_one-item :
        (pre rest : Bytes) (it : Item) (r : Retriever) (keys : List Bytes)
        → IsItem restore it
        → IsKeys batch r (it.key ∷ keys)
        → (r' : Retriever) × (step
              (pre ++ (header_bytes pad it.header ++ (it.body ++ rest)))
              (length pre)
              r
            ≡ ok (r', length pre + header_size + length it.body))
          × (r'.output_mq ≡ r.output_mq ++ it.chunk ∷ [])
          × IsKeys batch r' keys
    unfolding restore_one
    restore_one-item pre rest it r keys h k =
        let buf = pre ++ (header_bytes pad it.header ++ (it.body ++ rest)) in
        let off = length pre + header_size in
        let (k1, left) = ensure_key-IsKeys batch pos small r it.key keys k in
        let r1 = ensure_key batch r in
        let done : ℕ → Bytes → Outcome (Retriever × ℕ) =
          (λ size chunk. ok (push_restored chunk r1, off + size)) in
        let header =
          read_header-header_bytes pre (it.body ++ rest) pad it.header padded h.header_fits in
        let body : slice off (length it.body) buf ≡ it.body =
          slice-body pre (header_bytes pad it.header) it.body rest off
            (omega (arith, length-header_bytes pad it.header padded h.header_fits)) in
        (
          push_restored it.chunk r1,
          ap (λ hd. restore (slice off hd.size buf) (cur_key unread r1) >>= done hd.size) header
              ∙ ap (λ n. restore (slice off n buf) (cur_key unread r1) >>= done n) h.sized
              ∙ ap₂ (λ x key. restore x key >>= done (length it.body)) body
                  (cur_key_lem batch small r1 it.key keys k1 left unread)
              ∙ ap (λ o. o >>= done (length it.body)) h.restores,
          ap (λ mq. mq ++ it.chunk ∷ []) (same_output r),
          push_restored-IsKeys batch small r1 it.key keys k1 left it.chunk,
        )

    pub retrieve_loop-items :
        (its : List Item) (pre : Bytes) (later : List Bytes) (r : Retriever)
        → All (IsItem restore) its
        → IsKeys batch r (keys_of its ++ later)
        → (r' : Retriever) × (retrieve_loop ciphers lib_decompress t delta_decode batch unread step
              (length its)
              (pre ++ items_bytes pad its)
              (length pre)
              r
            ≡ ok r')
          × (r'.output_mq ≡ r.output_mq ++ chunks_of its)
          × IsKeys batch r' later
    unfolding retrieve_loop items_bytes
    retrieve_loop-items [] pre later r h k = (r, refl, sym (append-nil r.output_mq), k)
    retrieve_loop-items (it ∷ its) pre later r h k =
        let rest = items_bytes pad its in
        let hb = header_bytes pad it.header in
        let buf = pre ++ (hb ++ (it.body ++ rest)) in
        let (r1, steps, out1, k1) = restore_one-item pre rest it r (keys_of its ++ later) h.0 k in
        let pre1 = pre ++ (hb ++ it.body) in
        let same_buf : buf ≡ pre1 ++ rest =
          ap (λ x. pre ++ x) (sym (append_assoc hb it.body rest))
          ∙ sym (append_assoc pre (hb ++ it.body) rest) in
        let same_off : length pre + header_size + length it.body ≡ length pre1 = omega (
          arith,
          length-append pre (hb ++ it.body),
          length-append hb it.body,
          length-header_bytes pad it.header padded h.0.header_fits,
        ) in
        let (r2, loops, out2, k2) = retrieve_loop-items its pre1 later r1 h.1 k1 in
        let loop : Bytes → ℕ → Outcome Retriever = (λ b off.
          retrieve_loop ciphers lib_decompress t delta_decode batch unread step (length its) b off
            r1) in
        (
          r2,
          ap
                (λ o. o >>= λ p.
                  retrieve_loop ciphers lib_decompress t delta_decode batch unread step (length its)
                    buf p.1 p.0)
                steps
              ∙ ap₂ loop same_buf same_off
              ∙ loops,
          out2
              ∙ ap (λ mq. mq ++ chunks_of its) out1
              ∙ append_assoc r.output_mq (it.chunk ∷ []) (chunks_of its),
          k2,
        )
