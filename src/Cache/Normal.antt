-- ===== src/Cache/Normal.antt =====
-- `ProcessNormalChunk` (EDRStore/src/server/inform_cache.cc): the base that the feature index gives is
-- always in the store.
use edrstore.Prelude.{
  ℕ, ◌^◌, ◌<◌, ◌≡◌, ◌≢◌, ◌⊎◌, inl, inr, refl, ap, ◌∙◌, subst, List, [], ◌∷◌, Option, some, true,
  false, Bytes, bytes_discrete, ℕ_discrete, find, length, take, Outcome, ok, Option-cases, arith,
}
use edrstore.Layout.{WrappedChunk, cache_delta_chunk, non_similar_chunk}
use edrstore.Reduction.Similar.{find_base_chunk, find_base_chunk_map}
use edrstore.Reduction.Similar.Counts.{count, matches}
use edrstore.Reduction.Similar.Choice.{find_base_chunk-IsChosen}
use edrstore.Cache.{KvStore, InformCache, process_normal_chunk, process_as, delta_against}
use edrstore.Cache.Refs.{refs, refs_pos}
use edrstore.Cache.Counting.{Counts, Backs, IsCounted}

-- A base that is matched is one that some feature leads to.
match_of_count :
    (query : ℕ → Option Bytes) (b : Bytes) (fs : List ℕ)
    → 0 < count b (matches query fs)
    → (f : ℕ) × (query f ≡ some b)
unfolding count matches
match_of_count query b [] h = ground arith
match_of_count query b (f ∷ fs) h = elim (Option-cases (query f)) [
  | inl e ↦ match_of_count query b fs (rw (e, count, matches) at h)
  | inr (v, e) ↦ elim (bytes_discrete v b) [
    | yes p ↦ (f, e ∙ ap some p)
    | no n ↦ match_of_count query b fs (ground arith)
  ]
]

module _ {S : Type 0} (kv : KvStore S) where
  -- A base that a feature leads to has its data in the store.
  stored_base :
      (c : InformCache S) (b : Bytes)
      → IsCounted kv c
      → 0 < refs b c.local_feature_2_fp_db
      → (chunk : Bytes) × (kv.get c.base_2_data_db b ≡ some chunk)
  stored_base c b h pos = elim (Option-cases (find bytes_discrete b c.base_2_cnt_idx)) [
    | inl e ↦
        let z : refs b c.local_feature_2_fp_db ≡ 0 =
          subst (λ o. Counts o (refs b c.local_feature_2_fp_db)) e (h.counted b) in
        absurd (omega arith)
    | inr (v, e) ↦
        let backs = subst (λ o. Backs o (kv.get c.base_2_data_db b)) e (h.backed b) in
        elim (Option-cases (kv.get c.base_2_data_db b)) [
          | inl lost ↦ absurd (subst (λ o. Backs (some v) o) lost backs)
          | inr found ↦ found
        ]
  ]

  -- The answer to a chunk that shares a feature with the cache: a delta against a base of the cache.
  pub record IsDelta (delta_encode : Bytes → Bytes → Outcome Bytes) (c : InformCache S)
      (input output : WrappedChunk) : Type 0 where
    pub base : Bytes
    pub based : kv.get c.base_2_data_db output.info.addr.base_fp ≡ some base
    pub encoded : delta_encode base (take input.info.size input.buf) ≡ ok output.buf
    pub same_fp : output.info.fp ≡ input.info.fp
    pub size : output.info.size ≡ length output.buf
    pub stat : output.info.stat ≡ cache_delta_chunk

  module _ (delta_encode : Bytes → Bytes → Outcome Bytes)
      (encodes : (base x : Bytes) → (delta : Bytes) × (delta_encode base x ≡ ok delta)) where
    -- In a cache that keeps the invariant, and where the delta encoder does not fail, `ProcessNormalChunk` never ends the
    -- process for a missing base. It answers false exactly if no feature of the chunk leads to a base, and leaves
    -- the output chunk alone; otherwise the output is the delta of the chunk against a base of the
    -- cache, under the chunk's fingerprint.
    pub process_normal_chunk-IsDelta :
        (c : InformCache S) (input output : WrappedChunk)
        → IsCounted kv c
        → length input.info.features < 2 ^ 32
        → let found =
            matches (λ f. find ℕ_discrete f c.local_feature_2_fp_db) input.info.features in
          (input' : WrappedChunk) × (output' : WrappedChunk) × (((found ≡ [])
              × (process_normal_chunk kv delta_encode c input output ≡ ok (false, input', output)))
            ⊎ ((found ≢ [])
                × (process_normal_chunk kv delta_encode c input output ≡ ok (true, input', output'))
                × IsDelta delta_encode c input output'))
    unfolding process_normal_chunk process_as delta_against count find_base_chunk_map
    process_normal_chunk-IsDelta c input output h bound =
        let query : ℕ → Option Bytes = (λ f. find ℕ_discrete f c.local_feature_2_fp_db) in
        let r = find_base_chunk query input.info in
        elim (find_base_chunk-IsChosen query input.info [] bound) [
          | inl (none_found, e) ↦ (
            record input { info = record (input.info) { stat = non_similar_chunk } },
            output,
            inl (none_found, ap (λ i. process_as kv delta_encode i.stat c input i output) e),
          )
          | inr ((matched, _, _), e) ↦
              let (f, leads) = match_of_count query r.addr.base_fp input.info.features matched in
              let (base, based) =
                stored_base c r.addr.base_fp h
                  (refs_pos f r.addr.base_fp c.local_feature_2_fp_db leads) in
              let (delta, encoded) = encodes base (take input.info.size input.buf) in
              (
                record input { info = r },
                record {
                  info = record (output.info) {
                    size = length delta;
                    addr = record (output.info.addr) { base_fp = r.addr.base_fp };
                    fp = r.fp;
                    stat = cache_delta_chunk;
                  };
                  buf = delta;
                },
                inr (
                  (λ z.
                      let none_counted : 0 < count r.addr.base_fp [] =
                        subst (λ l. 0 < count r.addr.base_fp l) z matched in
                      omega arith),
                  ap (λ t. process_as kv delta_encode t c input r output) (ap (λ i. i.stat) e)
                      ∙ ap (λ o. delta_against kv delta_encode o input r output) based
                      ∙ rw (encoded) refl,
                  record {
                    base = base;
                    based = based;
                    encoded = encoded;
                    same_fp = ap (λ i. i.fp) e;
                    size = refl;
                    stat = refl;
                  },
                ),
              )
        ]
