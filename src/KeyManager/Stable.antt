-- ===== src/KeyManager/Stable.antt =====
-- A seed that was given for features is given for them ever after.
use edrstore.Prelude.{
  ℕ, suc, ◌+◌, ◌<◌, ◌^◌, List, [], ◌∷◌, ◌++◌, none, some, Bytes, ℕ_discrete, find, length, take,
  take_of_length-le, u64, Outcome, ok, ◌>>=◌, ◌≡◌, ◌≢◌, refl, ap, ◌∙◌, arith, All, inl, inr, ◌⊎◌,
  All-map, subst,
}
use edrstore.Upload.Wire.{features_bytes}
use edrstore.Layout.{ChunkStatus, ChunkInfo}
use edrstore.Reduction.Similar.{FeatureIndex, update_feature_index, find_base_chunk}
use edrstore.Reduction.Similar.Counts.{count, matches}
use edrstore.Reduction.Similar.Choice.{find_base_chunk-IsChosen}
use edrstore.Reduction.Similar.Overloads.{find_base_chunk_db_lem}
use edrstore.KeyManager.{BasicKm, global_secret, seed_as, gen_seed, gen_seeds}
use edrstore.KeyManager.Index.{
  seed_of, Extends, Extends-trans, matches-nil, nil-matches, update_feature_index-find,
  update_feature_index-All, matches-unanimous, matches-unanimous-cons,
}

-- The request for features that all lead to one seed is answered with it, as similar.
gen_seed-unanimous :
    (hash : Bytes → Bytes) (f : ℕ) (fs : List ℕ) (v : Bytes) (info : ChunkInfo) (km : BasicKm)
    → length (f ∷ fs) < 2 ^ 32
    → length v ≡ 32
    → All (λ g. find ℕ_discrete g km.feature_2_key_index ≡ some v) (f ∷ fs)
    → (info' : ChunkInfo) × (gen_seed hash (f ∷ fs) info km
        ≡ ok (
          v,
          info',
          record km { total_similar_chunk_num = u64 (km.total_similar_chunk_num + 1) },
        ))
unfolding gen_seed seed_as
gen_seed-unanimous hash f fs v info km small size lead =
    let db = km.feature_2_key_index in
    let asked : ChunkInfo = record info { features = f ∷ fs } in
    elim (find_base_chunk-IsChosen (seed_of db) asked v small) [
      | inl (empty, _) ↦ absurd (matches-unanimous-cons f fs v db lead.0 empty)
      | inr ((pos, _, _), answers) ↦
          let r = find_base_chunk (seed_of db) asked in
          let base : r.addr.base_fp ≡ v = matches-unanimous (f ∷ fs) v r.addr.base_fp db lead pos in
          (
            r,
            ap (λ i. seed_as hash i.stat i km >>= λ t. ok (t.0, i, t.1))
                  (find_base_chunk_db_lem db asked)
                ∙ ap (λ stat. seed_as hash stat r km >>= λ t. ok (t.0, r, t.1))
                    (ap (λ i. i.stat) answers)
                ∙ ap
                    (λ b. ok (
                      b,
                      r,
                      record km { total_similar_chunk_num = u64 (km.total_similar_chunk_num + 1) },
                    ))
                    (ap (take 32) base ∙ take_of_length-le 32 v (omega arith)),
          )
    ]

-- A request is answered, with the index as it was, or with a new seed for features that led nowhere.
pub gen_seed-answers :
    (hash : Bytes → Bytes) (fs : List ℕ) (info : ChunkInfo) (km : BasicKm)
    → length fs < 2 ^ 32
    → (r : Bytes × ChunkInfo × BasicKm) × (gen_seed hash fs info km ≡ ok r)
      × (((b : Bytes) × (r.0 ≡ take 32 b)
            × (0 < count b (matches (seed_of km.feature_2_key_index) fs))
            × (r.2.feature_2_key_index ≡ km.feature_2_key_index))
          ⊎ (All (λ f. find ℕ_discrete f km.feature_2_key_index ≡ none) fs
              × (r.0 ≡ hash (global_secret ++ features_bytes fs))
              × (r.2.feature_2_key_index ≡ update_feature_index km.feature_2_key_index fs r.0)))
unfolding gen_seed seed_as count
gen_seed-answers hash fs info km small =
    let db = km.feature_2_key_index in
    let asked : ChunkInfo = record info { features = fs } in
    let r = find_base_chunk (seed_of db) asked in
    let overload : ChunkInfo → Outcome (Bytes × ChunkInfo × BasicKm) =
      (λ i. seed_as hash i.stat i km >>= λ t. ok (t.0, i, t.1)) in
    let decide : ChunkStatus → Outcome (Bytes × ChunkInfo × BasicKm) =
      (λ stat. seed_as hash stat r km >>= λ t. ok (t.0, r, t.1)) in
    elim (find_base_chunk-IsChosen (seed_of db) asked [] small) [
      | inl (empty, answers) ↦ (
        (
          hash (global_secret ++ features_bytes fs),
          r,
          record km {
            feature_2_key_index =
                update_feature_index db fs (hash (global_secret ++ features_bytes fs));
          },
        ),
        ap overload (find_base_chunk_db_lem db asked)
            ∙ ap decide (ap (λ i. i.stat) answers)
            ∙ ap
                (λ gs. ok (
                  hash (global_secret ++ features_bytes gs),
                  r,
                  record km {
                    feature_2_key_index =
                        update_feature_index db gs (hash (global_secret ++ features_bytes gs));
                  },
                ))
                (ap (λ i. i.features) answers),
        inr (matches-nil db fs empty, refl, refl),
      )
      | inr ((pos, _, _), answers) ↦ (
        (
          take 32 r.addr.base_fp,
          r,
          record km { total_similar_chunk_num = u64 (km.total_similar_chunk_num + 1) },
        ),
        ap overload (find_base_chunk_db_lem db asked) ∙ ap decide (ap (λ i. i.stat) answers),
        inl (r.addr.base_fp, refl, pos, refl),
      )
    ]

-- No request takes a seed from a feature.
gen_seed-Extends :
    (hash : Bytes → Bytes) (fs : List ℕ) (info : ChunkInfo) (km : BasicKm)
    → length fs < 2 ^ 32
    → (r : Bytes × ChunkInfo × BasicKm) × (gen_seed hash fs info km ≡ ok r)
      × Extends km.feature_2_key_index r.2.feature_2_key_index
gen_seed-Extends hash fs info km small =
    let (r, answers, how) = gen_seed-answers hash fs info km small in
    (
      r,
      answers,
      elim how [
        | inl (_, _, _, same) ↦ record { keeps = λ f v e. ap (λ db. find ℕ_discrete f db) same ∙ e }
        | inr (absent, _, grown) ↦ record {
          keeps = λ f v e.
              ap (λ db. find ℕ_discrete f db) grown
              ∙ update_feature_index-find fs r.0 f v km.feature_2_key_index e
                  (absent_ne fs f v km.feature_2_key_index absent e);
        }
      ],
    )
  where
    absent_ne :
        (gs : List ℕ) (f : ℕ) (v : Bytes) (db : FeatureIndex)
        → All (λ g. find ℕ_discrete g db ≡ none) gs
        → find ℕ_discrete f db ≡ some v
        → All (λ g. g ≢ f) gs
    absent_ne [] f v db h e = tt
    absent_ne (g ∷ gs) f v db h e = (
      λ q.
          let h' : find ℕ_discrete f db ≡ none = subst (λ i. find ℕ_discrete i db ≡ none) q h.0 in
          ground arith,
      absent_ne gs f v db h.1 e,
    )

-- The key manager answers every batch of requests with one seed for each, and no feature loses the
-- seed that it leads to, if no request has 2^32 features.
pub gen_seeds-Extends :
    (hash : Bytes → Bytes) (reqs : List (List ℕ)) (info : ChunkInfo) (km : BasicKm)
    → All (λ fs. length fs < 2 ^ 32) reqs
    → (r : List Bytes × BasicKm) × (gen_seeds hash reqs info km ≡ ok r)
      × (length r.0 ≡ length reqs)
      × Extends km.feature_2_key_index r.1.feature_2_key_index
unfolding gen_seeds
gen_seeds-Extends hash [] info km h = (([], km), refl, refl, record { keeps = λ f v e. e })
gen_seeds-Extends hash (fs ∷ reqs) info km h =
    let (r, answers, ext) = gen_seed-Extends hash fs info km h.0 in
    let (s, more, len, ext') = gen_seeds-Extends hash reqs r.1 r.2 h.1 in
    (
      (r.0 ∷ s.0, s.1),
      ap (λ o. o >>= λ t. gen_seeds hash reqs t.1 t.2 >>= λ rest. ok (t.0 ∷ rest.0, rest.1)) answers
          ∙ ap (λ o. o >>= λ rest. ok (r.0 ∷ rest.0, rest.1)) more,
      ap suc len,
      Extends-trans km.feature_2_key_index r.2.feature_2_key_index s.1.feature_2_key_index ext ext',
    )

-- Features that lead nowhere yet get a seed of their own, the hash of the secret and the features;
-- and whatever is asked in between, the same features are given the same seed again, as a similar
-- chunk. The hash has 32 bytes, and no request has 2^32 features.
pub gen_seed-gen_seed :
    (hash : Bytes → Bytes) (f : ℕ) (fs : List ℕ) (reqs : List (List ℕ))
    (info info1 info2 : ChunkInfo) (km : BasicKm)
    → ((x : Bytes) → length (hash x) ≡ 32)
    → length (f ∷ fs) < 2 ^ 32
    → All (λ gs. length gs < 2 ^ 32) reqs
    → All (λ g. find ℕ_discrete g km.feature_2_key_index ≡ none) (f ∷ fs)
    → let seed = hash (global_secret ++ features_bytes (f ∷ fs)) in
      (first : ChunkInfo × BasicKm) × (between : List Bytes × BasicKm) × (info' : ChunkInfo)
      × (gen_seed hash (f ∷ fs) info km ≡ ok (seed, first.0, first.1))
      × (gen_seeds hash reqs info1 first.1 ≡ ok between)
      × (gen_seed hash (f ∷ fs) info2 between.1
          ≡ ok (
            seed,
            info',
            record (between.1) {
              total_similar_chunk_num = u64 (between.1.total_similar_chunk_num + 1);
            },
          ))
unfolding count
gen_seed-gen_seed hash f fs reqs info info1 info2 km sized small smalls absent =
    let seed = hash (global_secret ++ features_bytes (f ∷ fs)) in
    let (r, answers, how) = gen_seed-answers hash (f ∷ fs) info km small in
    let (s, more, _, ext) = gen_seeds-Extends hash reqs info1 r.2 smalls in
    elim how [
      | inl (b, _, pos, _) ↦
          let no_match = nil-matches km.feature_2_key_index (f ∷ fs) absent in
          absurd (omega (arith, pos, ap (λ m. count b m) no_match))
      | inr (_, is_seed, grown) ↦
          let lead =
            All-map
              (λ g e. ext.keeps g seed (
                ap (λ db. find ℕ_discrete g db)
                  (grown ∙ ap (update_feature_index km.feature_2_key_index (f ∷ fs)) is_seed)
                ∙ e))
              (f ∷ fs) (update_feature_index-All (f ∷ fs) seed km.feature_2_key_index) in
          let (info', again) =
            gen_seed-unanimous hash f fs seed info2 s.1 small
              (sized (global_secret ++ features_bytes (f ∷ fs))) lead in
          ((r.1, r.2), s, info', answers ∙ ap (λ b. ok (b, r.1, r.2)) is_seed, more, again)
    ]
