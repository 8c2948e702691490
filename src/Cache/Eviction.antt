-- ===== src/Cache/Eviction.antt =====
-- Evicting the features of a client: it cannot fail on features that the index holds, and it keeps
-- the invariant.
use edrstore.Prelude.{
  ℕ, ◌-◌, List, [], ◌∷◌, Option, none, some, Bytes, bytes_discrete, ℕ_discrete, find, assign, erase,
  ◌≡◌, ◌≢◌, refl, arith, All, ok, Option-cases, inl, inr, find-assign_self, find-assign_ne,
  assign-IsMap, erase-IsMap, find-erase_ne, ◌∙◌, if◌then◌else◌, ltb,
}
use edrstore.Layout.{WrappedChunk}
use edrstore.Reduction.Similar.{FeatureIndex}
use edrstore.Cache.{
  KvStore, CntEntry, InformCache, evict_feature, evict_features, evict_cache_chunk, features_of,
}
use edrstore.Cache.Refs.{refs, one_of_self, one_of_ne, refs_pos, refs-erase}
use edrstore.Cache.Counting.{Backs, IsCounted}

-- Features that are pairwise different and that the index holds.
abbrev pub ArePresent : List ℕ → FeatureIndex → Type 0
ArePresent [] db = Unit
ArePresent (f ∷ fs) db =
    ((v : Bytes) × (find ℕ_discrete f db ≡ some v)) × All (λ g. g ≢ f) fs × ArePresent fs db

unfoldable pub erase_all : List ℕ → FeatureIndex → FeatureIndex
erase_all [] db = db
erase_all (f ∷ fs) db = erase_all fs (erase ℕ_discrete f db)

ArePresent-erase :
    (f : ℕ) (fs : List ℕ) (db : FeatureIndex)
    → All (λ g. g ≢ f) fs
    → ArePresent fs db
    → ArePresent fs (erase ℕ_discrete f db)
ArePresent-erase f [] db h k = tt
ArePresent-erase f (g ∷ fs) db h k =
    ((k.0.0, find-erase_ne ℕ_discrete f g db h.0 ∙ k.0.1), k.1, ArePresent-erase f fs db h.1 k.2)

module _ {S : Type 0} (kv : KvStore S) where
  abbrev lowered : CntEntry → CntEntry
  lowered e = record e { cnt = if ltb 0 e.cnt then e.cnt - 1 else 0 }

  module _ (c : InformCache S) (h : IsCounted kv c) (f : ℕ) (v : Bytes) (e : CntEntry)
      (leads : find ℕ_discrete f c.local_feature_2_fp_db ≡ some v)
      (held : find bytes_discrete v c.base_2_cnt_idx ≡ some e) where
    abbrev after : InformCache S
    after = record c {
      base_2_cnt_idx = assign bytes_discrete v (lowered e) c.base_2_cnt_idx;
      local_feature_2_fp_db = erase ℕ_discrete f c.local_feature_2_fp_db;
    }

    lowered_count : (lowered e).cnt ≡ refs v (erase ℕ_discrete f c.local_feature_2_fp_db)
    lowered_count =
        let count : e.cnt ≡ refs v c.local_feature_2_fp_db = rw held at (h.counted v) in
        ground (arith, refs-erase v f v c.local_feature_2_fp_db h.features_map leads, one_of_self v)

    refs_other :
        (b : Bytes)
        → b ≢ v
        → refs b (erase ℕ_discrete f c.local_feature_2_fp_db) ≡ refs b c.local_feature_2_fp_db
    refs_other b n =
        omega
          (arith, refs-erase b f v c.local_feature_2_fp_db h.features_map leads, one_of_ne v b n)

    evict_feature-IsCounted : IsCounted kv after
    evict_feature-IsCounted = record {
      features_map = erase-IsMap ℕ_discrete f c.local_feature_2_fp_db h.features_map;
      bases_map = assign-IsMap bytes_discrete v (lowered e) c.base_2_cnt_idx h.bases_map;
      counted = λ b. elim (bytes_discrete b v) [
        | yes p ↦
            rw (p, find-assign_self bytes_discrete v (lowered e) c.base_2_cnt_idx) lowered_count
        | no n ↦
            rw (find-assign_ne bytes_discrete v b (lowered e) c.base_2_cnt_idx n, refs_other b n)
              (h.counted b)
      ];
      backed = λ b. elim (bytes_discrete b v) [
        | yes p ↦
            rw (p, find-assign_self bytes_discrete v (lowered e) c.base_2_cnt_idx)
              (kept (kv.get c.base_2_data_db v) (rw held at (h.backed v)))
        | no n ↦ rw (find-assign_ne bytes_discrete v b (lowered e) c.base_2_cnt_idx n) (h.backed b)
      ];
    }
      where
        kept : (o : Option Bytes) → Backs (some e) o → Backs (some (lowered e)) o
        kept none k = k
        kept (some chunk) k = k

    evict_feature_lem : evict_feature c f ≡ ok after
    unfolding evict_feature
    evict_feature_lem = rw (leads, evict_feature, held)

  evict_feature_step :
      (c : InformCache S) (f : ℕ) (v : Bytes)
      → IsCounted kv c
      → find ℕ_discrete f c.local_feature_2_fp_db ≡ some v
      → (c' : InformCache S) × (evict_feature c f ≡ ok c')
        × IsCounted kv c'
        × (c'.local_feature_2_fp_db ≡ erase ℕ_discrete f c.local_feature_2_fp_db)
        × (c'.base_2_data_db ≡ c.base_2_data_db)
  evict_feature_step c f v h leads = elim (Option-cases (find bytes_discrete v c.base_2_cnt_idx)) [
    | inl lost ↦
        let none_left : refs v c.local_feature_2_fp_db ≡ 0 = rw lost at (h.counted v) in
        absurd (omega (arith, refs_pos f v c.local_feature_2_fp_db leads))
    | inr (e, held) ↦ (
      after c h f v e leads held,
      evict_feature_lem c h f v e leads held,
      evict_feature-IsCounted c h f v e leads held,
      refl,
      refl,
    )
  ]

  evict_features-IsCounted :
      (fs : List ℕ) (c : InformCache S)
      → IsCounted kv c
      → ArePresent fs c.local_feature_2_fp_db
      → (c' : InformCache S) × (evict_features fs c ≡ ok c')
        × IsCounted kv c'
        × (c'.local_feature_2_fp_db ≡ erase_all fs c.local_feature_2_fp_db)
        × (c'.base_2_data_db ≡ c.base_2_data_db)
  unfolding evict_features erase_all
  evict_features-IsCounted [] c h k = (c, refl, h, refl, refl)
  evict_features-IsCounted (f ∷ fs) c h k =
      let (c1, runs, counted, erased, same) = evict_feature_step c f k.0.0 h k.0.1 in
      let (c2, runs', counted', erased', same') =
        evict_features-IsCounted fs c1 counted
          (rw erased (ArePresent-erase f fs c.local_feature_2_fp_db k.1 k.2)) in
      (c2, rw runs runs', counted', rw erased at erased', same' ∙ same)

  -- `EvictCacheChunk` does not end the process if the features that the chunk carries are different
  -- from one another and lead to bases. The invariant is kept, exactly these features are erased,
  -- and no chunk data are touched.
  pub evict_cache_chunk-IsCounted :
      (c : InformCache S) (w : WrappedChunk)
      → IsCounted kv c
      → ArePresent (features_of w.info.size 0 w.buf) c.local_feature_2_fp_db
      → (c' : InformCache S) × (evict_cache_chunk c w ≡ ok c')
        × IsCounted kv c'
        × (c'.local_feature_2_fp_db
            ≡ erase_all (features_of w.info.size 0 w.buf) c.local_feature_2_fp_db)
        × (c'.base_2_data_db ≡ c.base_2_data_db)
  unfolding evict_cache_chunk
  evict_cache_chunk-IsCounted c w h k =
      evict_features-IsCounted (features_of w.info.size 0 w.buf) c h k
