-- ===== src/Cache/Persistence.antt =====
-- What a client's cache is after its files were stored and loaded.
use edrstore.Prelude.{
  ℕ, ◌<◌, ◌^◌, ◌==◌, List, [], ◌∷◌, ◌++◌, some, Bytes, ℕ_discrete, bytes_discrete, find, All,
  length, take, take_of_length-le, le_bytes, Ifstream, open_stream, read, read-append, read_int,
  read_int-append, load_map, store_entries, load_map-store_entries, assign_all, find-assign_all,
  ◌≡◌, refl, sym, ap, ◌∙◌, arith, length-append, length-le_bytes, not_zero-elim, length-replicate,
  suc, if_pos, Bool-cases, inl, inr, length-zero, subst, ap₂, le_value, drop,
}
use mathlib.Core.List.{append_assoc}
use edrstore.Reduction.Similar.{FeatureIndex}
use edrstore.Cache.{KvStore, CntEntry, InformCache}
use edrstore.Cache.Counting.{IsCounted, Counts}
use edrstore.Cache.Refs.{refs}
use edrstore.Cache.File.{
  cnt_bytes, idx_bytes, read_cnt, read_idx, store_cnt_idx, blank_fp, Uninit, load_features,
  load_counts, load_cnt_idx,
}

abbrev pub FitsCnt : Bytes × CntEntry → Type 0
FitsCnt (fp, e) = (length fp ≡ 32) × (e.cnt < 2 ^ 32) × (e.chunk_size < 2 ^ 32)

abbrev pub FitsIdx : ℕ × Bytes → Type 0
FitsIdx (feature, fp) = (feature < 2 ^ 64) × (length fp ≡ 32)

read_cnt-cnt_bytes :
    (e f : Bytes × CntEntry) (t : Bytes)
    → FitsCnt e
    → FitsCnt f
    → read_cnt e (open_stream (cnt_bytes f ++ t)) ≡ (f, open_stream t)
unfolding read_cnt cnt_bytes
read_cnt-cnt_bytes e (fp, f) t fits_e fits =
    let after_fp : Bytes × Ifstream → (Bytes × CntEntry) × Ifstream = (λ s.
      let r = read_int 4 e.1.cnt s.1 in
      let q = read_int 4 e.1.chunk_size r.1 in
      ((s.0, record { cnt = r.0; chunk_size = q.0 }), q.1)) in
    let after_cnt : ℕ × Ifstream → (Bytes × CntEntry) × Ifstream = (λ s.
      let q = read_int 4 e.1.chunk_size s.1 in
      ((fp, record { cnt = s.0; chunk_size = q.0 }), q.1)) in
    let sizes = le_bytes 4 f.cnt ++ le_bytes 4 f.chunk_size in
    ap (λ key. read_cnt e (open_stream (key ++ sizes ++ t)))
      (take_of_length-le 32 fp (omega (arith, fits.0)))
    ∙ ap (λ file. read_cnt e (open_stream file))
        (append_assoc fp sizes t
          ∙ ap (λ r. fp ++ r) (append_assoc (le_bytes 4 f.cnt) (le_bytes 4 f.chunk_size) t))
    ∙ ap after_fp (
        read-append e.0 fp (le_bytes 4 f.cnt ++ (le_bytes 4 f.chunk_size ++ t))
          (omega (arith, fits.0, fits_e.0)))
    ∙ ap after_cnt
        (read_int-append 4 e.1.cnt f.cnt (le_bytes 4 f.chunk_size ++ t) (omega (arith, fits.1)))
    ∙ ap (λ s. ((fp, record { cnt = f.cnt; chunk_size = s.0 }), s.1))
        (read_int-append 4 e.1.chunk_size f.chunk_size t (omega (arith, fits.2)))

read_idx-idx_bytes :
    (e f : ℕ × Bytes) (t : Bytes)
    → FitsIdx e
    → FitsIdx f
    → read_idx e (open_stream (idx_bytes f ++ t)) ≡ (f, open_stream t)
unfolding read_idx idx_bytes
read_idx-idx_bytes e (feature, fp) t fits_e fits =
    ap (λ key. read_idx e (open_stream (le_bytes 8 feature ++ key ++ t)))
      (take_of_length-le 32 fp (omega (arith, fits.1)))
    ∙ ap (λ file. read_idx e (open_stream file)) (append_assoc (le_bytes 8 feature) fp t)
    ∙ ap (λ s. let r = read e.1 s.1 in ((s.0, r.0), r.1))
        (read_int-append 8 e.0 feature (fp ++ t) (omega (arith, fits.0)))
    ∙ ap (λ s. ((feature, s.0), s.1)) (read-append e.1 fp t (omega (arith, fits.1, fits_e.1)))

-- Fingerprints, features and numbers that their fields of the files can hold.
pub record FitsFiles (cnts : List (Bytes × CntEntry)) (db : FeatureIndex) : Type 0 where
  pub few_bases : length cnts < 2 ^ 64
  pub few_features : length db < 2 ^ 64
  pub bases : All FitsCnt cnts
  pub features : All FitsIdx db

abbrev pub FitsUninit : Uninit → Type 0
FitsUninit u = (u.entry.cnt < 2 ^ 32) × (u.entry.chunk_size < 2 ^ 32) × (u.feature < 2 ^ 64)

abbrev feature_file : FeatureIndex → Bytes
feature_file db = le_bytes 8 (length db) ++ store_entries idx_bytes db

load_features_lem :
    (u : Uninit) (db : FeatureIndex)
    → u.feature < 2 ^ 64
    → length db < 2 ^ 64
    → All FitsIdx db
    → load_features u (some (feature_file db)) ≡ assign_all ℕ_discrete db []
unfolding load_features
load_features_lem u db un few fits =
    let entries = store_entries idx_bytes db in
    not_zero-elim (length (feature_file db)) []
      (load_map ℕ_discrete read_idx (u.feature, blank_fp)
        (read_int 8 0 (open_stream (feature_file db))))
      (omega (arith, length-append (le_bytes 8 (length db)) entries, length-le_bytes 8 (length db)))
    ∙ ap (load_map ℕ_discrete read_idx (u.feature, blank_fp))
        (read_int-append 8 0 (length db) entries (omega (arith, few)))
    ∙ load_map-store_entries ℕ_discrete read_idx idx_bytes FitsIdx db (u.feature, blank_fp)
        read_idx-idx_bytes (un, length-replicate {A = ℕ} 32 0) fits

abbrev cnt_file : List (Bytes × CntEntry) → Bytes
cnt_file cnts = le_bytes 8 (length cnts) ++ store_entries cnt_bytes cnts

-- With at least one base, both indexes are loaded.
load_cnt_idx_lem :
    (u : Uninit) (cnts : List (Bytes × CntEntry)) (db : FeatureIndex)
    → FitsUninit u
    → 0 < length cnts
    → FitsFiles cnts db
    → load_cnt_idx u
        (record { cnt_idx = some (cnt_file cnts); feature_idx = some (feature_file db) })
      ≡ (assign_all bytes_discrete cnts [], assign_all ℕ_discrete db [])
unfolding load_cnt_idx load_counts
load_cnt_idx_lem u cnts db (cnt_u, size_u, feature_u) pos fits =
    let entries = store_entries cnt_bytes cnts in
    let features = some (feature_file db) in
    let loaded =
      load_map bytes_discrete read_cnt (blank_fp, u.entry) (length cnts, open_stream entries) in
    not_zero-elim (length (cnt_file cnts)) ([], [])
      (load_counts u features (read_int 8 0 (open_stream (cnt_file cnts))))
      (omega
        (arith, length-append (le_bytes 8 (length cnts)) entries, length-le_bytes 8 (length cnts)))
    ∙ ap (load_counts u features)
        (read_int-append 8 0 (length cnts) entries (omega (arith, fits.few_bases)))
    ∙ not_zero-elim (length cnts) ([], []) (loaded, load_features u features) pos
    ∙ ap (λ m. (m, load_features u features))
        (load_map-store_entries bytes_discrete read_cnt cnt_bytes FitsCnt cnts (blank_fp, u.entry)
          read_cnt-cnt_bytes (length-replicate {A = ℕ} 32 0, cnt_u, size_u) fits.bases)
    ∙ ap (λ m. (assign_all bytes_discrete cnts [], m))
        (load_features_lem u db feature_u fits.few_features fits.features)

-- Without a base there is no feature, in a cache whose counts are right.
no_features : (db : FeatureIndex) → ((b : Bytes) → refs b db ≡ 0) → db ≡ []
unfolding refs
no_features [] h = refl
no_features ((f, v) ∷ db) h =
    absurd (ground (arith, h v, if_pos (bytes_discrete v v) refl (suc (refs v db)) (refs v db)))

load_cnt_idx_nil :
    (u : Uninit)
    → load_cnt_idx u (record { cnt_idx = some (cnt_file []); feature_idx = some (feature_file []) })
      ≡ ([], [])
unfolding load_cnt_idx load_counts le_bytes store_entries le_value take drop
load_cnt_idx_nil u = refl

both :
    {S : Type 0} (kv : KvStore S) (u : Uninit) (c : InformCache S)
    → FitsUninit u
    → IsCounted kv c
    → FitsFiles c.base_2_cnt_idx c.local_feature_2_fp_db
    → load_cnt_idx u (store_cnt_idx c) ≡ (
      assign_all bytes_discrete c.base_2_cnt_idx [],
      assign_all ℕ_discrete c.local_feature_2_fp_db [],
    )
unfolding store_cnt_idx find assign_all
both kv u c fits_u counted fits = elim (Bool-cases (length c.base_2_cnt_idx == 0)) [
  | inr e ↦ load_cnt_idx_lem u c.base_2_cnt_idx c.local_feature_2_fp_db fits_u (ground arith) fits
  | inl e ↦
      let no_bases = length-zero c.base_2_cnt_idx (ground arith) in
      let none_left = no_features c.local_feature_2_fp_db (λ b.
        subst (λ idx. Counts (find bytes_discrete b idx) (refs b c.local_feature_2_fp_db)) no_bases
          (counted.counted b)) in
      ap₂
        (λ cnts db.
          load_cnt_idx u
            (record { cnt_idx = some (cnt_file cnts); feature_idx = some (feature_file db) }))
        no_bases none_left
      ∙ load_cnt_idx_nil u
      ∙ sym (
          ap₂ (λ cnts db. (assign_all bytes_discrete cnts [], assign_all ℕ_discrete db [])) no_bases
            none_left)
]

-- A cache that keeps the invariant of its counts, with fingerprints of 32 bytes and numbers that fit
-- the fields of the files, answers after a restart every lookup of a base and of a feature as it did
-- before.
pub load_cnt_idx-store_cnt_idx :
    {S : Type 0} (kv : KvStore S) (u : Uninit) (c : InformCache S)
    → FitsUninit u
    → IsCounted kv c
    → FitsFiles c.base_2_cnt_idx c.local_feature_2_fp_db
    → ((b : Bytes)
        → find bytes_discrete b (load_cnt_idx u (store_cnt_idx c)).0
          ≡ find bytes_discrete b c.base_2_cnt_idx)
      × ((f : ℕ)
          → find ℕ_discrete f (load_cnt_idx u (store_cnt_idx c)).1
            ≡ find ℕ_discrete f c.local_feature_2_fp_db)
load_cnt_idx-store_cnt_idx kv u c fits_u counted fits =
    let same = both kv u c fits_u counted fits in
    (
      λ b.
          ap (λ t. find bytes_discrete b t.0) same
          ∙ find-assign_all bytes_discrete b c.base_2_cnt_idx counted.bases_map,
      λ f.
          ap (λ t. find ℕ_discrete f t.1) same
          ∙ find-assign_all ℕ_discrete f c.local_feature_2_fp_db counted.features_map,
    )
