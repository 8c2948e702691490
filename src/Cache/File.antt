-- ===== src/Cache/File.antt =====
-- EDRStore/src/server/inform_cache.cc: the two files that keep the counts and the feature index of
-- a client's cache between sessions. A file that does not exist is `none`.
use edrstore.Prelude.{
  ℕ, ◌==◌, List, [], ◌++◌, Option, none, some, true, false, Bytes, bytes_discrete, ℕ_discrete,
  length, take, replicate, le_bytes, Ifstream, open_stream, read, read_int, load_map, store_entries,
}
use edrstore.Layout.{chunk_hash_size}
use edrstore.Cache.{CntEntry, InformCache}
use edrstore.Reduction.Similar.{FeatureIndex}

unfoldable pub cnt_bytes : Bytes × CntEntry → Bytes
cnt_bytes (base_fp, e) =
    take chunk_hash_size base_fp ++ (le_bytes 4 e.cnt ++ le_bytes 4 e.chunk_size)

unfoldable pub idx_bytes : ℕ × Bytes → Bytes
idx_bytes (feature, base_fp) = le_bytes 8 feature ++ take chunk_hash_size base_fp

unfoldable pub read_cnt : Bytes × CntEntry → Ifstream → (Bytes × CntEntry) × Ifstream
unfolding read read_int
read_cnt (base_fp, e) s =
    let (fp, s1) = read base_fp s in
    let (cnt, s2) = read_int 4 e.cnt s1 in
    let (chunk_size, s3) = read_int 4 e.chunk_size s2 in
    ((fp, record { cnt = cnt; chunk_size = chunk_size }), s3)

unfoldable pub read_idx : ℕ × Bytes → Ifstream → (ℕ × Bytes) × Ifstream
unfolding read read_int
read_idx (feature, base_fp) s =
    let (f, s1) = read_int 8 feature s in let (fp, s2) = read base_fp s1 in ((f, fp), s2)

-- The files `_cnt` and `_idx` of the client.
pub record CacheFiles : Type 0 where
  pub cnt_idx : Option Bytes
  pub feature_idx : Option Bytes

-- `StoreCntIdx`
unfoldable pub store_cnt_idx : {S : Type 0} → InformCache S → CacheFiles
unfolding store_entries cnt_bytes idx_bytes
store_cnt_idx c = record {
  cnt_idx = some (le_bytes 8 (length c.base_2_cnt_idx) ++ store_entries cnt_bytes c.base_2_cnt_idx);
  feature_idx = some (
      le_bytes 8 (length c.local_feature_2_fp_db)
      ++ store_entries idx_bytes c.local_feature_2_fp_db);
}

-- The string that a fingerprint is read into.
abbrev pub blank_fp : Bytes
blank_fp = replicate chunk_hash_size 0

-- What the local variables `cnt`, `chunk_size` and `feature` hold before they are read.
pub record Uninit : Type 0 where
  pub entry : CntEntry
  pub feature : ℕ

-- The half of `LoadCntIdx` that reads the feature index.
unfoldable pub load_features : Uninit → Option Bytes → FeatureIndex
unfolding read_int load_map read_idx
load_features u none = []
load_features u (some file) = elim (length file == 0) [
  | true ↦ []
  | false ↦ load_map ℕ_discrete read_idx (u.feature, blank_fp) (read_int 8 0 (open_stream file))
]

-- The half that reads the counts, from the number of items on. Without counts the function returns
-- before it reads the features.
unfoldable pub load_counts :
    Uninit → Option Bytes → ℕ × Ifstream → List (Bytes × CntEntry) × FeatureIndex
unfolding load_map read_cnt load_features
load_counts u features (idx_item_num, s) = elim (idx_item_num == 0) [
  | true ↦ ([], [])
  | false ↦ (
    load_map bytes_discrete read_cnt (blank_fp, u.entry) (idx_item_num, s),
    load_features u features,
  )
]

-- `LoadCntIdx`, for a cache that is new.
unfoldable pub load_cnt_idx : Uninit → CacheFiles → List (Bytes × CntEntry) × FeatureIndex
unfolding load_counts load_features read_int
load_cnt_idx u files = elim files.cnt_idx [
  | none ↦ ([], load_features u files.feature_idx)
  | some file ↦ elim (length file == 0) [
    | true ↦ ([], [])
    | false ↦ load_counts u files.feature_idx (read_int 8 0 (open_stream file))
  ]
]
