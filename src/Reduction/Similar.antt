-- ===== src/Reduction/Similar.antt =====
-- EDRStore/src/reduction/similar_policy.cc: the choice of a base chunk by shared features.
-- Both overloads of `FindBaseChunk` run the same loop over a lookup of one feature; that lookup is
-- `query` here, and the two instances are `find_base_chunk_db` and `find_base_chunk_map`.

pub mod Counts
pub mod Choice
pub mod Overloads
use edrstore.Prelude.{
  ℕ, ◌+◌, List, [], ◌∷◌, Option, none, some, Bool, true, false, Bytes, bytes_discrete, find, assign,
  ltb, if◌then◌else◌, ◌==◌, u32, ℕ_discrete,
}
use edrstore.Layout.{ChunkInfo, similar_chunk, non_similar_chunk}
use edrstore.Database

abbrev pub FeatureIndex : Type 0
FeatureIndex = List (ℕ × Bytes)

-- The local variables of the loop.
pub record Scan : Type 0 where
  pub feature_freq_map : List (Bytes × ℕ)
  pub is_similar : Bool
  pub is_first_match : Bool
  pub first_match_base_fp : Bytes

-- The frequency of one base goes up by one.
unfoldable pub bump_freq : Bytes → List (Bytes × ℕ) → List (Bytes × ℕ)
bump_freq base_fp freq_map = elim (find bytes_discrete base_fp freq_map) [
  | some n ↦ assign bytes_discrete base_fp (u32 (n + 1)) freq_map
  | none ↦ assign bytes_discrete base_fp 1 freq_map
]

-- A match: the first one is remembered, and its frequency goes up by one.
unfoldable pub count_match : Scan → Bytes → Scan
count_match s base_fp = record s {
  first_match_base_fp = if s.is_first_match then base_fp else s.first_match_base_fp;
  is_first_match = false;
  feature_freq_map = bump_freq base_fp s.feature_freq_map;
  is_similar = true;
}

module _ (query : ℕ → Option Bytes) where
  unfoldable pub scan_features : List ℕ → Scan → Scan
  scan_features [] s = s
  scan_features (f ∷ fs) s =
      scan_features fs (elim (query f) [ some base_fp ↦ count_match s base_fp | none ↦ s ])

-- `sort` with `CmpPair`: the most frequent first.
unfoldable pub insert_sorted : Bytes × ℕ → List (Bytes × ℕ) → List (Bytes × ℕ)
insert_sorted a [] = a ∷ []
insert_sorted a (b ∷ l) = if ltb a.1 b.1 then b ∷ insert_sorted a l else a ∷ b ∷ l

unfoldable pub sort_by_freq : List (Bytes × ℕ) → List (Bytes × ℕ)
sort_by_freq [] = []
sort_by_freq (a ∷ l) = insert_sorted a (sort_by_freq l)

-- The base that is taken: the most frequent match, or the first if none occurs twice.
unfoldable pub pick_base : List (Bytes × ℕ) → Bytes → Bytes
pick_base [] first = first
pick_base ((b, n) ∷ l) first = if n == 1 then first else b

abbrev pub scan_start : Bytes → Scan
scan_start garbage = record {
  feature_freq_map = [];
  is_similar = false;
  is_first_match = true;
  first_match_base_fp = garbage;
}

unfoldable pub find_base_chunk : (ℕ → Option Bytes) → ChunkInfo → ChunkInfo
find_base_chunk query info =
    let s = scan_features query info.features (scan_start []) in
    if s.is_similar
    then record info {
      addr = record (info.addr) {
        base_fp = pick_base (sort_by_freq s.feature_freq_map) s.first_match_base_fp;
      };
      stat = similar_chunk;
    }
    else record info { stat = non_similar_chunk }

-- The overload over a database. `QueryBuffer` on the feature's bytes leaves in `tmp_base_fp` what it has
-- found, or what was there.
abbrev pub assigned : Bytes → Option Bytes → Bytes
assigned tmp_base_fp value = elim value [ some base_fp ↦ base_fp | none ↦ tmp_base_fp ]

-- `feature_freq_map[base_fp]`, which is 0 for a new key.
abbrev pub freq_at : Bytes → List (Bytes × ℕ) → ℕ
freq_at base_fp freq_map = elim (find bytes_discrete base_fp freq_map) [ some n ↦ n | none ↦ 0 ]

abbrev pub is_found : Option ℕ → Bool
is_found (some _) = true
is_found none = false

unfoldable pub count_db_match : Scan → Bytes → Scan
count_db_match s tmp_base_fp =
    let freq_map = s.feature_freq_map in
    let freq =
      if is_found (find bytes_discrete tmp_base_fp freq_map)
      then u32 (freq_at tmp_base_fp freq_map + 1)
      else 1 in
    record {
      feature_freq_map = assign bytes_discrete tmp_base_fp freq freq_map;
      is_similar = true;
      is_first_match = false;
      first_match_base_fp = if s.is_first_match then tmp_base_fp else s.first_match_base_fp;
    }

-- The loop of this overload.
unfoldable pub scan_db : FeatureIndex → List ℕ → Bytes → Scan → Scan
unfolding count_db_match
scan_db feature_2_fp_db [] tmp_base_fp s = s
scan_db feature_2_fp_db (f ∷ fs) tmp_base_fp s =
    let answer = Database.query ℕ_discrete feature_2_fp_db f in
    let tmp = assigned tmp_base_fp answer.value in
    scan_db feature_2_fp_db fs tmp (if answer.ret then count_db_match s tmp else s)

unfoldable pub find_base_chunk_db : FeatureIndex → ChunkInfo → ChunkInfo
unfolding scan_db
find_base_chunk_db feature_2_fp_db info =
    let s = scan_db feature_2_fp_db info.features [] (scan_start []) in
    let similar = record info {
      addr = record (info.addr) {
        base_fp = pick_base (sort_by_freq s.feature_freq_map) s.first_match_base_fp;
      };
      stat = similar_chunk;
    } in
    if s.is_similar then similar else record info { stat = non_similar_chunk }

-- The overload over `unordered_map<uint64_t, string>`.
unfoldable pub find_base_chunk_map : FeatureIndex → ChunkInfo → ChunkInfo
unfolding find_base_chunk
find_base_chunk_map feature_2_fp_db = find_base_chunk (λ f. find ℕ_discrete f feature_2_fp_db)

-- `UpdateFeatureIndex`, both overloads: every feature of a chunk leads to its fingerprint.
unfoldable pub update_feature_index : FeatureIndex → List ℕ → Bytes → FeatureIndex
update_feature_index feature_2_fp_db [] base_fp = feature_2_fp_db
update_feature_index feature_2_fp_db (f ∷ fs) base_fp =
    update_feature_index (assign ℕ_discrete f base_fp feature_2_fp_db) fs base_fp
