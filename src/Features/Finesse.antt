-- ===== src/Features/Finesse.antt =====
-- EDRStore/src/chunker/finesse_util.cc: the super-features of a chunk, from the largest fingerprints of
-- its parts. `hash` is XXHash64 of a library. Both loops that read a context reset it first. A vector
-- that is read outside of its range is `none`.
use edrstore.Prelude.{
  ℕ, zero, suc, ◌+◌, ◌*◌, ◌/◌, ◌%◌, List, [], ◌∷◌, Option, none, some, Bytes, get_elem?, length,
  take, drop, slice, map, ltb, ◌==◌, if◌then◌else◌,
}
use edrstore.Layout.{feature_per_chunk, super_feature_per_chunk, feature_per_super_feature}
use edrstore.Upload.Wire.{features_bytes}
use edrstore.Features.Rabin.{RabinFpUtil, RabinCtx, reset_ctx, slide_one_byte}

-- The loop over the bytes of a part: the largest fingerprint so far.
unfoldable pub max_loop : RabinFpUtil → Bytes → RabinCtx → ℕ → Option ℕ
unfolding slide_one_byte
max_loop util [] ctx max_rabin_fp = some max_rabin_fp
max_loop util (b ∷ bs) ctx max_rabin_fp = elim (slide_one_byte util b ctx) [
  | some ctx' ↦ max_loop util bs ctx' (if ltb max_rabin_fp ctx'.fp then ctx'.fp else max_rabin_fp)
  | none ↦ none
]

-- The loop over the parts, `n` of them from the part `i` on.
unfoldable pub part_loop : RabinFpUtil → Bytes → ℕ → ℕ → Option (List ℕ)
unfolding max_loop reset_ctx
part_loop util chunk zero i = some []
part_loop util chunk (suc n) i =
    let sub_chunk_size = length chunk / feature_per_chunk in
    let last_chunk_size = sub_chunk_size + length chunk % feature_per_chunk in
    let running_limit = if i + 1 == feature_per_chunk then last_chunk_size else sub_chunk_size in
    elim (max_loop util (slice (i * sub_chunk_size) running_limit chunk) (reset_ctx util) 0) [
      | some m ↦ elim (part_loop util chunk n (i + 1)) [ some ms ↦ some (m ∷ ms) | none ↦ none ]
      | none ↦ none
    ]

-- `group_features`, filled in order, `n` groups.
unfoldable pub groups : ℕ → List ℕ → List (List ℕ)
groups zero ms = []
groups (suc n) ms = take super_feature_per_chunk ms ∷ groups n (drop super_feature_per_chunk ms)

-- `sort` with `greater`.
unfoldable pub insert_desc : ℕ → List ℕ → List ℕ
insert_desc a [] = a ∷ []
insert_desc a (b ∷ l) = let rest = insert_desc a l in if ltb a b then b ∷ rest else a ∷ b ∷ l

unfoldable pub sort_desc : List ℕ → List ℕ
unfolding insert_desc
sort_desc [] = []
sort_desc (a ∷ l) = insert_desc a (sort_desc l)

-- `super_features[i]`: an element of each group.
unfoldable pub column : ℕ → List (List ℕ) → Option (List ℕ)
column i [] = some []
column i (g ∷ gs) = elim (get_elem? g i) [
  | some m ↦ elim (column i gs) [ some ms ↦ some (m ∷ ms) | none ↦ none ]
  | none ↦ none
]

module _ (hash : Bytes → ℕ) where
  -- The features from `i` on, `n` of them.
  unfoldable pub hash_columns : ℕ → ℕ → List (List ℕ) → Option (List ℕ)
  unfolding column
  hash_columns zero i gs = some []
  hash_columns (suc n) i gs = elim (column i gs) [
    | some ms ↦ elim (hash_columns n (i + 1) gs) [
      | some fs ↦ some (hash (features_bytes ms) ∷ fs)
      | none ↦ none
    ]
    | none ↦ none
  ]

  -- `ExtractFeature` from the largest fingerprints on.
  unfoldable pub super_features : List ℕ → Option (List ℕ)
  unfolding hash_columns groups sort_desc
  super_features ms =
      hash_columns super_feature_per_chunk 0 (map sort_desc (groups feature_per_super_feature ms))

  -- `ExtractFeature`
  unfoldable pub extract_feature : RabinFpUtil → Bytes → Option (List ℕ)
  unfolding part_loop super_features
  extract_feature util chunk = elim (part_loop util chunk feature_per_chunk 0) [
    | some ms ↦ super_features ms
    | none ↦ none
  ]
