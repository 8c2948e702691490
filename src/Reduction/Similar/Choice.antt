-- ===== src/Reduction/Similar/Choice.antt =====
-- The base chunk that is chosen is a most frequent one, and the first match where none repeats.
use edrstore.Prelude.{
  ℕ, ◌≤◌, ◌<◌, ◌^◌, List, [], ◌∷◌, Option, some, Bytes, bytes_discrete, find, ◌≡◌, refl, arith,
  length, All, All-entries, find-All, ltb, ◌⊎◌, inl, inr, Bool-cases, Option-cases, ◌==◌,
}
use edrstore.Layout.{ChunkInfo, similar_chunk, non_similar_chunk}
use edrstore.Reduction.Similar.{
  Scan, scan_features, scan_start, insert_sorted, sort_by_freq, pick_base, find_base_chunk,
}
use edrstore.Reduction.Similar.Counts.{
  count, head_or, matches, IsScanOf, scan_features-IsScanOf, scan_start-IsScanOf,
}

All-insert_sorted :
    (P : Bytes × ℕ → Type 0) (a : Bytes × ℕ) (l : List (Bytes × ℕ))
    → P a
    → All P l
    → All P (insert_sorted a l)
unfolding insert_sorted
All-insert_sorted P a [] h k = (h, tt)
All-insert_sorted P a (b ∷ l) h k = elim (Bool-cases (ltb a.1 b.1)) [
  | inl later ↦ rw (later, insert_sorted) (k.0, All-insert_sorted P a l h k.1)
  | inr here ↦ rw (here, insert_sorted) (h, (k.0, k.1))
]

All-of_insert_sorted :
    (P : Bytes × ℕ → Type 0) (a : Bytes × ℕ) (l : List (Bytes × ℕ))
    → All P (insert_sorted a l)
    → P a × All P l
unfolding insert_sorted
All-of_insert_sorted P a [] h = h
All-of_insert_sorted P a (b ∷ l) h = elim (Bool-cases (ltb a.1 b.1)) [
  | inl later ↦
      let k : All P (b ∷ insert_sorted a l) = rw (later, insert_sorted) at h in
      let r = All-of_insert_sorted P a l k.1 in (r.0, (k.0, r.1))
  | inr here ↦ let k : All P (a ∷ b ∷ l) = rw (here, insert_sorted) at h in (k.0, (k.1.0, k.1.1))
]

All-sort_by_freq :
    (P : Bytes × ℕ → Type 0) (l : List (Bytes × ℕ)) → All P l → All P (sort_by_freq l)
unfolding sort_by_freq
All-sort_by_freq P [] h = tt
All-sort_by_freq P (a ∷ l) h = All-insert_sorted P a (sort_by_freq l) h.0 (All-sort_by_freq P l h.1)

All-of_sort_by_freq :
    (P : Bytes × ℕ → Type 0) (l : List (Bytes × ℕ)) → All P (sort_by_freq l) → All P l
unfolding sort_by_freq
All-of_sort_by_freq P [] h = tt
All-of_sort_by_freq P (a ∷ l) h =
    let r = All-of_insert_sorted P a (sort_by_freq l) h in (r.0, All-of_sort_by_freq P l r.1)

-- The first entry's frequency is at least that of every entry.
abbrev HeadIsTop : List (Bytes × ℕ) → Type 0
HeadIsTop [] = Unit
HeadIsTop (h ∷ t) = All (λ e. e.1 ≤ h.1) (h ∷ t)

All-le_trans :
    (n m : ℕ) (l : List (Bytes × ℕ)) → n ≤ m → All (λ e. e.1 ≤ n) l → All (λ e. e.1 ≤ m) l
All-le_trans n m [] h k = tt
All-le_trans n m (e ∷ l) h k = (omega arith, All-le_trans n m l h k.1)

insert_sorted-HeadIsTop :
    (a : Bytes × ℕ) (l : List (Bytes × ℕ)) → HeadIsTop l → HeadIsTop (insert_sorted a l)
unfolding insert_sorted
insert_sorted-HeadIsTop a [] h = (omega arith, tt)
insert_sorted-HeadIsTop a (b ∷ l) h = elim (Bool-cases (ltb a.1 b.1)) [
  | inl later ↦
      rw (later, insert_sorted)
        (omega arith, All-insert_sorted (λ e. e.1 ≤ b.1) a l (ground arith) h.1)
  | inr here ↦
      rw (here, insert_sorted)
        (omega arith, (ground arith, All-le_trans b.1 a.1 l (ground arith) h.1))
]

sort_by_freq-HeadIsTop : (l : List (Bytes × ℕ)) → HeadIsTop (sort_by_freq l)
unfolding sort_by_freq
sort_by_freq-HeadIsTop [] = tt
sort_by_freq-HeadIsTop (a ∷ l) =
    insert_sorted-HeadIsTop a (sort_by_freq l) (sort_by_freq-HeadIsTop l)

-- What the choice must satisfy, for one rival `c`.
abbrev pub IsChosen : List Bytes → Bytes → Bytes → Type 0
IsChosen found base c =
    (0 < count base found)
    × (count c found ≤ count base found)
    × ((base ≡ head_or [] found) ⊎ (2 ≤ count base found))

module _ (x : Bytes) (xs : List Bytes) where
  abbrev found : List Bytes
  found = x ∷ xs

  count-found : 0 < count x found
  unfolding count
  count-found = ground arith

  pick_base-IsChosen :
      (l : List (Bytes × ℕ)) (c : Bytes)
      → All (λ e. e.1 ≡ count e.0 found) l
      → HeadIsTop l
      → ((d : Bytes) (n : ℕ) → All (λ e. e.1 ≤ n) l → count d found ≤ n)
      → IsChosen found (pick_base l x) c
  unfolding pick_base head_or
  pick_base-IsChosen [] c h top bound = absurd (omega (arith, bound x 0 tt, count-found))
  pick_base-IsChosen ((b, n) ∷ l) c h top bound = elim (Bool-cases (n == 1)) [
    | inl once ↦
        rw (once, pick_base) (count-found, ground (arith, bound c n top, count-found), inl refl)
    | inr often ↦
        rw (often, pick_base)
          (
            ground (arith, bound x n top, h.0, count-found),
            ground (arith, bound c n top, h.0),
            inr (ground (arith, bound x n top, h.0, count-found)),
          )
  ]

  scan-IsChosen :
      (s : Scan) (c : Bytes)
      → IsScanOf found s
      → IsChosen found (pick_base (sort_by_freq s.feature_freq_map) x) c
  scan-IsChosen s c h =
      pick_base-IsChosen (sort_by_freq s.feature_freq_map) c
        (All-sort_by_freq _ s.feature_freq_map
          (All-entries bytes_discrete _ s.feature_freq_map h.is_map counted_entry))
        (sort_by_freq-HeadIsTop s.feature_freq_map) bound
    where
      counted_entry :
          (k : Bytes) (v : ℕ)
          → find bytes_discrete k s.feature_freq_map ≡ some v
          → v ≡ count k found
      counted_entry k v e = ground (arith, h.counted k)

      bound :
          (d : Bytes) (n : ℕ)
          → All (λ e. e.1 ≤ n) (sort_by_freq s.feature_freq_map)
          → count d found ≤ n
      bound d n all = elim (Option-cases (find bytes_discrete d s.feature_freq_map)) [
        | inl absent ↦ ground (arith, h.counted d)
        | inr (v, present) ↦ ground (
          arith,
          find-All bytes_discrete (λ e. e.1 ≤ n) d v s.feature_freq_map present
              (All-of_sort_by_freq _ s.feature_freq_map all),
          h.counted d,
        )
      ]

-- `FindBaseChunk`: without a match the chunk is marked as not similar and keeps its address. With a
-- match it is marked as similar, and the base is a fingerprint that is matched at least as often as
-- any other `c`; it is the first match unless it is matched twice or more. Nothing else changes.
pub find_base_chunk-IsChosen :
    (query : ℕ → Option Bytes) (info : ChunkInfo) (c : Bytes)
    → length info.features < 2 ^ 32
    → let found = matches query info.features in
      let r = find_base_chunk query info in
      ((found ≡ []) × (r ≡ record info { stat = non_similar_chunk }))
      ⊎ (IsChosen found r.addr.base_fp c
          × (r ≡ record info {
            stat = similar_chunk;
            addr = record (info.addr) { base_fp = r.addr.base_fp };
          }))
unfolding find_base_chunk head_or
find_base_chunk-IsChosen query info c bound = split (matches query info.features) (
    scan_features-IsScanOf query info.features [] (scan_start []) (omega arith) scan_start-IsScanOf)
  where
    split :
        (found : List Bytes)
        → IsScanOf found (scan_features query info.features (scan_start []))
        → let r = find_base_chunk query info in
          ((found ≡ []) × (r ≡ record info { stat = non_similar_chunk }))
          ⊎ (IsChosen found r.addr.base_fp c
              × (r ≡ record info {
                stat = similar_chunk;
                addr = record (info.addr) { base_fp = r.addr.base_fp };
              }))
    split [] h = inl (refl, rw (h.similar, find_base_chunk))
    split (x ∷ xs) h = inr (
      rw (h.similar, find_base_chunk, h.first, head_or)
          (scan-IsChosen x xs (scan_features query info.features (scan_start [])) c h),
      rw (h.similar, find_base_chunk),
    )
