-- ===== src/Features/Extracted.antt =====
-- What `ExtractFeature` returns, and what of a chunk it depends on.
use edrstore.Prelude.{
  ℕ, zero, suc, ◌+◌, ◌*◌, ◌/◌, ◌%◌, ◌^◌, ◌<◌, ◌≤◌, List, [], ◌∷◌, Option, none, some, Bytes,
  get_elem?, length, take, drop, slice, map, ltb, ◌==◌, if◌then◌else◌, length-take, length-drop,
  All, ◌≡◌, refl, sym, ap, ap₂, ◌∙◌, arith,
}
use mathlib.Core.List.{Permᴰ}
use edrstore.Layout.{feature_per_chunk, super_feature_per_chunk, feature_per_super_feature}
use edrstore.Upload.Wire.{features_bytes}
use edrstore.Features.Rabin.{RabinFpUtil, RabinCtx, reset_ctx, new_util}
use edrstore.Features.InBounds.{
  IsUtil, IsCtx, new_util-IsUtil, reset_ctx-IsCtx, slide_one_byte-IsCtx,
}
use edrstore.Features.Finesse.{
  max_loop, part_loop, groups, insert_desc, sort_desc, column, hash_columns, super_features,
  extract_feature,
}

-- The order in which two numbers are inserted does not matter.
insert_desc_comm :
    (a b : ℕ) (l : List ℕ) → insert_desc a (insert_desc b l) ≡ insert_desc b (insert_desc a l)
unfolding insert_desc
insert_desc_comm a b [] = ground arith
insert_desc_comm a b (c ∷ l) = ground (arith, insert_desc_comm a b l)

sort_desc-Permᴰ : {xs ys : List ℕ} → Permᴰ xs ys → sort_desc xs ≡ sort_desc ys
unfolding sort_desc
sort_desc-Permᴰ Permᴰ.nil = refl
sort_desc-Permᴰ (Permᴰ.cons e p) = ap₂ insert_desc e (sort_desc-Permᴰ p)
sort_desc-Permᴰ (Permᴰ.swap {a} {b} {l = l} p q) =
    insert_desc_comm a b (sort_desc l)
    ∙ ap₂ (λ x y. insert_desc x (insert_desc y (sort_desc l))) q p
sort_desc-Permᴰ (Permᴰ.trans p q) = sort_desc-Permᴰ p ∙ sort_desc-Permᴰ q

abbrev pub AllPerm : List (List ℕ) → List (List ℕ) → Type 0
AllPerm [] [] = Unit
AllPerm (g ∷ gs) (h ∷ hs) = Permᴰ g h × AllPerm gs hs
AllPerm _ _ = ⊥

map-sort_desc : (gs hs : List (List ℕ)) → AllPerm gs hs → map sort_desc gs ≡ map sort_desc hs
map-sort_desc [] [] p = refl
map-sort_desc (g ∷ gs) (h ∷ hs) p =
    ap₂ (λ x xs. x ∷ xs) (sort_desc-Permᴰ p.0) (map-sort_desc gs hs p.1)
map-sort_desc [] (h ∷ hs) p = absurd p
map-sort_desc (g ∷ gs) [] p = absurd p

-- Two chunks have the same features, whatever the hash, if the largest fingerprints of their parts are,
-- group by group, the same up to their order.
pub extract_feature-AllPerm :
    (hash : Bytes → ℕ) (util : RabinFpUtil) (x y : Bytes) (ms ns : List ℕ)
    → part_loop util x feature_per_chunk 0 ≡ some ms
    → part_loop util y feature_per_chunk 0 ≡ some ns
    → AllPerm (groups feature_per_super_feature ms) (groups feature_per_super_feature ns)
    → extract_feature hash util x ≡ extract_feature hash util y
unfolding extract_feature super_features
extract_feature-AllPerm hash util x y ms ns of_x of_y same =
    let finish : Option (List ℕ) → Option (List ℕ) =
      (λ o. elim o as (λ _. Option (List ℕ)) [ some ms ↦ super_features hash ms | none ↦ none ]) in
    ap finish of_x
    ∙ ap (hash_columns hash super_feature_per_chunk 0) (
        map-sort_desc (groups feature_per_super_feature ms) (groups feature_per_super_feature ns)
          same)
    ∙ sym (ap finish of_y)

-- The loops end within their tables and vectors.
max_loop-ends :
    (util : RabinFpUtil) (bs : Bytes) (ctx : RabinCtx) (m : ℕ)
    → IsUtil util
    → All (λ b. b < 256) bs
    → IsCtx util ctx
    → (r : ℕ) × (max_loop util bs ctx m ≡ some r)
unfolding max_loop
max_loop-ends util [] ctx m h bytes c = (m, refl)
max_loop-ends util (b ∷ bs) ctx m h bytes c =
    let (ctx', slides, c') = slide_one_byte-IsCtx util b ctx h bytes.0 c in
    let (r, ends) =
      max_loop-ends util bs ctx' (if ltb m ctx'.fp then ctx'.fp else m) h bytes.1 c' in
    (
      r,
      ap
            (λ o. elim o as (λ _. Option ℕ) [
              | some ctx' ↦ max_loop util bs ctx' (if ltb m ctx'.fp then ctx'.fp else m)
              | none ↦ none
            ])
            slides
          ∙ ends,
    )

take-bytes : (n : ℕ) (xs : Bytes) → All (λ b. b < 256) xs → All (λ b. b < 256) (take n xs)
unfolding take
take-bytes zero xs h = tt
take-bytes (suc n) [] h = tt
take-bytes (suc n) (x ∷ xs) h = (h.0, take-bytes n xs h.1)

drop-bytes : (n : ℕ) (xs : Bytes) → All (λ b. b < 256) xs → All (λ b. b < 256) (drop n xs)
unfolding drop
drop-bytes zero xs h = h
drop-bytes (suc n) [] h = tt
drop-bytes (suc n) (x ∷ xs) h = drop-bytes n xs h.1

part_loop-ends :
    (util : RabinFpUtil) (chunk : Bytes) (n i : ℕ)
    → IsUtil util
    → All (λ b. b < 256) chunk
    → (ms : List ℕ) × (part_loop util chunk n i ≡ some ms) × (length ms ≡ n)
unfolding part_loop slice
part_loop-ends util chunk zero i h bytes = ([], refl, refl)
part_loop-ends util chunk (suc n) i h bytes =
    let sub = length chunk / feature_per_chunk in
    let limit =
      if i + 1 == feature_per_chunk then sub + length chunk % feature_per_chunk else sub in
    let (m, first) =
      max_loop-ends util (slice (i * sub) limit chunk) (reset_ctx util) 0 h
        (take-bytes limit (drop (i * sub) chunk) (drop-bytes (i * sub) chunk bytes))
        (reset_ctx-IsCtx util) in
    let (ms, rest, len) = part_loop-ends util chunk n (i + 1) h bytes in
    (
      m ∷ ms,
      ap
            (λ o. elim o as (λ _. Option (List ℕ)) [
              | some m ↦ elim (part_loop util chunk n (i + 1)) [
                | some ms ↦ some (m ∷ ms)
                | none ↦ none
              ]
              | none ↦ none
            ])
            first
          ∙ ap (λ o. elim o as (λ _. Option (List ℕ)) [ some ms ↦ some (m ∷ ms) | none ↦ none ])
              rest,
      ap suc len,
    )

AreGroups : List (List ℕ) → Type 0
AreGroups = All (λ g. length g ≡ 3)

groups-AreGroups : (n : ℕ) (ms : List ℕ) → length ms ≡ n * 3 → AreGroups (groups n ms)
unfolding groups AreGroups
groups-AreGroups zero ms h = tt
groups-AreGroups (suc n) ms h = (
  omega (arith, length-take 3 ms),
  groups-AreGroups n (drop 3 ms) (omega (arith, length-drop 3 ms)),
)

length-insert_desc : (a : ℕ) (l : List ℕ) → length (insert_desc a l) ≡ suc (length l)
unfolding insert_desc
length-insert_desc a [] = refl
length-insert_desc a (b ∷ l) = ground (arith, length-insert_desc a l)

length-sort_desc : (l : List ℕ) → length (sort_desc l) ≡ length l
unfolding sort_desc
length-sort_desc [] = refl
length-sort_desc (a ∷ l) = length-insert_desc a (sort_desc l) ∙ ap suc (length-sort_desc l)

sorted-AreGroups : (gs : List (List ℕ)) → AreGroups gs → AreGroups (map sort_desc gs)
unfolding AreGroups
sorted-AreGroups [] h = tt
sorted-AreGroups (g ∷ gs) h = (length-sort_desc g ∙ h.0, sorted-AreGroups gs h.1)

element : (xs : List ℕ) (i : ℕ) → i < length xs → (x : ℕ) × (get_elem? xs i ≡ some x)
element [] i h = absurd (omega arith)
element (x ∷ xs) zero h = (x, refl)
element (x ∷ xs) (suc i) h = element xs i (omega arith)

column-ends :
    (i : ℕ) (gs : List (List ℕ)) → i < 3 → AreGroups gs → (ms : List ℕ) × (column i gs ≡ some ms)
unfolding column AreGroups
column-ends i [] small h = ([], refl)
column-ends i (g ∷ gs) small h =
    let (m, found) = element g i (omega (arith, h.0)) in
    let (ms, rest) = column-ends i gs small h.1 in
    (
      m ∷ ms,
      ap
            (λ o. elim o as (λ _. Option (List ℕ)) [
              | some m ↦ elim (column i gs) [ some ms ↦ some (m ∷ ms) | none ↦ none ]
              | none ↦ none
            ])
            found
          ∙ ap (λ o. elim o as (λ _. Option (List ℕ)) [ some ms ↦ some (m ∷ ms) | none ↦ none ])
              rest,
    )

module _ (hash : Bytes → ℕ) (hash_size : (x : Bytes) → hash x < 2 ^ 64) where
  hash_columns-ends :
      (n i : ℕ) (gs : List (List ℕ))
      → i + n ≤ 3
      → AreGroups gs
      → (fs : List ℕ) × (hash_columns hash n i gs ≡ some fs)
        × (length fs ≡ n)
        × All (λ f. f < 2 ^ 64) fs
  unfolding hash_columns
  hash_columns-ends zero i gs h k = ([], refl, refl, tt)
  hash_columns-ends (suc n) i gs h k =
      let (ms, first) = column-ends i gs (omega arith) k in
      let (fs, rest, len, small) = hash_columns-ends n (i + 1) gs (omega arith) k in
      (
        hash (features_bytes ms) ∷ fs,
        ap
              (λ o. elim o as (λ _. Option (List ℕ)) [
                | some ms ↦ elim (hash_columns hash n (i + 1) gs) [
                  | some fs ↦ some (hash (features_bytes ms) ∷ fs)
                  | none ↦ none
                ]
                | none ↦ none
              ])
              first
            ∙ ap
                (λ o. elim o as (λ _. Option (List ℕ)) [
                  | some fs ↦ some (hash (features_bytes ms) ∷ fs)
                  | none ↦ none
                ])
                rest,
        ap suc len,
        (hash_size (features_bytes ms), small),
      )

  super_features-ends :
      (ms : List ℕ)
      → length ms ≡ 12
      → (fs : List ℕ) × (super_features hash ms ≡ some fs)
        × (length fs ≡ 3)
        × All (λ f. f < 2 ^ 64) fs
  unfolding super_features
  super_features-ends ms len =
      hash_columns-ends 3 0 (map sort_desc (groups 4 ms)) (omega arith)
        (sorted-AreGroups (groups 4 ms) (groups-AreGroups 4 ms (omega arith)))

-- With a window of 1 to 2^32 - 1 bytes the tables of the fingerprint can be computed, and the features of
-- every chunk of bytes can be extracted with them: no table and no vector is read outside of its
-- range, and the features are three numbers of 64 bits, as the hash gives them.
pub extract_feature-new_util :
    (hash : Bytes → ℕ) (window_size : ℕ) (chunk : Bytes)
    → ((x : Bytes) → hash x < 2 ^ 64)
    → 0 < window_size
    → window_size < 2 ^ 32
    → All (λ b. b < 256) chunk
    → (util : RabinFpUtil) × (fs : List ℕ) × (new_util window_size ≡ some util)
      × (extract_feature hash util chunk ≡ some fs)
      × (length fs ≡ super_feature_per_chunk)
      × All (λ f. f < 2 ^ 64) fs
unfolding extract_feature
extract_feature-new_util hash window_size chunk hash_size pos fits bytes =
    let (util, made, is_util, _) = new_util-IsUtil window_size pos fits in
    let (ms, parts, len) = part_loop-ends util chunk 12 0 is_util bytes in
    let (fs, ends, three, small) = super_features-ends hash hash_size ms len in
    (
      util,
      fs,
      made,
      ap (λ o. elim o as (λ _. Option (List ℕ)) [ some ms ↦ super_features hash ms | none ↦ none ])
            parts
          ∙ ends,
      three,
      small,
    )
