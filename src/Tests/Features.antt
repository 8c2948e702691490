-- ===== src/Tests/Features.antt =====
-- Features of small chunks.
use edrstore.Prelude.{
  ℕ, ◌^◌, ◌<◌, List, [], ◌∷◌, some, Bytes, length, replicate, slice, take, drop, All, u64, ◌≡◌,
  refl, arith,
}
use mathlib.Core.List.{Permᴰ}
use edrstore.Layout.{super_feature_per_chunk}
use edrstore.Features.Rabin.{RabinFpUtil, new_util}
use edrstore.Features.Finesse.{part_loop, groups, extract_feature}
use edrstore.Features.Extracted.{extract_feature-AllPerm, extract_feature-new_util}

abbrev hash : Bytes → ℕ
hash x = u64 (length x)

abbrev chunk : Bytes
chunk = 7 ∷ 1 ∷ 200 ∷ 3 ∷ 90 ∷ []

extract_feature-new_util_example :
    (util : RabinFpUtil) × (fs : List ℕ) × (new_util 4 ≡ some util)
    × (extract_feature hash util chunk ≡ some fs)
    × (length fs ≡ super_feature_per_chunk)
    × All (λ f. f < 2 ^ 64) fs
extract_feature-new_util_example =
    extract_feature-new_util hash 4 chunk (λ x. omega arith) (omega arith) (omega arith)
      (omega arith, (omega arith, (omega arith, (omega arith, (omega arith, tt)))))

-- With these tables and a window of one byte, the fingerprint of a part of one byte is the byte.
abbrev util : RabinFpUtil
util = record { window_size = 1; shift = 55; t_table = replicate 256 0; u_table = replicate 256 0 }

abbrev parts : Bytes
parts = 1 ∷ 2 ∷ 3 ∷ 4 ∷ 5 ∷ 6 ∷ 7 ∷ 8 ∷ 9 ∷ 10 ∷ 11 ∷ 12 ∷ []

-- The same parts, of which two change places within a group.
abbrev swapped : Bytes
swapped = 2 ∷ 1 ∷ 3 ∷ 4 ∷ 5 ∷ 6 ∷ 7 ∷ 8 ∷ 9 ∷ 10 ∷ 12 ∷ 11 ∷ []

extract_feature-AllPerm_example :
    extract_feature hash util parts ≡ extract_feature hash util swapped
unfolding part_loop groups slice take drop replicate
extract_feature-AllPerm_example =
    extract_feature-AllPerm hash util parts swapped parts swapped refl refl (
      Permᴰ.swap refl refl,
      (
        Permᴰ.cons refl (Permᴰ.cons refl (Permᴰ.cons refl Permᴰ.nil)),
        (
          Permᴰ.cons refl (Permᴰ.cons refl (Permᴰ.cons refl Permᴰ.nil)),
          (Permᴰ.cons refl (Permᴰ.swap refl refl), tt),
        ),
      ),
    )
