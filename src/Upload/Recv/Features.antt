-- ===== src/Upload/Recv/Features.antt =====
-- The features of an eviction: copied into a message by EDRStore/src/client/cache_meta.cc, read from the
-- chunk by EDRStore/src/server/inform_cache.cc.
use edrstore.Prelude.{
  ℕ, ◌+◌, ◌*◌, ◌<◌, ◌^◌, ◌≡◌, refl, sym, ap, ap₂, ◌∙◌, List, [], ◌∷◌, ◌++◌, Bytes, All, take, drop,
  length, le_bytes, le_value, length-le_bytes, le_value-le_bytes, length-append, drop-add-append,
  take-add-append, arith,
}
use mathlib.Core.List.{append_assoc, append-nil}
use edrstore.Cache.{feature_at, features_of}
use edrstore.Upload.Wire.{features_bytes}

feature_at-append :
    (before rest : Bytes) (i f : ℕ)
    → length before ≡ 8 * i
    → f < 2 ^ 64
    → feature_at (before ++ (le_bytes 8 f ++ rest)) i ≡ f
unfolding feature_at drop take
feature_at-append before rest i f e fits =
    let eight = length-le_bytes 8 f in
    ap (λ t. le_value (take 8 t))
      (drop-add-append 0 (8 * i) before (le_bytes 8 f ++ rest)
        (let h : 8 * i ≡ length before + 0 = omega arith in h))
    ∙ ap le_value (
        take-add-append 0 8 (le_bytes 8 f) rest
          (let h : 8 ≡ length (le_bytes 8 f) + 0 = omega arith in h)
        ∙ append-nil (le_bytes 8 f))
    ∙ le_value-le_bytes 8 f (let h : f < 256 ^ 8 = omega arith in h)

features_of-append :
    (fs : List ℕ) (from : ℕ) (before : Bytes)
    → length before ≡ 8 * from
    → All (λ f. f < 2 ^ 64) fs
    → features_of (length fs) from (before ++ features_bytes fs) ≡ fs
unfolding features_of features_bytes
features_of-append [] from before e h = refl
features_of-append (f ∷ fs) from before e h =
    let here = le_bytes 8 f in
    let eight = length-le_bytes 8 f in
    let more = length-append before here in
    ap₂ ◌∷◌ (feature_at-append before (features_bytes fs) from f e h.0) (
      ap (features_of (length fs) (from + 1)) (sym (append_assoc before here (features_bytes fs)))
      ∙ features_of-append fs (from + 1) (before ++ here)
          (let g : length (before ++ here) ≡ 8 * (from + 1) = omega arith in g) h.1)

-- The server reads from a chunk of an eviction the 64-bit features that the client copied into it, all
-- of them and in order.
features_of-features_bytes :
    (fs : List ℕ) → All (λ f. f < 2 ^ 64) fs → features_of (length fs) 0 (features_bytes fs) ≡ fs
features_of-features_bytes fs h =
    features_of-append fs 0 [] (let e : 0 ≡ 8 * 0 = omega arith in e) h
