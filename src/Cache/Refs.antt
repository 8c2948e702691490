-- ===== src/Cache/Refs.antt =====
-- How many features lead to a base, and how the writes to the feature index change that.
use edrstore.Prelude.{
  ℕ, suc, ◌+◌, ◌*◌, ◌≤◌, ◌<◌, List, [], ◌∷◌, none, some, Bytes, bytes_discrete, ℕ_discrete, find,
  assign, erase, ite, if_pos, if_neg, ◌≡◌, ◌≢◌, refl, arith, length, All, IsMap, ◌∙◌,
  find-assign_ne, sym, assign-IsMap,
}
use edrstore.Reduction.Similar.{FeatureIndex, update_feature_index}

unfoldable pub refs : Bytes → FeatureIndex → ℕ
refs b [] = 0
refs b ((f, v) ∷ m) = ite (bytes_discrete v b) (suc (refs b m)) (refs b m)

-- 1 for the base itself, 0 for any other.
unfoldable pub one_of : Bytes → Bytes → ℕ
one_of v b = ite (bytes_discrete v b) 1 0

pub one_of_self : (b : Bytes) → one_of b b ≡ 1
unfolding one_of
one_of_self b = if_pos (bytes_discrete b b) refl 1 0

pub one_of_ne : (v b : Bytes) → b ≢ v → one_of v b ≡ 0
unfolding one_of
one_of_ne v b h = if_neg (bytes_discrete v b) (λ e. h (sym e)) 1 0

pub refs-le-length : (b : Bytes) (db : FeatureIndex) → refs b db ≤ length db
unfolding refs
refs-le-length b [] = omega arith
refs-le-length b ((f, v) ∷ m) = ground (arith, refs-le-length b m)

pub refs_pos :
    (f : ℕ) (v : Bytes) (db : FeatureIndex) → find ℕ_discrete f db ≡ some v → 0 < refs v db
unfolding refs find
refs_pos f v [] h = absurd (ground arith)
refs_pos f v ((g, w) ∷ m) h = ground (arith, refs_pos f v m)

pub refs-assign_new :
    (b : Bytes) (f : ℕ) (v : Bytes) (db : FeatureIndex)
    → find ℕ_discrete f db ≡ none
    → refs b (assign ℕ_discrete f v db) ≡ refs b db + one_of v b
unfolding refs find assign one_of
refs-assign_new b f v [] h = ground arith
refs-assign_new b f v ((g, w) ∷ m) h = ground (arith, refs-assign_new b f v m)

erase_absent :
    (f : ℕ) (db : FeatureIndex) → find ℕ_discrete f db ≡ none → erase ℕ_discrete f db ≡ db
unfolding find erase
erase_absent f [] h = refl
erase_absent f ((g, w) ∷ m) h = ground (arith, erase_absent f m)

pub refs-erase :
    (b : Bytes) (f : ℕ) (v : Bytes) (db : FeatureIndex)
    → IsMap ℕ_discrete db
    → find ℕ_discrete f db ≡ some v
    → refs b (erase ℕ_discrete f db) + one_of v b ≡ refs b db
unfolding refs find erase one_of
refs-erase b f v [] u h = absurd (ground arith)
refs-erase b f v ((g, w) ∷ m) u h = ground (arith, refs-erase b f v m u.1, erase_absent f m, u.0)

-- Features that are pairwise different and lead nowhere yet.
abbrev pub AreFresh : List ℕ → FeatureIndex → Type 0
AreFresh [] db = Unit
AreFresh (f ∷ fs) db = (find ℕ_discrete f db ≡ none) × All (λ g. g ≢ f) fs × AreFresh fs db

AreFresh-assign :
    (f : ℕ) (v : Bytes) (fs : List ℕ) (db : FeatureIndex)
    → All (λ g. g ≢ f) fs
    → AreFresh fs db
    → AreFresh fs (assign ℕ_discrete f v db)
AreFresh-assign f v [] db h k = tt
AreFresh-assign f v (g ∷ fs) db h k =
    (find-assign_ne ℕ_discrete f g v db h.0 ∙ k.0, k.1, AreFresh-assign f v fs db h.1 k.2)

pub refs-update_feature_index :
    (b : Bytes) (fs : List ℕ) (v : Bytes) (db : FeatureIndex)
    → AreFresh fs db
    → refs b (update_feature_index db fs v) ≡ refs b db + length fs * one_of v b
unfolding update_feature_index
refs-update_feature_index b [] v db h = omega arith
refs-update_feature_index b (f ∷ fs) v db h = grind (
  arith,
  refs-update_feature_index b fs v (assign ℕ_discrete f v db) (AreFresh-assign f v fs db h.1 h.2),
  refs-assign_new b f v db h.0,
)

pub update_feature_index-IsMap :
    (fs : List ℕ) (v : Bytes) (db : FeatureIndex)
    → IsMap ℕ_discrete db
    → IsMap ℕ_discrete (update_feature_index db fs v)
unfolding update_feature_index
update_feature_index-IsMap [] v db h = h
update_feature_index-IsMap (f ∷ fs) v db h =
    update_feature_index-IsMap fs v (assign ℕ_discrete f v db) (assign-IsMap ℕ_discrete f v db h)
