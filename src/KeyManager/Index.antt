-- ===== src/KeyManager/Index.antt =====
-- The index from features to seeds: what lookups find before and after requests.
use edrstore.Prelude.{
  ℕ, ◌<◌, List, [], ◌∷◌, Option, none, some, true, Bytes, bytes_discrete, ℕ_discrete, find, assign,
  find-assign_self, find-assign_ne, length, ◌≡◌, ◌≢◌, refl, sym, ap, ◌∙◌, arith, All, inl, inr,
  Option-cases, if_neg, if_pos, subst, false,
}
use edrstore.Database
use edrstore.Reduction.Similar.{FeatureIndex, update_feature_index}
use edrstore.Reduction.Similar.Counts.{count, matches}

-- The lookup of the key index.
abbrev pub seed_of : FeatureIndex → ℕ → Option Bytes
seed_of db f = (Database.query ℕ_discrete db f).value

pub seed_of_lem : (db : FeatureIndex) (f : ℕ) → seed_of db f ≡ find ℕ_discrete f db
unfolding Database.query
seed_of_lem db f =
    elim (find ℕ_discrete f db)
      as (λ o.
        (elim o as (λ _. Database.Answer Bytes) [
          | some v ↦ record { value = some v; ret = true }
          | none ↦ record { value = none; ret = false }
        ]).value
        ≡ o) [ none ↦ refl | some v ↦ refl ]

-- Every entry stays.
pub record Extends (db db' : FeatureIndex) : Type 0 where
  pub keeps : (f : ℕ) (v : Bytes) → find ℕ_discrete f db ≡ some v → find ℕ_discrete f db' ≡ some v

pub Extends-trans : (a b c : FeatureIndex) → Extends a b → Extends b c → Extends a c
Extends-trans a b c h k = record { keeps = λ f v e. k.keeps f v (h.keeps f v e) }

pub matches-nil :
    (db : FeatureIndex) (fs : List ℕ)
    → matches (seed_of db) fs ≡ []
    → All (λ f. find ℕ_discrete f db ≡ none) fs
unfolding matches
matches-nil db [] h = tt
matches-nil db (f ∷ fs) h = elim (Option-cases (find ℕ_discrete f db)) [
  | inl e ↦ (e, matches-nil db fs (rw (seed_of_lem db f ∙ e, matches) at h))
  | inr (v, e) ↦
      let h' : v ∷ matches (seed_of db) fs ≡ [] = rw (seed_of_lem db f ∙ e, matches) at h in
      absurd (ground arith)
]

-- The update of features that lead nowhere keeps every entry.
pub update_feature_index-find :
    (fs : List ℕ) (v : Bytes) (g : ℕ) (w : Bytes) (db : FeatureIndex)
    → find ℕ_discrete g db ≡ some w
    → All (λ f. f ≢ g) fs
    → find ℕ_discrete g (update_feature_index db fs v) ≡ some w
unfolding update_feature_index
update_feature_index-find [] v g w db e h = e
update_feature_index-find (f ∷ fs) v g w db e h =
    update_feature_index-find fs v g w (assign ℕ_discrete f v db)
      (find-assign_ne ℕ_discrete f g v db (λ q. h.0 (sym q)) ∙ e) h.1

-- A feature leads to the seed once it did, whatever features are still to come.
update_feature_index-stays :
    (fs : List ℕ) (v : Bytes) (g : ℕ) (db : FeatureIndex)
    → find ℕ_discrete g db ≡ some v
    → find ℕ_discrete g (update_feature_index db fs v) ≡ some v
unfolding update_feature_index
update_feature_index-stays [] v g db e = e
update_feature_index-stays (f ∷ fs) v g db e =
    update_feature_index-stays fs v g (assign ℕ_discrete f v db) (elim (ℕ_discrete g f) [
      | yes p ↦ rw (p) (find-assign_self ℕ_discrete f v db)
      | no n ↦ find-assign_ne ℕ_discrete f g v db n ∙ e
    ])

pub update_feature_index-All :
    (fs : List ℕ) (v : Bytes) (db : FeatureIndex)
    → All (λ f. find ℕ_discrete f (update_feature_index db fs v) ≡ some v) fs
unfolding update_feature_index
update_feature_index-All [] v db = tt
update_feature_index-All (f ∷ fs) v db = (
  update_feature_index-stays fs v f (assign ℕ_discrete f v db) (find-assign_self ℕ_discrete f v db),
  update_feature_index-All fs v (assign ℕ_discrete f v db),
)

-- Where all features lead to one seed, that seed is matched by all, and no other by any.
pub matches-unanimous :
    (fs : List ℕ) (v b : Bytes) (db : FeatureIndex)
    → All (λ f. find ℕ_discrete f db ≡ some v) fs
    → 0 < count b (matches (seed_of db) fs)
    → b ≡ v
unfolding matches count
matches-unanimous [] v b db h pos = absurd (omega arith)
matches-unanimous (f ∷ fs) v b db h pos = elim (bytes_discrete v b) [
  | yes p ↦ sym p
  | no n ↦
      let pos' : 0 < count b (v ∷ matches (seed_of db) fs) =
        rw (seed_of_lem db f ∙ h.0, matches) at pos in
      matches-unanimous fs v b db h.1 (subst (λ n. 0 < n) (if_neg (bytes_discrete v b) n _ _) pos')
]

pub matches-unanimous-cons :
    (f : ℕ) (fs : List ℕ) (v : Bytes) (db : FeatureIndex)
    → find ℕ_discrete f db ≡ some v
    → matches (seed_of db) (f ∷ fs) ≢ []
unfolding matches
matches-unanimous-cons f fs v db h e =
    let h' : v ∷ matches (seed_of db) fs ≡ [] = rw (seed_of_lem db f ∙ h, matches) at e in
    ground arith

pub nil-matches :
    (db : FeatureIndex) (fs : List ℕ)
    → All (λ f. find ℕ_discrete f db ≡ none) fs
    → matches (seed_of db) fs ≡ []
unfolding matches
nil-matches db [] h = refl
nil-matches db (f ∷ fs) h = rw (seed_of_lem db f ∙ h.0, matches) (nil-matches db fs h.1)

-- A seed that is matched is that of a feature.
pub count-matches :
    (fs : List ℕ) (b : Bytes) (db : FeatureIndex)
    → 0 < count b (matches (seed_of db) fs)
    → (f : ℕ) × (find ℕ_discrete f db ≡ some b)
unfolding matches count
count-matches [] b db pos = absurd (omega arith)
count-matches (f ∷ fs) b db pos = elim (Option-cases (find ℕ_discrete f db)) [
  | inl e ↦ count-matches fs b db (rw (seed_of_lem db f ∙ e, matches) at pos)
  | inr (v, e) ↦ elim (bytes_discrete v b) [
    | yes p ↦ (f, e ∙ ap some p)
    | no n ↦
        let pos' : 0 < count b (v ∷ matches (seed_of db) fs) =
          rw (seed_of_lem db f ∙ e, matches) at pos in
        count-matches fs b db (subst (λ n. 0 < n) (if_neg (bytes_discrete v b) n _ _) pos')
  ]
]

-- Every seed of the index has the size of a hash.
abbrev pub AreSeeds : FeatureIndex → Type 0
AreSeeds = All (λ e. length e.1 ≡ 32)

assign-AreSeeds :
    (f : ℕ) (v : Bytes) (db : FeatureIndex)
    → length v ≡ 32
    → AreSeeds db
    → AreSeeds (assign ℕ_discrete f v db)
unfolding assign
assign-AreSeeds f v [] size h = (size, tt)
assign-AreSeeds f v ((g, w) ∷ db) size h = elim (ℕ_discrete g f) [
  | yes p ↦
      rw (if_pos (ℕ_discrete g f) p ((g, v) ∷ db) ((g, w) ∷ assign ℕ_discrete f v db)) (size, h.1)
  | no n ↦
      rw (if_neg (ℕ_discrete g f) n ((g, v) ∷ db) ((g, w) ∷ assign ℕ_discrete f v db))
        (h.0, assign-AreSeeds f v db size h.1)
]

pub update_feature_index-AreSeeds :
    (fs : List ℕ) (v : Bytes) (db : FeatureIndex)
    → length v ≡ 32
    → AreSeeds db
    → AreSeeds (update_feature_index db fs v)
unfolding update_feature_index
update_feature_index-AreSeeds [] v db size h = h
update_feature_index-AreSeeds (f ∷ fs) v db size h =
    update_feature_index-AreSeeds fs v (assign ℕ_discrete f v db) size
      (assign-AreSeeds f v db size h)
