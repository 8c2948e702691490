-- ===== src/Reduction/Similar/Counts.antt =====
-- What the loop over the features has counted, against the list of the matches so far.
use edrstore.Prelude.{
  ℕ, zero, suc, ◌+◌, ◌≤◌, ◌<◌, ◌^◌, List, [], ◌∷◌, ◌++◌, Option, none, some, Bool, true, false,
  Bytes, bytes_discrete, find, ite, ◌≡◌, refl, arith, length, length-append, IsMap, assign-IsMap,
  find-assign_self, find-assign_ne, ◌∙◌, u32, Option-cases, inl, inr, sym, ◌≢◌, if◌then◌else◌,
}
use mathlib.Core.List.{append_assoc, append-nil}
use edrstore.Reduction.Similar.{Scan, bump_freq, count_match, scan_features, scan_start}

unfoldable pub count : Bytes → List Bytes → ℕ
count c [] = 0
count c (x ∷ xs) = ite (bytes_discrete x c) (suc (count c xs)) (count c xs)

unfoldable pub head_or : Bytes → List Bytes → Bytes
head_or d [] = d
head_or d (x ∷ xs) = x

abbrev is_empty : List Bytes → Bool
is_empty [] = true
is_empty (x ∷ xs) = false

abbrev is_cons : List Bytes → Bool
is_cons [] = false
is_cons (x ∷ xs) = true

-- A number as the frequency map holds it: no entry stands for 0.
abbrev pub entry : ℕ → Option ℕ
entry zero = none
entry (suc n) = some (suc n)

-- The bases that the features of a chunk lead to, in the features' order.
unfoldable pub matches : (ℕ → Option Bytes) → List ℕ → List Bytes
matches query [] = []
matches query (f ∷ fs) = elim (query f) [ some b ↦ b ∷ matches query fs | none ↦ matches query fs ]

count-append : (c : Bytes) (xs ys : List Bytes) → count c (xs ++ ys) ≡ count c xs + count c ys
unfolding count
count-append c [] ys = omega arith
count-append c (x ∷ xs) ys = ground (arith, count-append c xs ys)

count-le-length : (c : Bytes) (xs : List Bytes) → count c xs ≤ length xs
unfolding count
count-le-length c [] = omega arith
count-le-length c (x ∷ xs) = ground (arith, count-le-length c xs)

count-snoc_self : (c : Bytes) (xs : List Bytes) → count c (xs ++ c ∷ []) ≡ suc (count c xs)
unfolding count
count-snoc_self c xs = ground (arith, count-append c xs (c ∷ []))

count-snoc_ne : (c b : Bytes) (xs : List Bytes) → c ≢ b → count c (xs ++ b ∷ []) ≡ count c xs
unfolding count
count-snoc_ne c b xs h = ground (arith, count-append c xs (b ∷ []))

length-matches : (query : ℕ → Option Bytes) (fs : List ℕ) → length (matches query fs) ≤ length fs
unfolding matches
length-matches query [] = omega arith
length-matches query (f ∷ fs) = ground (arith, length-matches query fs)

pub record IsScanOf (seen : List Bytes) (s : Scan) : Type 0 where
  pub counted : (c : Bytes) → find bytes_discrete c s.feature_freq_map ≡ entry (count c seen)
  pub is_map : IsMap bytes_discrete s.feature_freq_map
  pub similar : s.is_similar ≡ is_cons seen
  pub first_match : s.is_first_match ≡ is_empty seen
  pub first : s.first_match_base_fp ≡ head_or [] seen

module _ (b : Bytes) (seen : List Bytes) (m : List (Bytes × ℕ)) where
  find-bump_freq_self :
      length seen + 1 < 2 ^ 32
      → find bytes_discrete b m ≡ entry (count b seen)
      → find bytes_discrete b (bump_freq b m) ≡ entry (count b (seen ++ b ∷ []))
  unfolding bump_freq
  find-bump_freq_self bound e = ground (
    arith,
    count-snoc_self b seen,
    count-le-length b seen,
    find-assign_self bytes_discrete b 1 m,
    find-assign_self bytes_discrete b (u32 (count b seen + 1)) m,
  )

  find-bump_freq_ne :
      (c : Bytes)
      → c ≢ b
      → find bytes_discrete c m ≡ entry (count c seen)
      → find bytes_discrete c (bump_freq b m) ≡ entry (count c (seen ++ b ∷ []))
  unfolding bump_freq
  find-bump_freq_ne c h e = elim (Option-cases (find bytes_discrete b m)) [
    | inl new ↦
        rw (new, bump_freq, count-snoc_ne c b seen h) (find-assign_ne bytes_discrete b c 1 m h ∙ e)
    | inr (n, old) ↦
        rw (old, bump_freq, count-snoc_ne c b seen h)
          (find-assign_ne bytes_discrete b c (u32 (n + 1)) m h ∙ e)
  ]

  bump_freq-IsMap : IsMap bytes_discrete m → IsMap bytes_discrete (bump_freq b m)
  unfolding bump_freq
  bump_freq-IsMap u = elim (Option-cases (find bytes_discrete b m)) [
    | inl new ↦ rw (new, bump_freq) (assign-IsMap bytes_discrete b 1 m u)
    | inr (n, old) ↦ rw (old, bump_freq) (assign-IsMap bytes_discrete b (u32 (n + 1)) m u)
  ]

is_cons-snoc : (seen : List Bytes) (b : Bytes) → is_cons (seen ++ b ∷ []) ≡ true
is_cons-snoc [] b = refl
is_cons-snoc (x ∷ xs) b = refl

is_empty-snoc : (seen : List Bytes) (b : Bytes) → is_empty (seen ++ b ∷ []) ≡ false
is_empty-snoc [] b = refl
is_empty-snoc (x ∷ xs) b = refl

head_or-snoc :
    (seen : List Bytes) (b : Bytes)
    → head_or [] (seen ++ b ∷ []) ≡ (if is_empty seen then b else head_or [] seen)
unfolding head_or
head_or-snoc [] b = refl
head_or-snoc (x ∷ xs) b = refl

count_match-IsScanOf :
    (seen : List Bytes) (b : Bytes) (s : Scan)
    → length seen + 1 < 2 ^ 32
    → IsScanOf seen s
    → IsScanOf (seen ++ b ∷ []) (count_match s b)
unfolding count_match
count_match-IsScanOf seen b s bound h = record {
  counted = λ c. elim (bytes_discrete c b) [
    | yes e ↦ rw e (find-bump_freq_self b seen s.feature_freq_map bound (h.counted b))
    | no n ↦ find-bump_freq_ne b seen s.feature_freq_map c n (h.counted c)
  ];
  is_map = bump_freq-IsMap b seen s.feature_freq_map h.is_map;
  similar = sym (is_cons-snoc seen b);
  first_match = sym (is_empty-snoc seen b);
  first = rw (h.first_match, h.first) (sym (head_or-snoc seen b));
}

pub scan_features-IsScanOf :
    (query : ℕ → Option Bytes) (fs : List ℕ) (seen : List Bytes) (s : Scan)
    → length seen + length fs < 2 ^ 32
    → IsScanOf seen s
    → IsScanOf (seen ++ matches query fs) (scan_features query fs s)
unfolding scan_features matches
scan_features-IsScanOf query [] seen s bound h = rw append-nil h
scan_features-IsScanOf query (f ∷ fs) seen s bound h = elim (Option-cases (query f)) [
  | inl miss ↦
      rw (miss, matches, scan_features) (scan_features-IsScanOf query fs seen s (omega arith) h)
  | inr (b, hit) ↦
      rw (hit, matches, scan_features, ← append_assoc seen (b ∷ []) (matches query fs))
        (scan_features-IsScanOf query fs (seen ++ b ∷ []) (count_match s b)
          (omega (arith, length-append seen (b ∷ [])))
          (count_match-IsScanOf seen b s (omega arith) h))
]

pub scan_start-IsScanOf : IsScanOf [] (scan_start [])
unfolding find count head_or
scan_start-IsScanOf = record {
  counted = λ c. refl;
  is_map = tt;
  similar = refl;
  first_match = refl;
  first = refl;
}
