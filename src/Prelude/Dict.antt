-- ===== src/Prelude/Dict.antt =====
-- `std::unordered_map` as a list of entries: `find`, `m[k] = v`, `erase(k)`, in some order of
-- iteration, which is that of the list.
use mathlib.Core.Path.{◌≡◌, refl, subst, sym, ◌∙◌}
use mathlib.Core.Logic.{◌≢◌, inl, inr, ite, if_pos, if_neg}
use mathlib.Core.List.{List, [], ◌∷◌}
use mathlib.Core.Option.{Option, none, some}
use edrstore.Prelude.Lists.{All}
use edrstore.Prelude.Tests.{Option-cases}
use native.Mathlib.Omega.{arith}

module _ {ℓ} {K V : Type ℓ} (dec : Discrete K) where
  unfoldable pub find : K → List (K × V) → Option V
  find k [] = none
  find k ((j, v) ∷ m) = ite (dec j k) (some v) (find k m)

  unfoldable pub assign : K → V → List (K × V) → List (K × V)
  assign k v [] = (k, v) ∷ []
  assign k v ((j, w) ∷ m) = ite (dec j k) ((j, v) ∷ m) ((j, w) ∷ assign k v m)

  unfoldable pub erase : K → List (K × V) → List (K × V)
  erase k [] = []
  erase k ((j, w) ∷ m) = ite (dec j k) (erase k m) ((j, w) ∷ erase k m)

  pub find-assign_self : (k : K) (v : V) (m : List (K × V)) → find k (assign k v m) ≡ some v
  unfolding find assign
  find-assign_self k v [] = if_pos (dec k k) refl _ _
  find-assign_self k v ((j, w) ∷ m) = ground (arith, find-assign_self k v m)

  pub find-assign_ne :
      (k j : K) (v : V) (m : List (K × V)) → j ≢ k → find j (assign k v m) ≡ find j m
  unfolding find assign
  find-assign_ne k j v [] h = if_neg (dec k j) (λ e. ground arith) _ _
  find-assign_ne k j v ((i, w) ∷ m) h = ground (arith, find-assign_ne k j v m h)

  pub find-erase_self : (k : K) (m : List (K × V)) → find k (erase k m) ≡ none
  unfolding find erase
  find-erase_self k [] = refl
  find-erase_self k ((j, w) ∷ m) = ground (arith, find-erase_self k m)

  pub find-erase_ne : (k j : K) (m : List (K × V)) → j ≢ k → find j (erase k m) ≡ find j m
  unfolding find erase
  find-erase_ne k j [] h = refl
  find-erase_ne k j ((i, w) ∷ m) h = ground (arith, find-erase_ne k j m h)

  -- No key twice, as in every `unordered_map`.
  abbrev pub IsMap : List (K × V) → Type ℓ
  IsMap [] = Unit
  IsMap ((k, v) ∷ m) = (find k m ≡ none) × IsMap m

  pub assign-IsMap : (k : K) (v : V) (m : List (K × V)) → IsMap m → IsMap (assign k v m)
  unfolding assign find
  assign-IsMap k v [] h = (refl, tt)
  assign-IsMap k v ((j, w) ∷ m) h = elim (dec j k) [
    | yes p ↦ rw (if_pos (dec j k) p ((j, v) ∷ m) ((j, w) ∷ assign k v m)) (h.0, h.1)
    | no p ↦
        rw (if_neg (dec j k) p ((j, v) ∷ m) ((j, w) ∷ assign k v m))
          (find-assign_ne k j v m p ∙ h.0, assign-IsMap k v m h.1)
  ]

  find-erase-none : (k j : K) (m : List (K × V)) → find j m ≡ none → find j (erase k m) ≡ none
  unfolding find erase
  find-erase-none k j [] h = refl
  find-erase-none k j ((i, w) ∷ m) h = ground (arith, find-erase-none k j m)

  pub erase-IsMap : (k : K) (m : List (K × V)) → IsMap m → IsMap (erase k m)
  unfolding erase find
  erase-IsMap k [] h = tt
  erase-IsMap k ((j, w) ∷ m) h = elim (dec j k) [
    | yes p ↦ rw (if_pos (dec j k) p (erase k m) ((j, w) ∷ erase k m)) (erase-IsMap k m h.1)
    | no p ↦
        rw (if_neg (dec j k) p (erase k m) ((j, w) ∷ erase k m))
          (find-erase-none k j m h.0, erase-IsMap k m h.1)
  ]

  -- A fact about every entry that a lookup returns holds of all the entries of a map.
  pub All-entries {μ} :
      (P : K × V → Type μ) (m : List (K × V))
      → IsMap m
      → ((k : K) (v : V) → find k m ≡ some v → P (k, v))
      → All P m
  unfolding find
  All-entries P [] u h = tt
  All-entries P ((k, v) ∷ m) u h = (
    h k v (if_pos (dec k k) refl _ _),
    All-entries P m u.1 (λ j w e. h j w (ground (arith, u.0))),
  )

  pub find-All {μ} :
      (P : K × V → Type μ) (k : K) (v : V) (m : List (K × V))
      → find k m ≡ some v
      → All P m
      → P (k, v)
  unfolding find
  find-All P k v [] e h = cc
  find-All P k v ((j, w) ∷ m) e h = elim (dec j k) [
    | yes p ↦ subst P (ground arith) h.0
    | no p ↦ find-All P k v m (ground arith) h.1
  ]

  -- `m[k] = v` for every entry of a list.
  unfoldable pub assign_all : List (K × V) → List (K × V) → List (K × V)
  assign_all [] m = m
  assign_all ((k, v) ∷ es) m = assign_all es (assign k v m)

  find-assign_all-none :
      (k : K) (es m : List (K × V)) → find k es ≡ none → find k (assign_all es m) ≡ find k m
  unfolding find assign_all
  find-assign_all-none k [] m h = refl
  find-assign_all-none k ((j, w) ∷ es) m h =
      ground (arith, find-assign_all-none k es (assign j w m), find-assign_ne j k w m)

  find-assign_all-some :
      (k : K) (v : V) (es m : List (K × V))
      → IsMap es
      → find k es ≡ some v
      → find k (assign_all es m) ≡ some v
  unfolding find assign_all
  find-assign_all-some k v [] m u h = cc
  find-assign_all-some k v ((j, w) ∷ es) m u h = elim (dec j k) [
    | yes p ↦
        find-assign_all-none k es (assign j w m) (subst (λ i. find i es ≡ none) p u.0)
        ∙ subst (λ i. find k (assign i w m) ≡ some w) (sym p) (find-assign_self k w m)
        ∙ ground arith
    | no p ↦ find-assign_all-some k v es (assign j w m) u.1 (ground arith)
  ]

  -- A map whose entries are assigned one after the other is the same map.
  pub find-assign_all :
      (k : K) (es : List (K × V)) → IsMap es → find k (assign_all es []) ≡ find k es
  unfolding find
  find-assign_all k es u = elim (Option-cases (find k es)) [
    | inl e ↦ find-assign_all-none k es [] e ∙ sym e
    | inr (v, e) ↦ find-assign_all-some k v es [] u e ∙ sym e
  ]

  pub assign_all-IsMap : (es m : List (K × V)) → IsMap m → IsMap (assign_all es m)
  unfolding assign_all
  assign_all-IsMap [] m u = u
  assign_all-IsMap ((k, v) ∷ es) m u = assign_all-IsMap es (assign k v m) (assign-IsMap k v m u)

  pub All-assign {μ} :
      (P : K × V → Type μ) (k : K) (v : V) (m : List (K × V))
      → P (k, v)
      → All P m
      → All P (assign k v m)
  unfolding assign
  All-assign P k v [] p h = (p, tt)
  All-assign P k v ((j, w) ∷ m) p h = elim (dec j k) [
    | yes e ↦
        rw (if_pos (dec j k) e ((j, v) ∷ m) ((j, w) ∷ assign k v m))
          (subst (λ i. P (i, v)) (sym e) p, h.1)
    | no n ↦
        rw (if_neg (dec j k) n ((j, v) ∷ m) ((j, w) ∷ assign k v m)) (h.0, All-assign P k v m p h.1)
  ]

  pub All-assign_all {μ} :
      (P : K × V → Type μ) (es m : List (K × V)) → All P es → All P m → All P (assign_all es m)
  unfolding assign_all
  All-assign_all P [] m h k = k
  All-assign_all P (e ∷ es) m h k =
      All-assign_all P es (assign e.0 e.1 m) h.1 (All-assign P e.0 e.1 m h.0 k)

  pub All-erase {μ} : (P : K × V → Type μ) (k : K) (m : List (K × V)) → All P m → All P (erase k m)
  unfolding erase
  All-erase P k [] h = tt
  All-erase P k ((j, w) ∷ m) h = elim (dec j k) [
    | yes e ↦ rw (if_pos (dec j k) e (erase k m) ((j, w) ∷ erase k m)) (All-erase P k m h.1)
    | no n ↦ rw (if_neg (dec j k) n (erase k m) ((j, w) ∷ erase k m)) (h.0, All-erase P k m h.1)
  ]
