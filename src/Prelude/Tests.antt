-- ===== src/Prelude/Tests.antt =====
-- Boolean tests on the native numbers, the conditional, and the widths of the C integers.
use Prim.Native.Nat.{ℕ, ◌%◌, ◌^◌, compare, Ordering}
use mathlib.Core.Path.{◌≡◌, refl}
use mathlib.Core.Logic.{◌↔◌, ◌⊎◌, inl, inr}
use mathlib.Core.Bool.{Bool, true, false}
use mathlib.Core.Option.{Option, none, some}
use native.Mathlib.Omega.{arith}
use native.Mathlib.Nat.{mod_self}
use native.Mathlib.Decide.{ℕ_discrete}
use mathlib.Core.Path.{ap, ◌∙◌}
use Prim.Native.Nat.{◌≤◌, ◌<◌}

abbrev pub ltb : ℕ → ℕ → Bool
ltb a b = elim (compare a b) [ Ordering.lt ↦ true | _ ↦ false ]

abbrev pub leb : ℕ → ℕ → Bool
leb a b = elim (compare a b) [ Ordering.gt ↦ false | _ ↦ true ]

infix 50 ◌==◌
abbrev pub ◌==◌ : ℕ → ℕ → Bool
a == b = elim (compare a b) [ Ordering.eq ↦ true | _ ↦ false ]

infix 1 if◌then◌else◌
abbrev pub if◌then◌else◌ {ℓ} : {A : Type ℓ} → Bool → A → A → A
if true then x else y = x
if false then x else y = y

-- `uint32_t` and `uint64_t` (also `size_t`): what is stored of a result.
abbrev pub u32 : ℕ → ℕ
u32 n = n % 2 ^ 32

abbrev pub u64 : ℕ → ℕ
u64 n = n % 2 ^ 64

pub ==_iff : (a b : ℕ) → ((a == b) ≡ true) ↔ (a ≡ b)
==_iff a b = ground arith

pub Bool-cases : (b : Bool) → (b ≡ true) ⊎ (b ≡ false)
Bool-cases true = inl refl
Bool-cases false = inr refl

pub Option-cases {ℓ} : {A : Type ℓ} (o : Option A) → (o ≡ none) ⊎ ((a : A) × (o ≡ some a))
Option-cases none = inl refl
Option-cases (some a) = inr (a, refl)

-- A count that the batch size does not divide is below it.
pub not_full-lt : (batch n : ℕ) → n ≤ batch → (n % batch == 0) ≡ false → n < batch
not_full-lt batch n l e = elim (ℕ_discrete n batch) [
  | yes p ↦ let z : n % batch ≡ 0 = ap (λ k. k % batch) p ∙ mod_self batch in absurd (ground arith)
  | no p ↦ (let h : n < batch = omega arith in h)
]

-- A test for 0 of a number that is not.
pub not_zero-elim {ℓ} :
    {A : Type ℓ} (n : ℕ) (a b : A) → 0 < n → elim (n == 0) as (λ _. A) [ true ↦ a | false ↦ b ] ≡ b
not_zero-elim {A} n a b pos =
    let h : (n == 0) ≡ false = ground arith in
    ap (λ t. elim t as (λ _. A) [ true ↦ a | false ↦ b ]) h
