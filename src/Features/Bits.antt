-- ===== src/Features/Bits.antt =====
-- Shifts of 64-bit numbers, and the digits of `|` and `^`.
use Prim.Native.Nat.{max, digits, bit_or-bitwise, bit_xor-bitwise, bit_and-bitwise, differ, min}
use native.Mathlib.Nat.{pow-suc, div-one, div-div-eq-div-mul, mul_assoc}
use edrstore.Prelude.{
  ℕ, zero, suc, ◌+◌, ◌*◌, ◌/◌, ◌%◌, ◌^◌, ◌≤◌, ◌<◌, bit_and, bit_or, bit_xor, u64, Bool, true, false,
  not, ◌==◌, ◌≡◌, refl, sym, ap, ap₂, ◌∙◌, arith,
}

-- `a << k` and `a >> k` on `uint64_t`, and `a & (1 << i)` as a test.
abbrev pub shl : ℕ → ℕ → ℕ
shl a k = u64 (a * 2 ^ k)

abbrev pub shr : ℕ → ℕ → ℕ
shr a k = a / 2 ^ k

abbrev pub bit_set : ℕ → ℕ → Bool
bit_set a i = not (bit_and a (2 ^ i) == 0)

-- More digits to go than the number has do not change the result.
module _ (z : ℕ → ℕ) (f : ℕ → ℕ → ℕ) where
  enough_digits : (n m a b : ℕ) → a ≤ n → a ≤ m → digits z f n a b ≡ digits z f m a b
  enough_digits zero zero a b p q = refl
  enough_digits zero (suc m) zero b p q = refl
  enough_digits (suc n) zero zero b p q = refl
  enough_digits (suc n) (suc m) zero b p q = refl
  enough_digits zero (suc m) (suc a) b p q = absurd (omega arith)
  enough_digits (suc n) zero (suc a) b p q = absurd (omega arith)
  enough_digits (suc n) (suc m) (suc a) b p q =
      ap (λ t. t * 2 + f (suc a % 2) (b % 2))
        (enough_digits n m (suc a / 2) (b / 2) (omega arith) (omega arith))

differ-lt : (x y : ℕ) → x < 2 → y < 2 → differ x y < 2
differ-lt zero y p q = q
differ-lt (suc x) zero p q = p
differ-lt (suc x) (suc y) p q = differ-lt x y (omega arith) (omega arith)

max-lt : (x y : ℕ) → x < 2 → y < 2 → max x y < 2
max-lt x y p q = omega arith

-- The digits above the lowest.
pub bit_xor_half : (a b : ℕ) → bit_xor a b / 2 ≡ bit_xor (a / 2) (b / 2)
bit_xor_half zero b = omega (arith, bit_xor-bitwise 0 b, bit_xor-bitwise 0 (b / 2))
bit_xor_half (suc a) b = omega (
  arith,
  bit_xor-bitwise (suc a) b,
  bit_xor-bitwise (suc a / 2) (b / 2),
  differ-lt (suc a % 2) (b % 2) (omega arith) (omega arith),
  enough_digits (λ y. y) differ a (suc a / 2) (suc a / 2) (b / 2) (omega arith) (omega arith),
)

pub bit_or_half : (a b : ℕ) → bit_or a b / 2 ≡ bit_or (a / 2) (b / 2)
bit_or_half zero b = omega (arith, bit_or-bitwise 0 b, bit_or-bitwise 0 (b / 2))
bit_or_half (suc a) b = omega (
  arith,
  bit_or-bitwise (suc a) b,
  bit_or-bitwise (suc a / 2) (b / 2),
  max-lt (suc a % 2) (b % 2) (omega arith) (omega arith),
  enough_digits (λ y. y) max a (suc a / 2) (suc a / 2) (b / 2) (omega arith) (omega arith),
)

half-div_pow : (a k : ℕ) → a / 2 / 2 ^ k ≡ a / 2 ^ suc k
half-div_pow a k =
    div-div-eq-div-mul a 2 (2 ^ k)
    ∙ ap (λ t. a / t) (let h : 2 * 2 ^ k ≡ 2 ^ suc k = omega (arith, pow-suc 2 k) in h)

-- The digits above the lowest `k`.
pub bit_xor_shr : (k a b : ℕ) → bit_xor a b / 2 ^ k ≡ bit_xor (a / 2 ^ k) (b / 2 ^ k)
bit_xor_shr zero a b = div-one (bit_xor a b) ∙ sym (ap₂ bit_xor (div-one a) (div-one b))
bit_xor_shr (suc k) a b =
    sym (half-div_pow (bit_xor a b) k)
    ∙ ap (λ t. t / 2 ^ k) (bit_xor_half a b)
    ∙ bit_xor_shr k (a / 2) (b / 2)
    ∙ ap₂ bit_xor (half-div_pow a k) (half-div_pow b k)

pub bit_or_shr : (k a b : ℕ) → bit_or a b / 2 ^ k ≡ bit_or (a / 2 ^ k) (b / 2 ^ k)
bit_or_shr zero a b = div-one (bit_or a b) ∙ sym (ap₂ bit_or (div-one a) (div-one b))
bit_or_shr (suc k) a b =
    sym (half-div_pow (bit_or a b) k)
    ∙ ap (λ t. t / 2 ^ k) (bit_or_half a b)
    ∙ bit_or_shr k (a / 2) (b / 2)
    ∙ ap₂ bit_or (half-div_pow a k) (half-div_pow b k)

module _ (a b k : ℕ) where
  -- The digits above are not there where they are not in the operands.
  pub bit_xor-zero : a / 2 ^ k ≡ 0 → b / 2 ^ k ≡ 0 → bit_xor a b / 2 ^ k ≡ 0
  bit_xor-zero p q = bit_xor_shr k a b ∙ ap₂ bit_xor p q

  pub bit_or-zero : a / 2 ^ k ≡ 0 → b / 2 ^ k ≡ 0 → bit_or a b / 2 ^ k ≡ 0
  bit_or-zero p q = bit_or_shr k a b ∙ ap₂ bit_or p q

  -- Equal digits above cancel out.
  pub bit_xor_same : (t : ℕ) → t < 2 → a / 2 ^ k ≡ t → b / 2 ^ k ≡ t → bit_xor a b / 2 ^ k ≡ 0
  bit_xor_same zero small p q = bit_xor_shr k a b ∙ ap₂ bit_xor p q
  bit_xor_same (suc zero) small p q = bit_xor_shr k a b ∙ ap₂ bit_xor p q
  bit_xor_same (suc (suc t)) small p q = absurd (omega arith)

bit_and_next : (a b : ℕ) → bit_and a b ≡ bit_and (a / 2) (b / 2) * 2 + min (a % 2) (b % 2)
bit_and_next zero b = omega (arith, bit_and-bitwise 0 b, bit_and-bitwise 0 (b / 2))
bit_and_next (suc a) b = omega (
  arith,
  bit_and-bitwise (suc a) b,
  bit_and-bitwise (suc a / 2) (b / 2),
  enough_digits (λ y. 0) min a (suc a / 2) (suc a / 2) (b / 2) (omega arith) (omega arith),
)

no_digits : (n a : ℕ) → digits (λ y. 0) min n a 0 ≡ 0
no_digits zero a = refl
no_digits (suc n) zero = refl
no_digits (suc n) (suc a) = omega (arith, no_digits n (suc a / 2))

-- The test of one bit.
bit_and_pow : (k a : ℕ) → bit_and a (2 ^ k) ≡ a / 2 ^ k % 2 * 2 ^ k
bit_and_pow zero a =
    omega (arith, bit_and_next a 1, bit_and-bitwise (a / 2) 0, no_digits (a / 2) (a / 2), div-one a)
bit_and_pow (suc k) a =
    let even : 2 ^ suc k / 2 ≡ 2 ^ k = omega (arith, pow-suc 2 k) in
    let next : bit_and a (2 ^ suc k) ≡ bit_and (a / 2) (2 ^ suc k / 2) * 2 =
      omega (arith, bit_and_next a (2 ^ suc k), pow-suc 2 k) in
    next
    ∙ ap (λ t. bit_and (a / 2) t * 2) even
    ∙ ap (λ t. t * 2) (bit_and_pow k (a / 2))
    ∙ ap (λ t. t % 2 * 2 ^ k * 2) (half-div_pow a k)
    ∙ (let h : a / 2 ^ suc k % 2 * 2 ^ k * 2 ≡ a / 2 ^ suc k % 2 * 2 ^ suc k =
          mul_assoc (a / 2 ^ suc k % 2) (2 ^ k) 2
          ∙ ap (λ t. a / 2 ^ suc k % 2 * t) (sym (pow-suc 2 k)) in
        h)

-- On 64-bit numbers the test of the highest bit tells whether it is there.
pub bit_set-top : (a : ℕ) → bit_set a 63 ≡ true → a < 2 ^ 64 → a / 2 ^ 63 ≡ 1
bit_set-top a e small = ground (arith, bit_and_pow 63 a)

pub not_bit_set-top : (a : ℕ) → bit_set a 63 ≡ false → a < 2 ^ 64 → a / 2 ^ 63 ≡ 0
not_bit_set-top a e small = ground (arith, bit_and_pow 63 a)
