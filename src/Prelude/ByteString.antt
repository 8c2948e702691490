-- ===== src/Prelude/ByteString.antt =====
-- Byte strings, and the little-endian layout of the fixed-width integers in memory and in files.
use Prim.Native.Nat.{ℕ, zero, suc, ◌+◌, ◌*◌, ◌/◌, ◌%◌, ◌^◌, ◌<◌}
use mathlib.Core.Path.{◌≡◌, refl, ap}
use mathlib.Core.List.{List, [], ◌∷◌}
use native.Mathlib.Decide.{ℕ_discrete}
use native.Mathlib.Nat.{pow-suc}
use native.Mathlib.Omega.{arith}
use edrstore.Prelude.Lists.{length}

abbrev pub Bytes : Type 0
Bytes = List ℕ

list_discrete : Discrete Bytes
list_discrete = hlevel ℕ_discrete

unfoldable pub bytes_discrete : Discrete Bytes
unfolding list_discrete
bytes_discrete = list_discrete

-- The `w` bytes of the integer `n`, lowest first.
unfoldable pub le_bytes : ℕ → ℕ → Bytes
le_bytes zero n = []
le_bytes (suc w) n = n % 256 ∷ le_bytes w (n / 256)

-- The integer that bytes stand for.
unfoldable pub le_value : Bytes → ℕ
le_value [] = 0
le_value (b ∷ bs) = b + 256 * le_value bs

pub length-le_bytes : (w n : ℕ) → length (le_bytes w n) ≡ w
unfolding le_bytes
length-le_bytes zero n = refl
length-le_bytes (suc w) n = ap suc (length-le_bytes w (n / 256))

pub le_value-le_bytes : (w n : ℕ) → n < 256 ^ w → le_value (le_bytes w n) ≡ n
unfolding le_bytes le_value
le_value-le_bytes zero n h = omega arith
le_value-le_bytes (suc w) n h =
    omega (arith, pow-suc 256 w, le_value-le_bytes w (n / 256) (omega (arith, pow-suc 256 w)))
