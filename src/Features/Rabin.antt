-- ===== src/Features/Rabin.antt =====
-- EDRStore/src/chunker/rabin_poly.cc: the rolling fingerprint of a window of bytes. A table that is
-- read outside of its 256 entries is `none`.
use edrstore.Prelude.{
  ℕ, zero, suc, ◌+◌, ◌-◌, ◌*◌, ◌/◌, ◌^◌, List, [], ◌∷◌, Option, none, some, true, false, Bytes,
  get_elem?, set, replicate, bit_or, bit_xor, leb, ltb, ◌==◌, if◌then◌else◌, u32,
}
use edrstore.Features.Bits.{shl, shr, bit_set}

-- `if (!(x & mask)) { x <<= n; r -= n; }`, where the mask has the upper `n` of 32 bits.
unfoldable pub fls_step : ℕ → ℕ × ℕ → ℕ × ℕ
fls_step n (x, r) = if x / 2 ^ (32 - n) == 0 then (u32 (x * 2 ^ n), r - n) else (x, r)

unfoldable pub fls32 : ℕ → ℕ
unfolding fls_step
fls32 x =
    if x == 0
    then 0
    else (fls_step 1 (fls_step 2 (fls_step 4 (fls_step 8 (fls_step 16 (x, 32)))))).1

unfoldable pub fls64 : ℕ → ℕ
unfolding fls32
fls64 v = let h = shr v 32 in if h == 0 then fls32 v else 32 + fls32 h

-- The loop of `polymod` over the upper word, for the bits below `n`.
unfoldable pub mod_high : ℕ → ℕ → ℕ × ℕ → ℕ × ℕ
mod_high d zero (nh, nl) = (nh, nl)
mod_high d (suc i) (nh, nl) =
    mod_high d i
      (if bit_set nh i then (bit_xor nh (shr d (63 - i)), bit_xor nl (shl d (i + 1))) else (nh, nl))

-- The loop over the lower word, for the bits below `n` down to `k`.
unfoldable pub mod_low : ℕ → ℕ → ℕ → ℕ → ℕ
mod_low d k zero nl = nl
mod_low d k (suc i) nl = elim (leb k i) [
  | true ↦ mod_low d k i (if bit_set nl i then bit_xor nl (shr d (63 - i)) else nl)
  | false ↦ nl
]

unfoldable pub polymod : ℕ → ℕ → ℕ → ℕ
unfolding fls64 mod_high mod_low
polymod nh nl d0 =
    let k = fls64 d0 - 1 in
    let d = shl d0 (63 - k) in
    let nh' = if bit_set nh 63 then bit_xor nh d else nh in
    let (_, low) = if nh == 0 then (nh, nl) else mod_high d 63 (nh', nl) in mod_low d k 64 low

-- The loop of `polymult`, for the bits from `i` on, `n` of them.
unfoldable pub mult_loop : ℕ → ℕ → ℕ → ℕ → ℕ × ℕ → ℕ × ℕ
mult_loop x y zero i (ph, pl) = (ph, pl)
mult_loop x y (suc n) i (ph, pl) =
    mult_loop x y n (i + 1)
      (if bit_set x i then (bit_xor ph (shr y (64 - i)), bit_xor pl (shl y i)) else (ph, pl))

unfoldable pub polymult : ℕ → ℕ → ℕ × ℕ
unfolding mult_loop
polymult x y = mult_loop x y 63 1 (0, if bit_set x 0 then y else 0)

unfoldable pub polymmult : ℕ → ℕ → ℕ → ℕ
unfolding polymult polymod
polymmult x y d = let (h, l) = polymult x y in polymod h l d

abbrev pub fp_poly : ℕ
fp_poly = 0xbfe6b8a5bf378d83

-- The members of `RabinFPUtil`.
pub record RabinFpUtil : Type 0 where
  pub window_size : ℕ
  pub shift : ℕ
  pub t_table : List ℕ
  pub u_table : List ℕ

-- The table `f(0), ..., f(255)`, with `from` and the number of entries.
unfoldable pub table : (ℕ → ℕ) → ℕ → ℕ → List ℕ
table f from zero = []
table f from (suc n) = f from ∷ table f (from + 1) n

-- `Append8`
unfoldable pub append8 : List ℕ → ℕ → ℕ → ℕ → Option ℕ
append8 t_table shift p m = elim (get_elem? t_table (shr p shift)) [
  | some t ↦ some (bit_xor (bit_or (shl p 8) m) t)
  | none ↦ none
]

-- The loop of `sizeshift`, with fuel, from the round `i` on. The counter has 32 bits, the window 64: with
-- a window of 2^32 bytes and more the loop does not end, and no fuel is enough.
unfoldable pub size_shift : List ℕ → ℕ → ℕ → ℕ → ℕ → ℕ → Option ℕ
unfolding append8
size_shift t_table shift window_size zero i p = none
size_shift t_table shift window_size (suc fuel) i p =
    let rest = elim (append8 t_table shift p 0) as (λ _. Option ℕ) [
      | some q ↦ size_shift t_table shift window_size fuel (u32 (i + 1)) q
      | none ↦ none
    ] in
    if ltb i window_size then rest else some p

unfoldable pub x_shift : ℕ
unfolding fls64
x_shift = fls64 fp_poly - 1

-- `T_[i]`, with `T1`.
unfoldable pub t_entry : ℕ → ℕ → ℕ
unfolding polymmult x_shift
t_entry t1 i = bit_or (polymmult i t1 fp_poly) (shl i x_shift)

unfoldable pub t_table_of : ℕ → List ℕ
unfolding table t_entry
t_table_of t1 = table (t_entry t1) 0 256

unfoldable pub u_table_of : ℕ → List ℕ
unfolding table polymmult
u_table_of sizeshift = table (λ i. polymmult i sizeshift fp_poly) 0 256

-- The constructor from the computation of the tables on. As many rounds as the window has bytes are
-- enough for a window that the counter reaches.
unfoldable pub new_tables : ℕ → ℕ → ℕ → Option RabinFpUtil
unfolding t_table_of u_table_of size_shift
new_tables window_size shift t1 =
    elim (size_shift (t_table_of t1) shift window_size window_size 1 1) [
      | some sizeshift ↦ some (record {
        window_size = window_size;
        shift = shift;
        t_table = t_table_of t1;
        u_table = u_table_of sizeshift;
      })
      | none ↦ none
    ]

-- The constructor.
unfoldable pub new_util : ℕ → Option RabinFpUtil
unfolding new_tables polymod x_shift
new_util window_size = new_tables window_size (x_shift - 8) (polymod 0 (shl 1 x_shift) fp_poly)

-- `RabinCtx_t`
pub record RabinCtx : Type 0 where
  pub cur_pos : ℕ
  pub circ_buf : Bytes
  pub fp : ℕ

-- `NewCtx` and `ResetCtx`; the position -1 is of type `uint32_t`.
unfoldable pub reset_ctx : RabinFpUtil → RabinCtx
reset_ctx util = record { cur_pos = 2 ^ 32 - 1; circ_buf = replicate util.window_size 0; fp = 0 }

-- The fingerprint after the old byte `om` has left and a byte has come.
unfoldable pub roll : RabinFpUtil → ℕ → ℕ → ℕ → Option ℕ
unfolding append8
roll util fp om input_byte = elim (get_elem? util.u_table om) [
  | some u ↦ append8 util.t_table util.shift (bit_xor fp u) input_byte
  | none ↦ none
]

-- `SlideOneByte`
unfoldable pub slide_one_byte : RabinFpUtil → ℕ → RabinCtx → Option RabinCtx
unfolding roll
slide_one_byte util input_byte ctx =
    let next = u32 (ctx.cur_pos + 1) in
    let pos = if leb util.window_size next then 0 else next in
    elim (get_elem? ctx.circ_buf pos) [
      | some om ↦ elim (roll util ctx.fp om input_byte) [
        | some fp ↦
            some (record { cur_pos = pos; circ_buf = set ctx.circ_buf pos input_byte; fp = fp })
        | none ↦ none
      ]
      | none ↦ none
    ]
