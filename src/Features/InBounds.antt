-- ===== src/Features/InBounds.antt =====
-- The fingerprint has 63 bits, so that its upper 8 bits, by which `Append8` reads its table, are
-- always an index of the table.
use edrstore.Prelude.{
  ℕ, zero, suc, ◌+◌, ◌-◌, ◌/◌, ◌%◌, ◌^◌, ◌<◌, ◌≤◌, ltb, List, [], ◌∷◌, Option, none, some, Bytes,
  get_elem?, set, length, length-set, replicate, length-replicate, bit_or, bit_xor, leb, ◌==◌,
  if◌then◌else◌, u32, Bool-cases, inl, inr, All, ◌≡◌, refl, sym, ap, ap₂, ◌∙◌, arith, subst,
}
use edrstore.Features.Bits.{
  shl, shr, bit_set, bit_set-top, not_bit_set-top, bit_xor-zero, bit_xor_same, bit_or_shr,
}
use edrstore.Features.Rabin.{
  mod_high, mod_low, polymod, mult_loop, polymult, polymmult, fp_poly, RabinFpUtil, table, append8,
  size_shift, x_shift, t_entry, t_table_of, u_table_of, new_tables, new_util, RabinCtx, reset_ctx,
  roll, slide_one_byte,
}

high-lt : (a : ℕ) → a / 2 ^ 64 ≡ 0 → a < 2 ^ 64
high-lt a e = omega arith

lt-high : (a : ℕ) → a < 2 ^ 64 → a / 2 ^ 64 ≡ 0
lt-high a e = omega arith

bit_xor-lt : (a b : ℕ) → a < 2 ^ 64 → b < 2 ^ 64 → bit_xor a b < 2 ^ 64
bit_xor-lt a b p q = high-lt (bit_xor a b) (bit_xor-zero a b 64 (lt-high a p) (lt-high b q))

shl-lt : (a k : ℕ) → shl a k < 2 ^ 64
shl-lt a k = omega arith

mod_high-lt : (d n : ℕ) (h : ℕ × ℕ) → h.1 < 2 ^ 64 → (mod_high d n h).1 < 2 ^ 64
unfolding mod_high
mod_high-lt d zero h small = small
mod_high-lt d (suc i) h small = elim (Bool-cases (bit_set h.0 i)) [
  | inl e ↦
      rw (e, mod_high)
        (mod_high-lt d i (bit_xor h.0 (shr d (63 - i)), bit_xor h.1 (shl d (i + 1)))
          (bit_xor-lt h.1 (shl d (i + 1)) small (shl-lt d (i + 1))))
  | inr e ↦ rw (e, mod_high) (mod_high-lt d i h small)
]

-- The last step of the division by a polynomial of degree 63.
mod_low-lt : (nl : ℕ) → nl < 2 ^ 64 → mod_low fp_poly 63 64 nl < 2 ^ 63
unfolding mod_low
mod_low-lt nl small = elim (Bool-cases (bit_set nl 63)) [
  | inl e ↦
      let cleared : bit_xor nl fp_poly / 2 ^ 63 ≡ 0 =
        bit_xor_same nl fp_poly 63 1 (omega arith) (bit_set-top nl e small) refl in
      subst (λ b. (if b then bit_xor nl fp_poly else nl) < 2 ^ 63) (sym e) (omega (arith, cleared))
  | inr e ↦
      let no_top = not_bit_set-top nl e small in
      subst (λ b. (if b then bit_xor nl fp_poly else nl) < 2 ^ 63) (sym e) (omega (arith, no_top))
]

polymod-lt : (nh nl : ℕ) → nl < 2 ^ 64 → polymod nh nl fp_poly < 2 ^ 63
unfolding polymod
polymod-lt nh nl small = elim (Bool-cases (nh == 0)) [
  | inl e ↦
      subst
        (λ b.
          mod_low fp_poly 63 64
            (if b
              then (nh, nl)
              else mod_high fp_poly 63 ((if bit_set nh 63 then bit_xor nh fp_poly else nh), nl)).1
          < 2 ^ 63)
        (sym e) (mod_low-lt nl small)
  | inr e ↦
      let h : ℕ × ℕ = (if bit_set nh 63 then bit_xor nh fp_poly else nh, nl) in
      subst (λ b. mod_low fp_poly 63 64 (if b then (nh, nl) else mod_high fp_poly 63 h).1 < 2 ^ 63)
        (sym e) (mod_low-lt ((mod_high fp_poly 63 h).1) (mod_high-lt fp_poly 63 h small))
]

mult_loop-lt : (x y n i : ℕ) (p : ℕ × ℕ) → p.1 < 2 ^ 64 → (mult_loop x y n i p).1 < 2 ^ 64
unfolding mult_loop
mult_loop-lt x y zero i p small = small
mult_loop-lt x y (suc n) i p small = elim (Bool-cases (bit_set x i)) [
  | inl e ↦
      rw (e, mult_loop)
        (mult_loop-lt x y n (i + 1) (bit_xor p.0 (shr y (64 - i)), bit_xor p.1 (shl y i))
          (bit_xor-lt p.1 (shl y i) small (shl-lt y i)))
  | inr e ↦ rw (e, mult_loop) (mult_loop-lt x y n (i + 1) p small)
]

polymmult-lt : (x y : ℕ) → y < 2 ^ 64 → polymmult x y fp_poly < 2 ^ 63
unfolding polymmult polymult
polymmult-lt x y small =
    let first : (if bit_set x 0 then y else 0) < 2 ^ 64 = elim (Bool-cases (bit_set x 0)) [
      | inl e ↦ subst (λ b. (if b then y else 0) < 2 ^ 64) (sym e) small
      | inr e ↦ subst (λ b. (if b then y else 0) < 2 ^ 64) (sym e) (omega arith)
    ] in
    polymod-lt ((polymult x y).0) ((polymult x y).1)
      (mult_loop-lt x y 63 1 (0, if bit_set x 0 then y else 0) first)

x_shift_lem : x_shift ≡ 63
unfolding x_shift
x_shift_lem = refl

zero-bit_or : (b : ℕ) → b < 2 → bit_or 0 b ≡ b
zero-bit_or zero h = refl
zero-bit_or (suc zero) h = refl
zero-bit_or (suc (suc b)) h = absurd (omega arith)

bit_or-zero_right : (a : ℕ) → a < 2 → bit_or a 0 ≡ a
bit_or-zero_right zero h = refl
bit_or-zero_right (suc zero) h = refl
bit_or-zero_right (suc (suc a)) h = absurd (omega arith)

-- The highest bit of an entry of `T_` is the lowest of its index.
t_entry-top : (t1 i : ℕ) → t1 < 2 ^ 64 → t_entry t1 i / 2 ^ 63 ≡ i % 2
unfolding t_entry
t_entry-top t1 i small =
    let low = polymmult-lt i t1 small in
    let no_top : polymmult i t1 fp_poly / 2 ^ 63 ≡ 0 = omega arith in
    let top : shl i 63 / 2 ^ 63 ≡ i % 2 = omega arith in
    ap (λ k. bit_or (polymmult i t1 fp_poly) (shl i k) / 2 ^ 63) x_shift_lem
    ∙ bit_or_shr 63 (polymmult i t1 fp_poly) (shl i 63)
    ∙ ap₂ bit_or no_top top
    ∙ zero-bit_or (i % 2) (omega arith)

get_elem?-table :
    (f : ℕ → ℕ) (from n i : ℕ) → i < n → get_elem? (table f from n) i ≡ some (f (from + i))
unfolding table
get_elem?-table f from zero i h = absurd (omega arith)
get_elem?-table f from (suc n) zero h = ap (λ k. some (f k)) (omega arith)
get_elem?-table f from (suc n) (suc i) h =
    get_elem?-table f (from + 1) n i (omega arith) ∙ ap (λ k. some (f k)) (omega arith)

-- A table of 256 entries whose highest bits cancel those of what is shifted out.
abbrev IsModTable : List ℕ → Type 0
IsModTable t_table =
    (i : ℕ) → i < 256 → (t : ℕ) × (get_elem? t_table i ≡ some t) × (t / 2 ^ 63 ≡ i % 2)

append8-lt :
    (t_table : List ℕ) (p m : ℕ)
    → IsModTable t_table
    → p < 2 ^ 63
    → m < 256
    → (q : ℕ) × (append8 t_table 55 p m ≡ some q) × (q < 2 ^ 63)
unfolding append8
append8-lt t_table p m h p63 m8 =
    let (t, found, top) = h (shr p 55) (omega arith) in
    let x = bit_or (shl p 8) m in
    let shifted : shl p 8 / 2 ^ 63 ≡ shr p 55 % 2 = omega arith in
    let no_top : m / 2 ^ 63 ≡ 0 = omega arith in
    let x_top : x / 2 ^ 63 ≡ shr p 55 % 2 =
      bit_or_shr 63 (shl p 8) m
      ∙ ap₂ bit_or shifted no_top
      ∙ bit_or-zero_right (shr p 55 % 2) (omega arith) in
    let cancel = bit_xor_same x t 63 (shr p 55 % 2) (omega arith) x_top top in
    (
      bit_xor x t,
      ap (λ o. elim o as (λ _. Option ℕ) [ some t ↦ some (bit_xor x t) | none ↦ none ]) found,
      omega (arith, cancel),
    )

size_shift-lt :
    (t_table : List ℕ) (window_size fuel i p : ℕ)
    → IsModTable t_table
    → window_size < 2 ^ 32
    → i ≤ window_size
    → window_size < fuel + i
    → p < 2 ^ 63
    → (q : ℕ) × (size_shift t_table 55 window_size fuel i p ≡ some q) × (q < 2 ^ 63)
unfolding size_shift
size_shift-lt t_table window_size zero i p h fits le enough small = absurd (omega arith)
size_shift-lt t_table window_size (suc fuel) i p h fits le enough small =
    let round : Option ℕ → Option ℕ = (λ o. elim o as (λ _. Option ℕ) [
      | some q ↦ size_shift t_table 55 window_size fuel (u32 (i + 1)) q
      | none ↦ none
    ]) in
    elim (Bool-cases (ltb i window_size)) [
      | inl more ↦
          let below : i < window_size = ground arith in
          let next : u32 (i + 1) ≡ i + 1 = omega arith in
          let (q, first, q_small) = append8-lt t_table p 0 h small (omega arith) in
          let (r, rest, r_small) =
            size_shift-lt t_table window_size fuel (i + 1) q h fits (omega arith) (omega arith)
              q_small in
          (
            r,
            ap (λ b. if b then round (append8 t_table 55 p 0) else some p) more
                ∙ ap round first
                ∙ ap (λ k. size_shift t_table 55 window_size fuel k q) next
                ∙ rest,
            r_small,
          )
      | inr done ↦ (p, ap (λ b. if b then round (append8 t_table 55 p 0) else some p) done, small)
    ]

-- What the constructor establishes.
pub record IsUtil (util : RabinFpUtil) : Type 0 where
  pub t_mod : IsModTable util.t_table
  pub u_small : (i : ℕ) → i < 256 → (u : ℕ) × (get_elem? util.u_table i ≡ some u) × (u < 2 ^ 63)
  pub shift : util.shift ≡ 55
  pub window : 0 < util.window_size

entry_of_table : (f : ℕ → ℕ) (i : ℕ) → i < 256 → get_elem? (table f 0 256) i ≡ some (f i)
entry_of_table f i h = get_elem?-table f 0 256 i h ∙ ap (λ k. some (f k)) (omega arith)

t_table_of-IsModTable : (t1 : ℕ) → t1 < 2 ^ 64 → IsModTable (t_table_of t1)
unfolding t_table_of
t_table_of-IsModTable t1 small i h =
    (t_entry t1 i, entry_of_table (t_entry t1) i h, t_entry-top t1 i small)

u_table_of-lt :
    (q i : ℕ)
    → q < 2 ^ 63
    → i < 256
    → (u : ℕ) × (get_elem? (u_table_of q) i ≡ some u) × (u < 2 ^ 63)
unfolding u_table_of
u_table_of-lt q i small h = (
  polymmult i q fp_poly,
  entry_of_table (λ i. polymmult i q fp_poly) i h,
  polymmult-lt i q (omega arith),
)

new_tables-IsUtil :
    (window_size t1 : ℕ)
    → 0 < window_size
    → window_size < 2 ^ 32
    → t1 < 2 ^ 64
    → (util : RabinFpUtil) × (new_tables window_size 55 t1 ≡ some util)
      × IsUtil util
      × (util.window_size ≡ window_size)
unfolding new_tables
new_tables-IsUtil window_size t1 pos fits small =
    let t_mod = t_table_of-IsModTable t1 small in
    let (q, runs, q_small) =
      size_shift-lt (t_table_of t1) window_size window_size 1 1 t_mod fits (omega arith)
        (omega arith) (omega arith) in
    (
      record {
        window_size = window_size;
        shift = 55;
        t_table = t_table_of t1;
        u_table = u_table_of q;
      },
      ap
          (λ o. elim o as (λ _. Option RabinFpUtil) [
            | some sizeshift ↦ some (record {
              window_size = window_size;
              shift = 55;
              t_table = t_table_of t1;
              u_table = u_table_of sizeshift;
            })
            | none ↦ none
          ])
          runs,
      record {
        t_mod = t_mod;
        u_small = λ i h. u_table_of-lt q i q_small h;
        shift = refl;
        window = pos;
      },
      refl,
    )

pub new_util-IsUtil :
    (window_size : ℕ)
    → 0 < window_size
    → window_size < 2 ^ 32
    → (util : RabinFpUtil) × (new_util window_size ≡ some util)
      × IsUtil util
      × (util.window_size ≡ window_size)
unfolding new_util
new_util-IsUtil window_size pos fits =
    let t1 = polymod 0 (shl 1 63) fp_poly in
    let t1_small : t1 < 2 ^ 64 = omega (arith, polymod-lt 0 (shl 1 63) (shl-lt 1 63)) in
    let (util, made, is_util, size) = new_tables-IsUtil window_size t1 pos fits t1_small in
    (
      util,
      ap (λ k. new_tables window_size (k - 8) (polymod 0 (shl 1 k) fp_poly)) x_shift_lem ∙ made,
      is_util,
      size,
    )

-- A context of the window's size, with bytes and a fingerprint of 63 bits.
pub record IsCtx (util : RabinFpUtil) (ctx : RabinCtx) : Type 0 where
  pub size : length ctx.circ_buf ≡ util.window_size
  pub bytes : All (λ b. b < 256) ctx.circ_buf
  pub fp_small : ctx.fp < 2 ^ 63

replicate-bytes : (n : ℕ) → All (λ b. b < 256) (replicate n 0)
unfolding replicate
replicate-bytes zero = tt
replicate-bytes (suc n) = (omega arith, replicate-bytes n)

pub reset_ctx-IsCtx : (util : RabinFpUtil) → IsCtx util (reset_ctx util)
unfolding reset_ctx
reset_ctx-IsCtx util = record {
  size = length-replicate {A = ℕ} util.window_size 0;
  bytes = replicate-bytes util.window_size;
  fp_small = omega arith;
}

byte_at :
    (xs : Bytes) (i : ℕ)
    → i < length xs
    → All (λ b. b < 256) xs
    → (b : ℕ) × (get_elem? xs i ≡ some b) × (b < 256)
byte_at [] i h k = absurd (omega arith)
byte_at (x ∷ xs) zero h k = (x, refl, k.0)
byte_at (x ∷ xs) (suc i) h k = byte_at xs i (omega arith) k.1

set-bytes :
    (xs : Bytes) (i b : ℕ) → b < 256 → All (λ b. b < 256) xs → All (λ b. b < 256) (set xs i b)
set-bytes [] i b h k = tt
set-bytes (x ∷ xs) zero b h k = (h, k.1)
set-bytes (x ∷ xs) (suc i) b h k = (k.0, set-bytes xs i b h k.1)

roll-lt :
    (util : RabinFpUtil) (fp om b : ℕ)
    → IsUtil util
    → fp < 2 ^ 63
    → om < 256
    → b < 256
    → (q : ℕ) × (roll util fp om b ≡ some q) × (q < 2 ^ 63)
unfolding roll
roll-lt util fp om b h fp_small om_small b_small =
    let (u, found, u_small) = h.u_small om om_small in
    let low : bit_xor fp u / 2 ^ 63 ≡ 0 = bit_xor-zero fp u 63 (omega arith) (omega arith) in
    let (q, added, q_small) =
      append8-lt util.t_table (bit_xor fp u) b h.t_mod (omega (arith, low)) b_small in
    (
      q,
      ap
            (λ o. elim o as (λ _. Option ℕ) [
              | some u ↦ append8 util.t_table util.shift (bit_xor fp u) b
              | none ↦ none
            ])
            found
          ∙ ap (λ k. append8 util.t_table k (bit_xor fp u) b) h.shift
          ∙ added,
      q_small,
    )

-- `SlideOneByte` of a byte stays within its tables and its window, and keeps a fingerprint of 63 bits.
pub slide_one_byte-IsCtx :
    (util : RabinFpUtil) (b : ℕ) (ctx : RabinCtx)
    → IsUtil util
    → b < 256
    → IsCtx util ctx
    → (ctx' : RabinCtx) × (slide_one_byte util b ctx ≡ some ctx') × IsCtx util ctx'
unfolding slide_one_byte
slide_one_byte-IsCtx util b ctx h b_small c =
    let next = u32 (ctx.cur_pos + 1) in
    let pos = if leb util.window_size next then 0 else next in
    let inside : pos < length ctx.circ_buf = ground (arith, h.window, c.size) in
    let (om, found, om_small) = byte_at ctx.circ_buf pos inside c.bytes in
    let (fp, rolled, fp_small) = roll-lt util ctx.fp om b h c.fp_small om_small b_small in
    (
      record { cur_pos = pos; circ_buf = set ctx.circ_buf pos b; fp = fp },
      ap
            (λ o. elim o as (λ _. Option RabinCtx) [
              | some om ↦ elim (roll util ctx.fp om b) [
                | some fp ↦
                    some (record { cur_pos = pos; circ_buf = set ctx.circ_buf pos b; fp = fp })
                | none ↦ none
              ]
              | none ↦ none
            ])
            found
          ∙ ap
              (λ o. elim o as (λ _. Option RabinCtx) [
                | some fp ↦
                    some (record { cur_pos = pos; circ_buf = set ctx.circ_buf pos b; fp = fp })
                | none ↦ none
              ])
              rolled,
      record {
        size = length-set ctx.circ_buf pos b ∙ c.size;
        bytes = set-bytes ctx.circ_buf pos b b_small c.bytes;
        fp_small = fp_small;
      },
    )
