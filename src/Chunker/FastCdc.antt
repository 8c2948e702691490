-- ===== src/Chunker/FastCdc.antt =====
-- EDRStore/src/chunker/fastcdc_chunker.cc, and the two helpers of EDRStore/include/define.h that it
-- calls. `round (log2 avg)`, which the constructor takes from the mathematics library, is a field.
use edrstore.Prelude.{
  ℕ, zero, suc, ◌+◌, ◌-◌, ◌/◌, ◌%◌, ◌^◌, min, none, some, Bytes, u32, drop, get_elem?, leb, ltb,
  ◌==◌, ◌||◌, if◌then◌else◌, bit_and,
}
use edrstore.Chunker.{Chunker, Generated, cut_chunk, no_chunk}
use edrstore.Chunker.Gear.{gear_table}

-- `tool::CompareLimit`
unfoldable pub compare_limit : ℕ → ℕ → ℕ → ℕ
compare_limit input lower upper =
    if leb input lower then lower else if leb upper input then upper else input

-- `tool::DivCeil`
unfoldable pub div_ceil : ℕ → ℕ → ℕ
div_ceil a b = let tmp = a / b in if a % b == 0 then tmp else u32 (tmp + 1)

-- `CalNormalSize`
unfoldable pub cal_normal_size : ℕ → ℕ → ℕ → ℕ
unfolding div_ceil
cal_normal_size min_size avg_size max_size =
    let off = u32 (min_size + div_ceil min_size 2) in
    let off' = if ltb avg_size off then avg_size else off in
    let diff = avg_size - off' in if ltb max_size diff then max_size else diff

-- `GenerateFastCDCMask`
unfoldable pub generate_fastcdc_mask : ℕ → ℕ
unfolding compare_limit
generate_fastcdc_mask bits = 2 ^ compare_limit bits 1 31 - 1

pub record FastCdc : Type 0 where
  pub min_chunk_size : ℕ
  pub max_chunk_size : ℕ
  pub normal_chunk_size : ℕ
  pub mask_s : ℕ
  pub mask_l : ℕ

-- The constructor; `bits` is `round (log2 avg_size)`, a `uint32_t` like what is made of it.
unfoldable pub fastcdc : ℕ → ℕ → ℕ → ℕ → FastCdc
unfolding cal_normal_size generate_fastcdc_mask
fastcdc min_size avg_size max_size bits = record {
  min_chunk_size = min_size;
  max_chunk_size = max_size;
  normal_chunk_size = cal_normal_size (u32 min_size) (u32 avg_size) (u32 max_size);
  mask_s = generate_fastcdc_mask (u32 (bits + 1));
  mask_l = generate_fastcdc_mask (u32 (bits + (2 ^ 32 - 1)));
}

-- A loop of `CutPoint` returns, or reaches its bound with the fingerprint that it has.
pub data GearScan : Type 0 where
  cut : ℕ → GearScan
  reached : ℕ → ℕ → GearScan

-- An index outside of the table or of the chunk, which the loops do not use, reads as 0.
abbrev pub byte_at : Bytes → ℕ → ℕ
byte_at src i = elim (get_elem? src i) [ some b ↦ b | none ↦ 0 ]

-- A loop of `CutPoint`, for as many rounds as are left from `i` to its bound.
unfoldable pub scan : ℕ → Bytes → ℕ → ℕ → ℕ → GearScan
scan mask src zero i fp = reached i fp
scan mask src (suc rounds) i fp =
    let fp' = u32 (fp / 2 + byte_at gear_table (byte_at src i)) in
    let next = scan mask src rounds (i + 1) fp' in
    if bit_and fp' mask == 0 then cut (i + 1) else next

-- `CutPoint`
unfoldable pub cut_point : FastCdc → Bytes → ℕ → ℕ
unfolding scan
cut_point p src len =
    let i = min len (u32 p.min_chunk_size) in
    elim (scan p.mask_s src (min p.normal_chunk_size len - i) i 0) [
      | cut k ↦ k
      | reached j fp ↦ elim (scan p.mask_l src (min (u32 p.max_chunk_size) len - j) j fp) [
        | cut k ↦ k
        | reached k _ ↦ k
      ]
    ]

-- `FastCDC::GenerateOneChunk`
unfoldable pub fastcdc_generate : FastCdc → Chunker → Generated
unfolding cut_chunk no_chunk cut_point
fastcdc_generate p c =
    if c.pending_chunking_size == 0 || c.remain_chunking_size == 0
    then no_chunk c
    else if leb c.remain_chunking_size p.min_chunk_size
    then cut_chunk c.remain_chunking_size c
    else cut_chunk
        (cut_point p (drop c.cur_offset c.read_data_buf)
          (u32 (c.pending_chunking_size - c.cur_offset)))
        c
