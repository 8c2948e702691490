-- ===== src/Chunker/CutPoint.antt =====
-- EDRStore/src/chunker/fastcdc_chunker.cc: where FastCDC cuts, and the chunks of a file.
use edrstore.Prelude.{
  ℕ, zero, suc, ◌+◌, ◌-◌, ◌^◌, ◌≤◌, ◌<◌, ◌≡◌, refl, min, Bytes, u32, List, some, length, drop,
  flatten, leb, ltb, ◌==◌, ◌||◌, inl, inr, if◌then◌else◌, ◌⊎◌, subst, Bool-cases, bit_and, ◌/◌,
  arith,
}
use edrstore.Layout.{max_chunk_size}
use edrstore.Chunker.{Chunker, cut_chunk, no_chunk, chunk_file}
use edrstore.Chunker.Gear.{gear_table}
use edrstore.Chunker.FastCdc.{
  FastCdc, GearScan, cut, reached, scan, byte_at, cut_point, cal_normal_size, fastcdc_generate,
  fastcdc, div_ceil,
}
use edrstore.Chunker.Fixed.{at_end, not_at_end}
use edrstore.Chunker.Loop.{IsReady, IsNext, no_chunk-IsNext, cut_chunk-IsNext, chunk_file-flatten}

-- A loop from `i` cuts behind a byte that it has read, or reaches its bound.
abbrev IsWithin : ℕ → ℕ → GearScan → Type 0
IsWithin i bound (cut k) = (i < k) × (k ≤ bound)
IsWithin i bound (reached j fp) = j ≡ bound

IsWithin-suc : (i bound : ℕ) (s : GearScan) → IsWithin (i + 1) bound s → IsWithin i bound s
IsWithin-suc i bound (cut k) (a, b) = ((let h : i < k = omega arith in h), b)
IsWithin-suc i bound (reached j fp) e = e

GearScan-cases :
    (s : GearScan) → ((k : ℕ) × (s ≡ cut k)) ⊎ ((j : ℕ) × (fp : ℕ) × (s ≡ reached j fp))
GearScan-cases (cut k) = inl (k, refl)
GearScan-cases (reached j fp) = inr (j, fp, refl)

scan-IsWithin :
    (mask : ℕ) (src : Bytes) (rounds i bound fp : ℕ)
    → bound ≡ i + rounds
    → IsWithin i bound (scan mask src rounds i fp)
unfolding scan
scan-IsWithin mask src zero i bound fp e = let h : i ≡ bound = omega arith in h
scan-IsWithin mask src (suc rounds) i bound fp e =
    let fp' = u32 (fp / 2 + byte_at gear_table (byte_at src i)) in
    elim (Bool-cases (bit_and fp' mask == 0)) [
      | inl c ↦
          rw (c)
            ((let h : i < i + 1 = omega arith in h), (let h : i + 1 ≤ bound = omega arith in h))
      | inr c ↦ rw (c) (
          IsWithin-suc i bound (scan mask src rounds (i + 1) fp') (
            scan-IsWithin mask src rounds (i + 1) bound fp'
              (let h : bound ≡ i + 1 + rounds = omega arith in h)))
    ]

-- The bounds that the configuration has: 0 < minimum ≤ normal size ≤ maximum, in 32 bits.
abbrev pub IsSound : FastCdc → Type 0
IsSound p =
    (0 < p.min_chunk_size)
    × (p.min_chunk_size ≤ p.max_chunk_size)
    × (p.max_chunk_size < 2 ^ 32)
    × (p.normal_chunk_size ≤ p.max_chunk_size)

-- When the sizes of the configuration are in order, a cut of a buffer longer than the minimum is at
-- the minimum or above it, and neither above the maximum nor behind the end of the buffer.
pub cut_point-bounds :
    (p : FastCdc) (src : Bytes) (len : ℕ)
    → IsSound p
    → p.min_chunk_size < len
    → (p.min_chunk_size ≤ cut_point p src len) × (cut_point p src len ≤ min p.max_chunk_size len)
unfolding cut_point
cut_point-bounds p src len (a, b, c, d) l =
    let m = p.min_chunk_size in
    let i = min len (u32 m) in
    let i_min : i ≡ m = omega arith in
    let n = min p.normal_chunk_size len in
    let first = scan p.mask_s src (n - i) i 0 in
    let w = scan-IsWithin p.mask_s src (n - i) i (i + (n - i)) 0 refl in
    elim (GearScan-cases first) [
      | inl (k, e) ↦
          let (lo, hi) = subst (IsWithin i (i + (n - i))) e w in
          rw (e, cut_point)
            (
              (let h : m ≤ k = omega arith in h),
              (let h : k ≤ min p.max_chunk_size len = omega arith in h),
            )
      | inr (j, fp, e) ↦
          let at : j ≡ i + (n - i) = subst (IsWithin i (i + (n - i))) e w in
          let n' = min (u32 p.max_chunk_size) len in
          let second = scan p.mask_l src (n' - j) j fp in
          let w' = scan-IsWithin p.mask_l src (n' - j) j (j + (n' - j)) fp refl in
          elim (GearScan-cases second) [
            | inl (k, e') ↦
                let (lo, hi) = subst (IsWithin j (j + (n' - j))) e' w' in
                rw (e, e', cut_point)
                  (
                    (let h : m ≤ k = omega arith in h),
                    (let h : k ≤ min p.max_chunk_size len = omega arith in h),
                  )
            | inr (k, fp', e') ↦
                let end : k ≡ j + (n' - j) = subst (IsWithin j (j + (n' - j))) e' w' in
                rw (e, e', cut_point)
                  (
                    (let h : m ≤ k = omega arith in h),
                    (let h : k ≤ min p.max_chunk_size len = omega arith in h),
                  )
          ]
    ]

-- The constructor's normal size never exceeds the maximum, so ordered sizes are all that it needs.
pub fastcdc-IsSound :
    (min_size avg_size max_size bits : ℕ)
    → 0 < min_size
    → min_size ≤ max_size
    → max_size < 2 ^ 32
    → IsSound (fastcdc min_size avg_size max_size bits)
unfolding fastcdc cal_normal_size
fastcdc-IsSound min_size avg_size max_size bits p l b = (
  p,
  l,
  b,
  (let off = u32 (u32 min_size + div_ceil (u32 min_size) 2) in
      elim (Bool-cases (
        ltb (u32 max_size)
          (u32 avg_size - (if ltb (u32 avg_size) off then u32 avg_size else off)))) [
            | inl e ↦ rw (e) (let h : u32 max_size ≤ max_size = omega arith in h)
            | inr e ↦ rw (e) (ground arith)
          ]),
)

fastcdc_generate-IsNext :
    (p : FastCdc) → IsSound p → (c : Chunker) → IsReady c → IsNext c (fastcdc_generate p c)
unfolding fastcdc_generate
fastcdc_generate-IsNext p s c r =
    elim (Bool-cases (c.pending_chunking_size == 0 || c.remain_chunking_size == 0)) [
      | inl e ↦ rw (e) (no_chunk-IsNext c r (at_end c r e))
      | inr e ↦
          let pos = not_at_end c e in
          elim (Bool-cases (leb c.remain_chunking_size p.min_chunk_size)) [
            | inl l ↦
                rw (e, l)
                  (cut_chunk-IsNext c.remain_chunking_size c r pos
                    (let h : c.remain_chunking_size ≤ c.remain_chunking_size = omega arith in h))
            | inr l ↦
                let (r1, r2, r3) = r in
                let src = drop c.cur_offset c.read_data_buf in
                let len = u32 (c.pending_chunking_size - c.cur_offset) in
                let len_remain : len ≡ c.remain_chunking_size = omega arith in
                let above : p.min_chunk_size < c.remain_chunking_size = ground arith in
                let (lo, hi) =
                  cut_point-bounds p src len s
                    (let h : p.min_chunk_size < len = omega arith in h) in
                let min_pos = s.0 in
                rw (e, l)
                  (cut_chunk-IsNext (cut_point p src len) c r
                    (let h : 0 < cut_point p src len = omega arith in h)
                    (let h : cut_point p src len ≤ c.remain_chunking_size = omega arith in h))
          ]
    ]

fastcdc_generate-fits :
    (p : FastCdc)
    → IsSound p
    → p.max_chunk_size ≤ 2 ^ 14
    → (c : Chunker) → IsReady c
    → (fastcdc_generate p c).chunk_size ≤ 2 ^ 14
unfolding fastcdc_generate cut_chunk no_chunk
fastcdc_generate-fits p s small c r =
    let (_, order, _, _) = s in
    elim (Bool-cases (c.pending_chunking_size == 0 || c.remain_chunking_size == 0)) [
      | inl e ↦ rw (e) (let h : 0 ≤ 2 ^ 14 = omega arith in h)
      | inr e ↦ elim (Bool-cases (leb c.remain_chunking_size p.min_chunk_size)) [
        | inl l ↦ rw (e, l) (let h : u32 c.remain_chunking_size ≤ 2 ^ 14 = ground arith in h)
        | inr l ↦
            let (r1, r2, r3) = r in
            let src = drop c.cur_offset c.read_data_buf in
            let len = u32 (c.pending_chunking_size - c.cur_offset) in
            let above : p.min_chunk_size < c.remain_chunking_size = ground arith in
            let (lo, hi) =
              cut_point-bounds p src len s (let h : p.min_chunk_size < len = omega arith in h) in
            rw (e, l) (let h : u32 (cut_point p src len) ≤ 2 ^ 14 = omega arith in h)
      ]
    ]

-- The same for FastCDC: with 0 < minimum ≤ maximum ≤ MAX_CHUNK_SIZE and a read buffer of one byte at least
-- and under 4 GiB, the chunks of a file fit their array and, one after the other, are the file.
pub fastcdc_chunks-flatten :
    (min_size avg_size max_size bits read_size : ℕ) (file : Bytes) (c : Chunker)
    → 0 < min_size
    → min_size ≤ max_size
    → max_size ≤ max_chunk_size
    → 0 < read_size
    → read_size < 2 ^ 32
    → (r : Chunker × List Bytes) × (chunk_file
          (fastcdc_generate (fastcdc min_size avg_size max_size bits))
          read_size
          (suc (length file))
          file
          c
        ≡ some r)
      × (flatten r.1 ≡ file)
fastcdc_chunks-flatten min_size avg_size max_size bits read_size file c p m b q l =
    let cdc = fastcdc min_size avg_size max_size bits in
    let sound = fastcdc-IsSound min_size avg_size max_size bits p m (omega arith) in
    chunk_file-flatten (fastcdc_generate cdc) (fastcdc_generate-IsNext cdc sound)
      (fastcdc_generate-fits cdc sound (unfold fastcdc in b)) read_size (suc (length file)) file c q
      l (let h : length file < suc (length file) = omega arith in h)
