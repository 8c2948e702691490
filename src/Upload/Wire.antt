-- ===== src/Upload/Wire.antt =====
-- The layout of a chunk in a message, `SendChunkHeader_t` and the data behind it: the header as it
-- is copied by the sender (EDRStore/src/client/sender_thd.cc) and read by the receiver
-- (EDRStore/src/server/data_recv_thd.cc). Three bytes of padding follow `type`.
use edrstore.Prelude.{
  ℕ, ◌+◌, ◌<◌, ◌^◌, List, [], ◌∷◌, ◌++◌, Bytes, take, drop, slice, length, le_bytes, le_value, ◌≡◌,
  refl, arith, ap, ◌∙◌, sym, All, length-le_bytes, le_value-le_bytes, slice-add-append,
  take-add-append,
}
use mathlib.Core.List.{append_assoc, append-nil}
use edrstore.Layout.{SendChunkHeader}

abbrev pub header_size : ℕ
header_size = 64

-- `memcpy(buf, &header, sizeof(SendChunkHeader_t))`
unfoldable pub features_bytes : List ℕ → Bytes
features_bytes [] = []
features_bytes (f ∷ fs) = le_bytes 8 f ++ features_bytes fs

unfoldable pub header_bytes : Bytes → SendChunkHeader → Bytes
header_bytes pad h =
    le_bytes 4 h.size
    ++ (le_bytes 1 h.kind ++ (pad ++ (features_bytes h.cipher_features ++ h.compressed_fp)))

-- `(SendChunkHeader_t*)(data_buf + offset)`
unfoldable pub read_header : Bytes → ℕ → SendChunkHeader
read_header buf offset = record {
  size = le_value (slice offset 4 buf);
  kind = le_value (slice (offset + 4) 1 buf);
  cipher_features =
      le_value (slice (offset + 8) 8 buf)
      ∷ le_value (slice (offset + 16) 8 buf)
      ∷ le_value (slice (offset + 24) 8 buf)
      ∷ [];
  compressed_fp = slice (offset + 32) 32 buf;
}

-- A header whose fields fit their widths.
pub record IsHeader (h : SendChunkHeader) : Type 0 where
  pub size_fits : h.size < 2 ^ 32
  pub kind_fits : h.kind < 2 ^ 8
  pub features_fit : All (λ f. f < 2 ^ 64) h.cipher_features
  pub three : length h.cipher_features ≡ 3
  pub fp_size : length h.compressed_fp ≡ 32

-- A field that stands behind `xs` is read there.
slice_field :
    (n len : ℕ) (xs field rest : Bytes)
    → n ≡ length xs
    → len ≡ length field
    → slice n len (xs ++ (field ++ rest)) ≡ field
slice_field n len xs field rest e e' =
    slice-add-append 0 n len xs (field ++ rest) (omega arith)
    ∙ unfold slice drop in
      (take-add-append 0 len field rest (omega arith) ∙ unfold take in append-nil field)

slice_number :
    (w n : ℕ) (xs : Bytes) (v : ℕ) (rest : Bytes)
    → n ≡ length xs
    → v < 256 ^ w
    → le_value (slice n w (xs ++ (le_bytes w v ++ rest))) ≡ v
slice_number w n xs v rest e fits =
    ap le_value (slice_field n w xs (le_bytes w v) rest e (sym (length-le_bytes w v)))
    ∙ le_value-le_bytes w v fits

-- What stands behind a number is read past it.
skip :
    (w n k len v : ℕ) (ys : Bytes) → k ≡ w + n → slice k len (le_bytes w v ++ ys) ≡ slice n len ys
skip w n k len v ys e =
    slice-add-append n k len (le_bytes w v) ys (omega (arith, length-le_bytes w v))

module _ (pre rest pad fp : Bytes) (size kind f0 f1 f2 : ℕ) (padded : length pad ≡ 3)
    (sized : length fp ≡ 32) (size_fits : size < 2 ^ 32) (kind_fits : kind < 2 ^ 8)
    (fit0 : f0 < 2 ^ 64) (fit1 : f1 < 2 ^ 64) (fit2 : f2 < 2 ^ 64) where
  -- What stands behind each field, last first.
  abbrev t32 : Bytes
  t32 = fp ++ rest

  abbrev t24 : Bytes
  t24 = le_bytes 8 f2 ++ t32

  abbrev t16 : Bytes
  t16 = le_bytes 8 f1 ++ t24

  abbrev t8 : Bytes
  t8 = le_bytes 8 f0 ++ t16

  abbrev t5 : Bytes
  t5 = pad ++ t8

  abbrev t4 : Bytes
  t4 = le_bytes 1 kind ++ t5

  abbrev message : Bytes
  message = pre ++ (le_bytes 4 size ++ t4)

  to_t4 : (n k len : ℕ) → k ≡ length pre + 4 + n → slice k len message ≡ slice n len t4
  to_t4 n k len e =
      slice-add-append (4 + n) k len pre (le_bytes 4 size ++ t4) (omega arith)
      ∙ skip 4 n (4 + n) len size t4 (omega arith)

  to_t8 : (n k len : ℕ) → k ≡ length pre + 8 + n → slice k len message ≡ slice n len t8
  to_t8 n k len e =
      to_t4 (4 + n) k len (omega arith)
      ∙ skip 1 (3 + n) (4 + n) len kind t5 (omega arith)
      ∙ slice-add-append n (3 + n) len pad t8 (omega arith)

  to_t16 : (n k len : ℕ) → k ≡ length pre + 16 + n → slice k len message ≡ slice n len t16
  to_t16 n k len e = to_t8 (8 + n) k len (omega arith) ∙ skip 8 n (8 + n) len f0 t16 (omega arith)

  to_t24 : (n k len : ℕ) → k ≡ length pre + 24 + n → slice k len message ≡ slice n len t24
  to_t24 n k len e = to_t16 (8 + n) k len (omega arith) ∙ skip 8 n (8 + n) len f1 t24 (omega arith)

  to_t32 : (n k len : ℕ) → k ≡ length pre + 32 + n → slice k len message ≡ slice n len t32
  to_t32 n k len e = to_t24 (8 + n) k len (omega arith) ∙ skip 8 n (8 + n) len f2 t32 (omega arith)

  read_fields :
      read_header message (length pre)
      ≡ record { size = size; kind = kind; cipher_features = f0 ∷ f1 ∷ f2 ∷ []; compressed_fp = fp }
  unfolding read_header
  read_fields =
      let e0 : le_value (slice (length pre) 4 message) ≡ size =
        slice_number 4 (length pre) pre size t4 refl (omega arith) in
      let e1 : le_value (slice (length pre + 4) 1 message) ≡ kind =
        ap le_value (to_t4 0 (length pre + 4) 1 (omega arith))
        ∙ slice_number 1 0 [] kind t5 refl (omega arith) in
      let e2 : le_value (slice (length pre + 8) 8 message) ≡ f0 =
        ap le_value (to_t8 0 (length pre + 8) 8 (omega arith))
        ∙ slice_number 8 0 [] f0 t16 refl (omega arith) in
      let e3 : le_value (slice (length pre + 16) 8 message) ≡ f1 =
        ap le_value (to_t16 0 (length pre + 16) 8 (omega arith))
        ∙ slice_number 8 0 [] f1 t24 refl (omega arith) in
      let e4 : le_value (slice (length pre + 24) 8 message) ≡ f2 =
        ap le_value (to_t24 0 (length pre + 24) 8 (omega arith))
        ∙ slice_number 8 0 [] f2 t32 refl (omega arith) in
      let e5 : slice (length pre + 32) 32 message ≡ fp =
        to_t32 0 (length pre + 32) 32 (omega arith)
        ∙ slice_field 0 32 [] fp rest refl (omega arith) in
      λ i. record {
        size = e0 i;
        kind = e1 i;
        cipher_features = e2 i ∷ e3 i ∷ e4 i ∷ [];
        compressed_fp = e5 i;
      }

-- The header that the sender copies into a message is the one that the receiver reads at the same
-- offset, whatever stands before it, behind it and in its padding.
pub read_header-header_bytes :
    (pre rest pad : Bytes) (h : SendChunkHeader)
    → length pad ≡ 3
    → IsHeader h
    → read_header (pre ++ (header_bytes pad h ++ rest)) (length pre) ≡ h
unfolding header_bytes features_bytes
read_header-header_bytes pre rest pad h padded fits =
    go h.cipher_features fits.three fits.features_fit
  where
    go :
        (fs : List ℕ)
        → length fs ≡ 3
        → All (λ f. f < 2 ^ 64) fs
        → read_header
            (pre ++ (header_bytes pad (record h { cipher_features = fs }) ++ rest))
            (length pre)
          ≡ record h { cipher_features = fs }
    go (f0 ∷ f1 ∷ f2 ∷ []) e k =
        ap (λ (t : Bytes). read_header (pre ++ t) (length pre)) (simp (append_assoc, append-nil))
        ∙ read_fields pre rest pad h.compressed_fp h.size h.kind f0 f1 f2 padded fits.fp_size
            fits.size_fits fits.kind_fits k.0 k.1.0 k.1.1.0
    go [] e k = absurd (omega arith)
    go (_ ∷ []) e k = absurd (omega arith)
    go (_ ∷ _ ∷ []) e k = absurd (omega arith)
    go (_ ∷ _ ∷ _ ∷ _ ∷ fs) e k = absurd (omega arith)
