-- ===== src/Recipe/Reading.antt =====
-- The reader of a recipe fetches the fingerprints that were written, all of them and in order.
use edrstore.Prelude.{
  ℕ, zero, suc, ◌+◌, ◌*◌, ◌/◌, ◌<◌, ◌^◌, u64, leb, false, List, [], ◌∷◌, ◌++◌, Bytes, if◌then◌else◌,
  ◌==◌, ltb, take, drop, slice, length, ◌≡◌, refl, arith, flatten, ap, ap₂, ◌∙◌, sym, Bool-cases,
  inl, inr, length-append, length-take, length-drop, take-append-drop, take_of_length-le, take-nil,
  drop-nil, take-add-append, drop-add-append, slice-add-append,
}
use mathlib.Core.List.{append_assoc, append-nil}
use edrstore.Recipe.{fps_of, read_batches}
use edrstore.Recipe.RoundTrip.{AreFps, length-flatten}

take-flatten :
    (n : ℕ) (fps : List Bytes) → AreFps fps → take (n * 32) (flatten fps) ≡ flatten (take n fps)
unfolding flatten take
take-flatten zero fps h = refl
take-flatten (suc n) [] h = take-nil (suc n * 32)
take-flatten (suc n) (fp ∷ fps) h =
    take-add-append (n * 32) (suc n * 32) fp (flatten fps) (omega arith)
    ∙ ap (λ (t : Bytes). fp ++ t) (take-flatten n fps h.1)

drop-flatten :
    (n : ℕ) (fps : List Bytes) → AreFps fps → drop (n * 32) (flatten fps) ≡ flatten (drop n fps)
unfolding flatten drop
drop-flatten zero fps h = refl
drop-flatten (suc n) [] h = drop-nil (suc n * 32)
drop-flatten (suc n) (fp ∷ fps) h =
    drop-add-append (n * 32) (suc n * 32) fp (flatten fps) (omega arith) ∙ drop-flatten n fps h.1

take-AreFps : (n : ℕ) (fps : List Bytes) → AreFps fps → AreFps (take n fps)
unfolding take
take-AreFps zero fps h = tt
take-AreFps (suc n) [] h = tt
take-AreFps (suc n) (fp ∷ fps) h = (h.0, take-AreFps n fps h.1)

drop-AreFps : (n : ℕ) (fps : List Bytes) → AreFps fps → AreFps (drop n fps)
unfolding drop
drop-AreFps zero fps h = h
drop-AreFps (suc n) [] h = tt
drop-AreFps (suc n) (fp ∷ fps) h = drop-AreFps n fps h.1

fps_of-flatten :
    (fps : List Bytes) (from : ℕ) (before : Bytes)
    → AreFps fps
    → length before ≡ 32 * from
    → fps_of (length fps) from (before ++ flatten fps) ≡ fps
unfolding fps_of flatten
fps_of-flatten [] from before h e = refl
fps_of-flatten (fp ∷ fps) from before h e =
    ap₂ ◌∷◌
      (slice-add-append 0 (32 * from) 32 before (fp ++ flatten fps) (omega arith)
        ∙ unfold slice drop in
          (take-add-append 0 32 fp (flatten fps) (omega arith) ∙ unfold take in append-nil fp))
      (ap (fps_of (length fps) (from + 1)) (sym (append_assoc before fp (flatten fps)))
        ∙ fps_of-flatten fps (from + 1) (before ++ fp) h.1 (omega (arith, length-append before fp)))

module _ (batch : ℕ) (some_batch : 0 < batch) (fits : batch * 32 < 2 ^ 63) where
  round :
      (fuel : ℕ) (fps : List Bytes)
      → AreFps fps
      → read_batches (suc fuel) batch (flatten fps) ≡ (
          if length (take batch fps) == 0
          then []
          else take batch fps
            ++ (if ltb (length (flatten (take batch fps))) (batch * 32)
                then []
                else read_batches fuel batch (flatten (drop batch fps))))
  unfolding read_batches
  round fuel fps h =
      let sizes = take-AreFps batch fps h in
      let items : length (flatten (take batch fps)) / 32 ≡ length (take batch fps) =
        omega (arith, length-flatten (take batch fps) sizes) in
      let want : u64 (batch * 32) ≡ batch * 32 = omega arith in
      let positive : leb (2 ^ 63) (batch * 32) ≡ false = ground arith in
      rw (
        want,
        positive,
        take-flatten batch fps h,
        drop-flatten batch fps h,
        items,
        fps_of-flatten (take batch fps) 0 [] sizes refl,
      )

  -- `DataReaderThd::Run` fetches exactly the fingerprints of the file behind its head, in order, in
  -- batches of any size above 0 whose bytes are fewer than 2^63; a fuel above their number is enough.
  pub read_batches-flatten :
      (fuel : ℕ) (fps : List Bytes)
      → AreFps fps
      → length fps < fuel
      → read_batches fuel batch (flatten fps) ≡ fps
  read_batches-flatten zero fps h enough = absurd (omega arith)
  read_batches-flatten (suc fuel) fps h enough =
      rw (round fuel fps h) (elim (Bool-cases (length (take batch fps) == 0)) [
        | inl none_left ↦ rw none_left (sym (empty fps (ground (arith, length-take batch fps))))
        | inr some_left ↦
            rw some_left (elim (Bool-cases (ltb (length (flatten (take batch fps))) (batch * 32))) [
              | inl last ↦ rw last (
                  append-nil (take batch fps)
                  ∙ take_of_length-le batch fps (
                      ground (
                        arith,
                        length-flatten (take batch fps) (take-AreFps batch fps h),
                        length-take batch fps,
                      )))
              | inr more ↦ rw more (
                  ap (λ (t : List Bytes). take batch fps ++ t)
                    (read_batches-flatten fuel (drop batch fps) (drop-AreFps batch fps h)
                      (ground (arith, length-drop batch fps, length-take batch fps)))
                  ∙ take-append-drop batch fps)
            ])
      ])
    where
      empty : (xs : List Bytes) → length xs ≡ 0 → xs ≡ []
      empty [] e = refl
      empty (x ∷ xs) e = absurd (omega arith)
