-- ===== src/Upload/Recv/Evicts.antt =====
-- `ProcessEvictFeature` (EDRStore/src/server/data_recv_thd.cc): the chunks that a message of evicted
-- features is cut into.
use edrstore.Prelude.{
  ℕ, zero, suc, ◌+◌, ◌-◌, ◌*◌, ◌≤◌, ◌<◌, ◌≡◌, refl, sym, ap, ◌∙◌, List, [], ◌∷◌, ◌++◌, Bytes, map,
  flatten, take, drop, length, length-take, length-drop, All, ltb, ◌==◌, if◌then◌else◌, Bool-cases,
  inl, inr, take-nil, take_of_length-le, arith,
}
use edrstore.Layout.{WrappedChunk, cache_evict_chunk}
use edrstore.Upload.Recv.{Recv, evict_batches, process_evict_feature, feature_batch_size}

take-add : {A : Type 0} (n m : ℕ) (xs : List A) → take n xs ++ take m (drop n xs) ≡ take (n + m) xs
unfolding take drop
take-add zero m xs = ap (λ k. take k xs) (let e : m ≡ 0 + m = omega arith in e)
take-add (suc n) m [] = take-nil m ∙ sym (take-nil (suc n + m))
take-add (suc n) m (x ∷ xs) =
    ap (λ t. x ∷ t) (take-add n m xs)
    ∙ ap (λ k. take k (x ∷ xs)) (let e : suc (n + m) ≡ suc n + m = omega arith in e)

-- A chunk of 1 to 2048 features, 8 bytes each.
abbrev pub IsBatch : WrappedChunk → Type 0
IsBatch c =
    (0 < c.info.size)
    × (c.info.size ≤ feature_batch_size)
    × (length c.buf ≡ c.info.size * 8)
    × (c.info.stat ≡ cache_evict_chunk)

abbrev batch : WrappedChunk → Bytes → ℕ → WrappedChunk
batch tmp rest k = record {
  info = record (tmp.info) { size = k; stat = cache_evict_chunk };
  buf = take (k * 8) rest;
}

evict_batches-AreBatches :
    (fuel : ℕ) (tmp : WrappedChunk) (rest : Bytes) (n : ℕ)
    → n * 8 ≤ length rest
    → n < fuel
    → (flatten (map (λ c. c.buf) (evict_batches fuel tmp rest n)) ≡ take (n * 8) rest)
      × All IsBatch (evict_batches fuel tmp rest n)
unfolding evict_batches flatten take
evict_batches-AreBatches zero tmp rest n l f = absurd (omega arith)
evict_batches-AreBatches (suc fuel) tmp rest n l f = elim (Bool-cases (n == 0)) [
  | inl e ↦
      let z : n ≡ 0 = ground arith in
      rw (e, evict_batches) (ap (λ k. take (k * 8) rest) (sym z), tt)
  | inr e ↦
      let k : ℕ = if ltb feature_batch_size n then feature_batch_size else n in
      let k_pos : 0 < k = ground arith in
      let k_le : k ≤ n = ground arith in
      let k_small : k ≤ feature_batch_size = ground arith in
      let left = length-drop (k * 8) rest in
      let took = length-take (k * 8) rest in
      let (flat, batches) =
        evict_batches-AreBatches fuel tmp (drop (k * 8) rest) (n - k)
          (let h : (n - k) * 8 ≤ length (drop (k * 8) rest) = omega arith in h)
          (let h : n - k < fuel = omega arith in h) in
      rw (e, evict_batches)
        (
          ap (λ t. take (k * 8) rest ++ t) flat
              ∙ take-add (k * 8) ((n - k) * 8) rest
              ∙ ap (λ j. take j rest) (let h : k * 8 + (n - k) * 8 ≡ n * 8 = omega arith in h),
          (
            (k_pos, k_small, (let h : length (take (k * 8) rest) ≡ k * 8 = omega arith in h), refl),
            batches,
          ),
        )
]

-- A message of n features, 8 bytes each, is pushed behind what the queue holds as chunks of 1 to 2048
-- features; their data, one after the other, are those of the message; nothing else changes.
pub process_evict_feature-AreBatches :
    (tmp : WrappedChunk) (data_buf : Bytes) (n : ℕ) (s : Recv)
    → length data_buf ≡ n * 8
    → (pushed : List WrappedChunk) × (process_evict_feature tmp data_buf n s
        ≡ record s { output_mq = s.output_mq ++ pushed })
      × (flatten (map (λ c. c.buf) pushed) ≡ data_buf)
      × All IsBatch pushed
unfolding process_evict_feature
process_evict_feature-AreBatches tmp data_buf n s e =
    let pushed = evict_batches (n + 1) tmp data_buf n in
    let (flat, batches) =
      evict_batches-AreBatches (n + 1) tmp data_buf n
        (let h : n * 8 ≤ length data_buf = omega arith in h)
        (let h : n < n + 1 = omega arith in h) in
    (
      pushed,
      refl,
      flat
          ∙ take_of_length-le (n * 8) data_buf (let h : length data_buf ≤ n * 8 = omega arith in h),
      batches,
    )
