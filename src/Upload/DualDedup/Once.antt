-- ===== src/Upload/DualDedup/Once.antt =====
-- EDRStore/src/server/dual_dedup_thd.cc: each new fingerprint is forwarded for storage once.
use edrstore.Prelude.{
  ℕ, ◌+◌, ◌≡◌, ◌⊎◌, inl, inr, refl, sym, ap, ◌∙◌, List, [], ◌∷◌, ◌++◌, take, Bytes, Bool, true,
  false, ◌&&◌, ◌||◌, not, Option, none, some, bytes_discrete, find, assign, find-assign_self,
  find-assign_ne, ok, ◌>>=◌, if◌then◌else◌, All, Option-cases, arith,
}
use edrstore.Layout.{
  ChunkAddr, ChunkInfo, duplicate_chunk, ChunkStatus, WrappedChunk, chunk_pair, single_chunk,
  cache_insert_chunk, cache_evict_chunk, unique_chunk, unique_chunk_after_cache,
}
use edrstore.Reduction.Dedup.{FpIndex, detect_duplicate}
use edrstore.Upload.DualDedup.{
  DualDedup, dedup_step, dedup_run, dedup_as, dedup_pair, dedup_single, pair_detected,
  single_detected,
}

-- The chunks that the thread pops.
abbrev pub IsPopped : WrappedChunk → Type 0
IsPopped c =
    (c.info.stat ≡ chunk_pair)
    ⊎ ((c.info.stat ≡ single_chunk)
        ⊎ ((c.info.stat ≡ cache_insert_chunk) ⊎ (c.info.stat ≡ cache_evict_chunk)))

abbrev is_yes : {A : Type 0} → Dec A → Bool
is_yes (yes _) = true
is_yes (no _) = false

is_yes-true : {A : Type 0} (d : Dec A) → A → is_yes d ≡ true
is_yes-true (yes _) a = refl
is_yes-true (no n) a = absurd (n a)

is_yes-false : {A : Type 0} (d : Dec A) → ¬ A → is_yes d ≡ false
is_yes-false (yes a) n = absurd (n a)
is_yes-false (no _) n = refl

abbrev same : Bytes → Bytes → Bool
same a b = is_yes (bytes_discrete a b)

-- The states of the chunks that are compared with the index, and of those that are to be stored.
abbrev is_compared : ChunkStatus → Bool
is_compared s = elim s [ chunk_pair ↦ true | single_chunk ↦ true | _ ↦ false ]

abbrev is_stored : ChunkStatus → Bool
is_stored s = elim s [ unique_chunk ↦ true | unique_chunk_after_cache ↦ true | _ ↦ false ]

abbrev offers : Bytes → WrappedChunk → Bool
offers fp c = is_compared c.info.stat && same fp c.info.fp

-- Some chunk of a list is compared under a fingerprint.
unfoldable pub is_offered : Bytes → List WrappedChunk → Bool
is_offered fp [] = false
is_offered fp (c ∷ cs) = offers fp c || is_offered fp cs

-- How many chunks of a queue are to be stored under a fingerprint.
unfoldable pub stored : Bytes → List WrappedChunk → ℕ
stored fp [] = 0
stored fp (c ∷ cs) = (if is_stored c.info.stat && same fp c.info.fp then 1 else 0) + stored fp cs

abbrev pub is_none : {A : Type 0} → Option A → Bool
is_none none = true
is_none (some _) = false

abbrev pub is_new : Bytes → FpIndex → Bool
is_new fp db = is_none (find bytes_discrete fp db)

stored-append :
    (fp : Bytes) (xs ys : List WrappedChunk) → stored fp (xs ++ ys) ≡ stored fp xs + stored fp ys
unfolding stored
stored-append fp [] ys = omega arith
stored-append fp (x ∷ xs) ys = omega (arith, stored-append fp xs ys)

-- What one round does to the count and to the index, for a fingerprint.
abbrev IsRound : Bytes → WrappedChunk → DualDedup → DualDedup → Type 0
IsRound fp c s s' =
    (stored fp s'.output_mq
      ≡ stored fp s.output_mq + (if is_new fp s.fp_2_addr_db && offers fp c then 1 else 0))
    × (is_new fp s'.fp_2_addr_db ≡ is_new fp s.fp_2_addr_db && not (offers fp c))

and-true : (b : Bool) → (b && true) ≡ b
and-true true = refl
and-true false = refl

and-false : (b : Bool) → (b && false) ≡ false
and-false true = refl
and-false false = refl

-- A fingerprint that is entered is not new any more; the others stay as they were.
assign-is_new :
    (fp k : Bytes) (db : FpIndex) (a : ChunkAddr)
    → is_new fp (assign bytes_discrete k a db) ≡ (is_new fp db && not (same fp k))
assign-is_new fp k db a = elim (bytes_discrete fp k) [
  | yes p ↦
      ap (λ t. is_new t (assign bytes_discrete k a db)) p
      ∙ ap is_none (find-assign_self bytes_discrete k a db)
      ∙ sym (
          ap (λ b. is_new fp db && not b) (is_yes-true (bytes_discrete fp k) p)
          ∙ and-false (is_new fp db))
  | no n ↦
      ap is_none (find-assign_ne bytes_discrete k fp a db n)
      ∙ sym (
          ap (λ b. is_new fp db && not b) (is_yes-false (bytes_discrete fp k) n)
          ∙ and-true (is_new fp db))
]

-- A fingerprint that is in the index is not new.
hit-is_new :
    (fp k : Bytes) (db : FpIndex) (a : ChunkAddr)
    → find bytes_discrete k db ≡ some a
    → (is_new fp db && same fp k) ≡ false
hit-is_new fp k db a e = elim (bytes_discrete fp k) [
  | yes p ↦ ap (λ b. b && same fp k) (ap (λ t. is_new t db) p ∙ ap is_none e)
  | no n ↦
      ap (λ b. is_new fp db && b) (is_yes-false (bytes_discrete fp k) n) ∙ and-false (is_new fp db)
]

-- A fingerprint that is not in the index is new.
miss-is_new :
    (fp k : Bytes) (db : FpIndex)
    → find bytes_discrete k db ≡ none
    → (is_new fp db && same fp k) ≡ same fp k
miss-is_new fp k db e = elim (bytes_discrete fp k) [
  | yes p ↦ ap (λ b. b && same fp k) (ap (λ t. is_new t db) p ∙ ap is_none e)
  | no n ↦
      ap (λ b. is_new fp db && b) (is_yes-false (bytes_discrete fp k) n)
      ∙ and-false (is_new fp db)
      ∙ sym (is_yes-false (bytes_discrete fp k) n)
]

and-not : (a b : Bool) → (a && b) ≡ false → a ≡ (a && not b)
and-not true true e = e
and-not true false e = refl
and-not false b e = refl

one_if : Bool → ℕ
one_if b = if b then 1 else 0

detect-miss :
    (db : FpIndex) (i : ChunkInfo)
    → find bytes_discrete i.fp db ≡ none
    → detect_duplicate db i
      ≡ (assign bytes_discrete i.fp i.addr db, record i { stat = unique_chunk })
unfolding detect_duplicate
detect-miss db i e = rw (e, detect_duplicate) refl

detect-hit :
    (db : FpIndex) (i : ChunkInfo) (a : ChunkAddr)
    → find bytes_discrete i.fp db ≡ some a
    → detect_duplicate db i ≡ (db, record i { stat = duplicate_chunk })
unfolding detect_duplicate
detect-hit db i a e = rw (e, detect_duplicate) refl

-- The three rounds, by what they do to the queue and the index.
module _ (fp : Bytes) (s s' : DualDedup) (c d : WrappedChunk)
    (compared : is_compared c.info.stat ≡ true) where
  miss-IsRound :
      find bytes_discrete c.info.fp s.fp_2_addr_db ≡ none
      → s'.output_mq ≡ s.output_mq ++ d ∷ []
      → s'.fp_2_addr_db ≡ assign bytes_discrete c.info.fp c.info.addr s.fp_2_addr_db
      → is_stored d.info.stat ≡ true
      → d.info.fp ≡ c.info.fp
      → IsRound fp c s s'
  unfolding stored
  miss-IsRound m out db st same_fp = (
    ap (stored fp) out
        ∙ stored-append fp s.output_mq (d ∷ [])
        ∙ rw (st, same_fp, compared, miss-is_new fp c.info.fp s.fp_2_addr_db m) (omega arith),
    ap (is_new fp) db ∙ rw (compared) (assign-is_new fp c.info.fp s.fp_2_addr_db c.info.addr),
  )

  hit-IsRound :
      (a : ChunkAddr)
      → find bytes_discrete c.info.fp s.fp_2_addr_db ≡ some a
      → s'.output_mq ≡ s.output_mq
      → s'.fp_2_addr_db ≡ s.fp_2_addr_db
      → IsRound fp c s s'
  hit-IsRound a h out db =
      let z = hit-is_new fp c.info.fp s.fp_2_addr_db a h in
      (
        ap (stored fp) out ∙ rw (compared, z) (omega arith),
        ap (is_new fp) db
            ∙ rw (compared) (and-not (is_new fp s.fp_2_addr_db) (same fp c.info.fp) z),
      )

forward-IsRound :
    (fp : Bytes) (s s' : DualDedup) (c : WrappedChunk)
    → is_compared c.info.stat ≡ false
    → is_stored c.info.stat ≡ false
    → s'.output_mq ≡ s.output_mq ++ c ∷ []
    → s'.fp_2_addr_db ≡ s.fp_2_addr_db
    → IsRound fp c s s'
unfolding stored
forward-IsRound fp s s' c compared st out db = (
  ap (stored fp) out
      ∙ stored-append fp s.output_mq (c ∷ [])
      ∙ rw (st, compared, and-false (is_new fp s.fp_2_addr_db)) refl,
  ap (is_new fp) db ∙ rw (compared) (sym (and-true (is_new fp s.fp_2_addr_db))),
)

module _ (extract_feature : Bytes → List ℕ) (fp : Bytes) (s : DualDedup) (c : WrappedChunk) where
  dedup_single-IsRound :
      c.info.stat ≡ single_chunk → IsRound fp c s (dedup_single extract_feature s c)
  unfolding dedup_single single_detected
  dedup_single-IsRound e =
      let s' = dedup_single extract_feature s c in
      let compared : is_compared c.info.stat ≡ true = ap is_compared e in
      elim (Option-cases (find bytes_discrete c.info.fp s.fp_2_addr_db)) [
        | inl m ↦
            let d = detect-miss s.fp_2_addr_db c.info m in
            miss-IsRound fp s s' c (record c { info = record (c.info) { stat = unique_chunk } })
              compared m (ap (λ r. (single_detected extract_feature s c r).output_mq) d)
              (ap (λ r. (single_detected extract_feature s c r).fp_2_addr_db) d) refl refl
        | inr (a, h) ↦
            let d = detect-hit s.fp_2_addr_db c.info a h in
            hit-IsRound fp s s' c c compared a h
              (ap (λ r. (single_detected extract_feature s c r).output_mq) d)
              (ap (λ r. (single_detected extract_feature s c r).fp_2_addr_db) d)
      ]

  dedup_pair-IsRound : c.info.stat ≡ chunk_pair → IsRound fp c s (dedup_pair extract_feature s c)
  unfolding dedup_pair pair_detected
  dedup_pair-IsRound e =
      let s' = dedup_pair extract_feature s c in
      let compared : is_compared c.info.stat ≡ true = ap is_compared e in
      elim (Option-cases (find bytes_discrete c.info.fp s.fp_2_addr_db)) [
        | inl m ↦
            let d = detect-miss s.fp_2_addr_db c.info m in
            miss-IsRound fp s s' c
              (record c {
                info = record (c.info) {
                  stat = unique_chunk_after_cache;
                  features = extract_feature (take c.info.size c.buf);
                };
              })
              compared m (ap (λ r. (pair_detected extract_feature s c r).output_mq) d)
              (ap (λ r. (pair_detected extract_feature s c r).fp_2_addr_db) d) refl refl
        | inr (a, h) ↦
            let d = detect-hit s.fp_2_addr_db c.info a h in
            hit-IsRound fp s s' c c compared a h
              (ap (λ r. (pair_detected extract_feature s c r).output_mq) d)
              (ap (λ r. (pair_detected extract_feature s c r).fp_2_addr_db) d)
      ]

  dedup_step-IsRound :
      IsPopped c → (s' : DualDedup) × (dedup_step extract_feature s c ≡ ok s') × IsRound fp c s s'
  unfolding dedup_step dedup_as
  dedup_step-IsRound (inl e) = (
    dedup_pair extract_feature s c,
    ap (λ t. dedup_as extract_feature t s c) e,
    dedup_pair-IsRound e,
  )
  dedup_step-IsRound (inr (inl e)) = (
    dedup_single extract_feature s c,
    ap (λ t. dedup_as extract_feature t s c) e,
    dedup_single-IsRound e,
  )
  dedup_step-IsRound (inr (inr (inl e))) = (
    record s { output_mq = s.output_mq ++ c ∷ [] },
    ap (λ t. dedup_as extract_feature t s c) e,
    forward-IsRound fp s (record s { output_mq = s.output_mq ++ c ∷ [] }) c (ap is_compared e)
        (ap is_stored e) refl refl,
  )
  dedup_step-IsRound (inr (inr (inr e))) = (
    record s { output_mq = s.output_mq ++ c ∷ [] },
    ap (λ t. dedup_as extract_feature t s c) e,
    forward-IsRound fp s (record s { output_mq = s.output_mq ++ c ∷ [] }) c (ap is_compared e)
        (ap is_stored e) refl refl,
  )

rounds_sum : (n o r : Bool) → one_if (n && o) + one_if ((n && not o) && r) ≡ one_if (n && (o || r))
unfolding one_if
rounds_sum true true true = refl
rounds_sum true true false = refl
rounds_sum true false true = refl
rounds_sum true false false = refl
rounds_sum false o r = refl

-- The thread succeeds on any sequence of the chunks that it expects; of each fingerprint that is not in the index
-- and that some chunk of the sequence is compared under, exactly one chunk goes on to be stored, and
-- of every other fingerprint none.
pub dedup_run-stored :
    (extract_feature : Bytes → List ℕ) (fp : Bytes) (s : DualDedup) (cs : List WrappedChunk)
    → All IsPopped cs
    → (s' : DualDedup) × (dedup_run extract_feature s cs ≡ ok s')
      × (stored fp s'.output_mq
          ≡ stored fp s.output_mq + (if is_new fp s.fp_2_addr_db && is_offered fp cs then 1 else 0))
unfolding dedup_run is_offered one_if
dedup_run-stored extract_feature fp s [] h =
    (s, refl, rw (and-false (is_new fp s.fp_2_addr_db)) (omega arith))
dedup_run-stored extract_feature fp s (c ∷ cs) (h, hs) =
    let (s1, steps, (count1, new1)) = dedup_step-IsRound extract_feature fp s c h in
    let (s2, runs, count2) = dedup_run-stored extract_feature fp s1 cs hs in
    (
      s2,
      ap (λ o. o >>= λ s'. dedup_run extract_feature s' cs) steps ∙ runs,
      count2
          ∙ rw (count1, new1)
              (let n = is_new fp s.fp_2_addr_db in
                let e = rounds_sum n (offers fp c) (is_offered fp cs) in
                let h : stored fp s.output_mq
                      + one_if (n && offers fp c)
                      + one_if ((n && not (offers fp c)) && is_offered fp cs)
                    ≡ stored fp s.output_mq + one_if (n && (offers fp c || is_offered fp cs)) =
                  omega arith in
                h),
    )
