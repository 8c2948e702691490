-- ===== src/Database/Refines.antt =====
-- The index in memory as a finite function from keys to values, over calls and restarts in any order.
use edrstore.Prelude.{
  ◌<◌, ◌^◌, List, [], ◌∷◌, Option, none, some, true, false, Bytes, bytes_discrete, assign, erase,
  find, find-assign_self, find-assign_ne, find-erase_self, find-erase_ne, IsMap, assign-IsMap,
  erase-IsMap, assign_all, assign_all-IsMap, find-assign_all, All, All-assign, All-assign_all,
  All-erase, length, ite, if_pos, if_neg, ◌≡◌, refl, sym, ap, ◌∙◌,
}
use edrstore.Database.{Answer, query, insert, delete}
use edrstore.Database.File.{persist, open_db}
use edrstore.Database.Persistence.{FitsFile, open_db_lem}

-- The calls of `AbsDatabase`, and the end of the process with a start of the next one.
pub data Call : Type 0 where
  query_key : Bytes → Call
  insert_pair : Bytes → Bytes → Call
  delete_key : Bytes → Call
  restart : Call

-- The answers to the queries, in order, and the index. `none` where opening the file would not end.
unfoldable pub run :
    List Call → List (Bytes × Bytes) → Option (List (Answer Bytes) × List (Bytes × Bytes))
unfolding query insert delete persist open_db
run [] idx = some ([], idx)
run (query_key key ∷ calls) idx = elim (run calls idx) [
  | some r ↦ some (query bytes_discrete idx key ∷ r.0, r.1)
  | none ↦ none
]
run (insert_pair key value ∷ calls) idx = run calls (insert bytes_discrete idx key value).0
run (delete_key key ∷ calls) idx = run calls (delete bytes_discrete idx key)
run (restart ∷ calls) idx = elim (open_db (some (persist idx))) [
  | some idx' ↦ run calls idx'
  | none ↦ none
]

-- A function, changed at one key.
abbrev pub change : (Bytes → Option Bytes) → Bytes → Option Bytes → Bytes → Option Bytes
change f key v k = ite (bytes_discrete k key) v (f k)

abbrev pub answer_of : Option Bytes → Answer Bytes
answer_of none = record { value = none; ret = false }
answer_of (some v) = record { value = some v; ret = true }

-- The same calls on a function; a restart changes nothing.
unfoldable pub replay : List Call → (Bytes → Option Bytes) → List (Answer Bytes)
replay [] f = []
replay (query_key key ∷ calls) f = answer_of (f key) ∷ replay calls f
replay (insert_pair key value ∷ calls) f = replay calls (change f key (some value))
replay (delete_key key ∷ calls) f = replay calls (change f key none)
replay (restart ∷ calls) f = replay calls f

-- Pairs that the file can hold.
abbrev pub FitsCall : Call → Type 0
FitsCall (insert_pair key value) =
    (0 < length key) × (length key < 2 ^ 32) × (length value < 2 ^ 32)
FitsCall _ = Unit

record Represents (idx : List (Bytes × Bytes)) (f : Bytes → Option Bytes) : Type 0 where
  is_map : IsMap bytes_discrete idx
  fits : FitsFile idx
  same : (k : Bytes) → find bytes_discrete k idx ≡ f k

insert-Represents :
    (key value : Bytes) (idx : List (Bytes × Bytes)) (f : Bytes → Option Bytes)
    → FitsCall (insert_pair key value)
    → Represents idx f
    → Represents (assign bytes_discrete key value idx) (change f key (some value))
insert-Represents key value idx f fit h = record {
  is_map = assign-IsMap bytes_discrete key value idx h.is_map;
  fits = All-assign bytes_discrete _ key value idx fit h.fits;
  same = λ k. elim (bytes_discrete k key) [
    | yes p ↦
        ap (λ i. find bytes_discrete i (assign bytes_discrete key value idx)) p
        ∙ find-assign_self bytes_discrete key value idx
        ∙ sym (if_pos (bytes_discrete k key) p (some value) (f k))
    | no n ↦
        find-assign_ne bytes_discrete key k value idx n
        ∙ h.same k
        ∙ sym (if_neg (bytes_discrete k key) n (some value) (f k))
  ];
}

delete-Represents :
    (key : Bytes) (idx : List (Bytes × Bytes)) (f : Bytes → Option Bytes)
    → Represents idx f
    → Represents (erase bytes_discrete key idx) (change f key none)
delete-Represents key idx f h = record {
  is_map = erase-IsMap bytes_discrete key idx h.is_map;
  fits = All-erase bytes_discrete _ key idx h.fits;
  same = λ k. elim (bytes_discrete k key) [
    | yes p ↦
        ap (λ i. find bytes_discrete i (erase bytes_discrete key idx)) p
        ∙ find-erase_self bytes_discrete key idx
        ∙ sym (if_pos (bytes_discrete k key) p none (f k))
    | no n ↦
        find-erase_ne bytes_discrete key k idx n
        ∙ h.same k
        ∙ sym (if_neg (bytes_discrete k key) n none (f k))
  ];
}

restart-Represents :
    (idx : List (Bytes × Bytes)) (f : Bytes → Option Bytes)
    → Represents idx f
    → Represents (assign_all bytes_discrete idx []) f
restart-Represents idx f h = record {
  is_map = assign_all-IsMap bytes_discrete idx [] tt;
  fits = All-assign_all bytes_discrete _ idx [] h.fits tt;
  same = λ k. find-assign_all bytes_discrete k idx h.is_map ∙ h.same k;
}

query-Represents :
    (key : Bytes) (idx : List (Bytes × Bytes)) (f : Bytes → Option Bytes)
    → Represents idx f
    → query bytes_discrete idx key ≡ answer_of (f key)
unfolding query
query-Represents key idx f h =
    elim (find bytes_discrete key idx)
      as (λ o.
        (elim o as (λ _. Answer Bytes) [
          | some v ↦ record { value = some v; ret = true }
          | none ↦ record { value = none; ret = false }
        ])
        ≡ answer_of o) [ none ↦ refl | some v ↦ refl ]
    ∙ ap answer_of (h.same key)

run-Represents :
    (calls : List Call) (idx : List (Bytes × Bytes)) (f : Bytes → Option Bytes)
    → All FitsCall calls
    → Represents idx f
    → (idx' : List (Bytes × Bytes)) × (run calls idx ≡ some (replay calls f, idx'))
unfolding run replay insert delete
run-Represents [] idx f fit h = (idx, refl)
run-Represents (query_key key ∷ calls) idx f fit h =
    let (idx', runs) = run-Represents calls idx f fit.1 h in
    (
      idx',
      ap
            (λ o. elim o as (λ _. Option (List (Answer Bytes) × List (Bytes × Bytes))) [
              | some r ↦ some (query bytes_discrete idx key ∷ r.0, r.1)
              | none ↦ none
            ])
            runs
          ∙ ap (λ a. some (a ∷ replay calls f, idx')) (query-Represents key idx f h),
    )
run-Represents (insert_pair key value ∷ calls) idx f fit h =
    run-Represents calls (assign bytes_discrete key value idx) (change f key (some value)) fit.1
      (insert-Represents key value idx f fit.0 h)
run-Represents (delete_key key ∷ calls) idx f fit h =
    run-Represents calls (erase bytes_discrete key idx) (change f key none) fit.1
      (delete-Represents key idx f h)
run-Represents (restart ∷ calls) idx f fit h =
    let (idx', runs) =
      run-Represents calls (assign_all bytes_discrete idx []) f fit.1
        (restart-Represents idx f h) in
    (
      idx',
      ap
            (λ o. elim o as (λ _. Option (List (Answer Bytes) × List (Bytes × Bytes))) [
              | some i ↦ run calls i
              | none ↦ none
            ])
            (open_db_lem idx h.fits)
          ∙ runs,
    )

-- Any calls and restarts from an empty index, in any order, with keys that are not empty and sizes in
-- 32 bits, come to an end and answer the queries as a function from keys to values does that each
-- insertion and deletion changes at one key and a restart leaves alone.
pub run-replay :
    (calls : List Call)
    → All FitsCall calls
    → (idx : List (Bytes × Bytes)) × (run calls [] ≡ some (replay calls (λ _. none), idx))
unfolding find
run-replay calls fit =
    run-Represents calls [] (λ _. none) fit (record { is_map = tt; fits = tt; same = λ k. refl })
