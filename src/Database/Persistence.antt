-- ===== src/Database/Persistence.antt =====
-- The file of the index: reading it always ends, and gives back what was written.
use edrstore.Prelude.{
  ℕ, zero, suc, ◌+◌, ◌-◌, ◌^◌, ◌≤◌, ◌<◌, ◌==◌, List, [], ◌∷◌, ◌++◌, Option, none, some, true, false,
  Bytes, bytes_discrete, assign, IsMap, length, take, drop, replicate, u32, le_bytes, Ifstream,
  open_stream, read, read_int, ◌≡◌, refl, sym, ap, ◌∙◌, arith, Bool-cases, inl, inr, All,
  length-append, length-take, length-drop, take_of_length-le, length-le_bytes, le_value,
  length-replicate, not_zero-elim, read-append, read_int-append, assign_all, find-assign_all,
}
use edrstore.Database.{Answer, query}
use edrstore.Database.File.{persist, resize, Loading, load_item, load_loop, open_db}

-- A read that does not fail has found all the bytes that it was asked for.
read-fail :
    (buf : Bytes) (s : Ifstream)
    → (read buf s).1.fail ≡ false
    → (s.fail ≡ false) × (length (read buf s).1.rest + length buf ≡ length s.rest)
unfolding read
read-fail buf s h = elim (Bool-cases s.fail) [
  | inl e ↦ absurd (ground arith)
  | inr e ↦
      let long : length buf ≤ length s.rest = ground arith in
      (e, rw (e) (omega (arith, length-drop (length buf) s.rest)))
]

load_item-consumes :
    (item_size : ℕ) (s : Ifstream) (l : Loading)
    → (load_item item_size s l).db_file.fail ≡ false
    → (s.fail ≡ false) × (length (load_item item_size s l).db_file.rest ≤ length s.rest)
unfolding load_item read_int
load_item-consumes item_size s l h =
    let r1 = read (resize item_size l.key) s in
    let r2 = read (le_bytes 4 item_size) r1.1 in
    let h3 = read-fail (resize (le_value r2.0) l.value) r2.1 h in
    let h2 = read-fail (le_bytes 4 item_size) r1.1 h3.0 in
    let h1 = read-fail (resize item_size l.key) s h2.0 in (h1.0, omega (arith, h1.1, h2.1, h3.1))

load_loop-ends :
    (fuel : ℕ) (l : Loading)
    → length l.db_file.rest < fuel
    → (m : List (Bytes × Bytes)) × (load_loop fuel l ≡ some m)
unfolding load_loop
load_loop-ends zero l h = absurd (omega arith)
load_loop-ends (suc fuel) l h =
    let item_size = (read_int 4 0 l.db_file).0 in
    let s = (read_int 4 0 l.db_file).1 in
    let l' = load_item item_size s l in
    elim (Bool-cases (item_size == 0)) [
      | inl e ↦ (l.index_obj, rw (e, load_loop) refl)
      | inr e ↦ elim (Bool-cases (l'.db_file.fail)) [
        | inl f ↦ (l'.index_obj, rw (e, f, load_loop) refl)
        | inr f ↦
            let (ok, less) = load_item-consumes item_size s l f in
            let (_, read4) = read-fail (le_bytes 4 0) l.db_file ok in
            let (m, ends) =
              load_loop-ends fuel l' (omega (arith, less, read4, length-le_bytes 4 0)) in
            (m, rw (e, f, load_loop) ends)
      ]
    ]

-- `OpenDB` comes to an end on every file, damaged or cut off as it may be.
pub open_db-ends : (file : Option Bytes) → (m : List (Bytes × Bytes)) × (open_db file ≡ some m)
unfolding open_db
open_db-ends none = ([], refl)
open_db-ends (some file) = elim (Bool-cases (length file == 0)) [
  | inl e ↦ ([], rw (e, open_db) refl)
  | inr e ↦
      let (m, ends) =
        load_loop-ends (length file + 1)
          (record { key = []; value = []; db_file = open_stream file; index_obj = [] })
          (omega arith) in
      (m, rw (e, open_db) ends)
]

-- What every entry of the index has that the file can hold: a key that is not empty, and sizes in
-- 32 bits.
abbrev pub FitsFile : List (Bytes × Bytes) → Type 0
FitsFile = All (λ e. (0 < length e.0) × (length e.0 < 2 ^ 32) × (length e.1 < 2 ^ 32))

length-resize : (n : ℕ) (str : Bytes) → length (resize n str) ≡ n
unfolding resize
length-resize n str = omega (
  arith,
  length-append (take n str) (replicate (n - length str) 0),
  length-take n str,
  length-replicate {A = ℕ} (n - length str) 0,
)

-- A round on a file that starts with an entry reads this entry.
load_item_lem :
    (k v r : Bytes) (l : Loading)
    → length v < 2 ^ 32
    → load_item (length k) (open_stream (k ++ (le_bytes 4 (length v) ++ (v ++ r)))) l ≡ record {
      key = k;
      value = v;
      db_file = open_stream r;
      index_obj = assign bytes_discrete k v l.index_obj;
    }
unfolding load_item
load_item_lem k v r l small =
    let after_value : Bytes × Ifstream → Loading = (λ t. record {
      key = k;
      value = t.0;
      db_file = t.1;
      index_obj = assign bytes_discrete k t.0 l.index_obj;
    }) in
    let after_size : ℕ × Ifstream → Loading = (λ t. after_value (read (resize t.0 l.value) t.1)) in
    let after_key : Bytes × Ifstream → Loading = (λ t.
      let size = read_int 4 (length k) t.1 in
      let rest = read (resize size.0 l.value) size.1 in
      record {
        key = t.0;
        value = rest.0;
        db_file = rest.1;
        index_obj = assign bytes_discrete t.0 rest.0 l.index_obj;
      }) in
    ap after_key (
      read-append (resize (length k) l.key) k (le_bytes 4 (length v) ++ (v ++ r))
        (sym (length-resize (length k) l.key)))
    ∙ ap after_size (read_int-append 4 (length k) (length v) (v ++ r) small)
    ∙ ap after_value
        (read-append (resize (length v) l.value) v r (sym (length-resize (length v) l.value)))

-- The rest of a round, from the size of the key.
abbrev round_from : ℕ → Loading → ℕ × Ifstream → Option (List (Bytes × Bytes))
round_from fuel l t = elim (t.0 == 0) [
  | true ↦ some l.index_obj
  | false ↦
      let l' = load_item t.0 t.1 l in
      elim (l'.db_file.fail) [ true ↦ some l'.index_obj | false ↦ load_loop fuel l' ]
]

persist_cons :
    (k v : Bytes) (m : List (Bytes × Bytes))
    → length k < 2 ^ 32
    → length v < 2 ^ 32
    → persist ((k, v) ∷ m)
      ≡ le_bytes 4 (length k) ++ (k ++ (le_bytes 4 (length v) ++ (v ++ persist m)))
unfolding persist
persist_cons k v m k32 v32 =
    let ks : u32 (length k) ≡ length k = omega arith in
    let vs : u32 (length v) ≡ length v = omega arith in
    rw
      (
        ks,
        vs,
        take_of_length-le (length k) k (omega arith),
        take_of_length-le (length v) v (omega arith),
      )
      refl

load_loop_lem :
    (m : List (Bytes × Bytes)) (fuel : ℕ) (l : Loading)
    → FitsFile m
    → length m < fuel
    → l.db_file ≡ open_stream (persist m)
    → load_loop fuel l ≡ some (assign_all bytes_discrete m l.index_obj)
unfolding load_loop persist assign_all le_value take le_bytes drop
load_loop_lem m zero l fits enough e = absurd (omega arith)
load_loop_lem [] (suc fuel) l fits enough e = ap (λ s. round_from fuel l (read_int 4 0 s)) e
load_loop_lem ((k, v) ∷ m) (suc fuel) l fits enough e =
    let r = k ++ (le_bytes 4 (length v) ++ (v ++ persist m)) in
    let l' : Loading = record {
      key = k;
      value = v;
      db_file = open_stream (persist m);
      index_obj = assign bytes_discrete k v l.index_obj;
    } in
    let not_empty : (length k == 0) ≡ false = ground (arith, fits.0) in
    ap (λ s. round_from fuel l (read_int 4 0 s))
      (e ∙ ap open_stream (persist_cons k v m fits.0.1 fits.0.2))
    ∙ ap (round_from fuel l) (read_int-append 4 0 (length k) r (omega (arith, fits.0.1)))
    ∙ ap
        (λ b. elim b as (λ _. Option (List (Bytes × Bytes))) [
          | true ↦ some l.index_obj
          | false ↦
              let l' = load_item (length k) (open_stream r) l in
              elim (l'.db_file.fail) [ true ↦ some l'.index_obj | false ↦ load_loop fuel l' ]
        ])
        not_empty
    ∙ ap
        (λ l'. elim (l'.db_file.fail) as (λ _. Option (List (Bytes × Bytes))) [
          | true ↦ some l'.index_obj
          | false ↦ load_loop fuel l'
        ])
        (load_item_lem k v (persist m) l fits.0.2)
    ∙ load_loop_lem m fuel l' fits.1 (omega arith) refl

length-le-persist : (m : List (Bytes × Bytes)) → length m ≤ length (persist m)
unfolding persist
length-le-persist [] = omega arith
length-le-persist ((k, v) ∷ m) = omega (
  arith,
  length-append (le_bytes 4 (u32 (length k))) (
      take (u32 (length k)) k
      ++ (le_bytes 4 (u32 (length v)) ++ (take (u32 (length v)) v ++ persist m))),
  length-append (take (u32 (length k)) k)
      (le_bytes 4 (u32 (length v)) ++ (take (u32 (length v)) v ++ persist m)),
  length-append (le_bytes 4 (u32 (length v))) (take (u32 (length v)) v ++ persist m),
  length-append (take (u32 (length v)) v) (persist m),
  length-le_bytes 4 (u32 (length k)),
  length-le-persist m,
)

pub open_db_lem :
    (m : List (Bytes × Bytes))
    → FitsFile m
    → open_db (some (persist m)) ≡ some (assign_all bytes_discrete m [])
unfolding open_db persist assign_all
open_db_lem [] fits = refl
open_db_lem ((k, v) ∷ m) fits =
    let file = persist ((k, v) ∷ m) in
    not_zero-elim (length file) (some [])
      (load_loop (length file + 1)
        (record { key = []; value = []; db_file = open_stream file; index_obj = [] }))
      (omega (arith, length-le-persist ((k, v) ∷ m)))
    ∙ load_loop_lem ((k, v) ∷ m) (length file + 1)
        (record { key = []; value = []; db_file = open_stream file; index_obj = [] }) fits
        (omega (arith, length-le-persist ((k, v) ∷ m))) refl

-- An index whose keys are not empty and whose keys and values have sizes in 32 bits answers every
-- query after a restart as it did before the file was written.
pub open_db-persist :
    (index_obj : List (Bytes × Bytes))
    → IsMap bytes_discrete index_obj
    → FitsFile index_obj
    → (index_obj' : List (Bytes × Bytes)) × (open_db (some (persist index_obj)) ≡ some index_obj')
      × ((key : Bytes) → query bytes_discrete index_obj' key ≡ query bytes_discrete index_obj key)
unfolding query
open_db-persist index_obj u fits = (
  assign_all bytes_discrete index_obj [],
  open_db_lem index_obj fits,
  λ key.
      ap
        (λ found. elim found as (λ _. Answer Bytes) [
          | some v ↦ record { value = some v; ret = true }
          | none ↦ record { value = none; ret = false }
        ])
        (find-assign_all bytes_discrete key index_obj u),
)
