-- ===== src/Database/File.antt =====
-- EDRStore/src/database/in_mem_db.cc: the file that keeps the index between runs, which the
-- destructor writes and `OpenDB` reads. A file that cannot be opened is `none`.
use edrstore.Prelude.{
  ℕ, zero, suc, ◌+◌, ◌-◌, ◌==◌, List, [], ◌∷◌, ◌++◌, Option, none, some, true, false, Bytes,
  bytes_discrete, assign, length, take, replicate, u32, le_bytes, Ifstream, open_stream, read,
  read_int,
}

-- `~InMemoryDatabase`
unfoldable pub persist : List (Bytes × Bytes) → Bytes
persist [] = []
persist ((key, value) ∷ index_obj) =
    let key_size = u32 (length key) in
    let value_size = u32 (length value) in
    le_bytes 4 key_size
    ++ (take key_size key
        ++ (le_bytes 4 value_size ++ (take value_size value ++ persist index_obj)))

-- `resize(n, 0)`
unfoldable pub resize : ℕ → Bytes → Bytes
resize n str = take n str ++ replicate (n - length str) 0

-- What the strings `key` and `value` hold from the round before, the rest of the file, and the index.
pub record Loading : Type 0 where
  pub key : Bytes
  pub value : Bytes
  pub db_file : Ifstream
  pub index_obj : List (Bytes × Bytes)

-- The part of a round that follows the size of the key.
unfoldable pub load_item : ℕ → Ifstream → Loading → Loading
unfolding read read_int resize
load_item item_size s l =
    let (key, s1) = read (resize item_size l.key) s in
    let (value_size, s2) = read_int 4 item_size s1 in
    let (value, s3) = read (resize value_size l.value) s2 in
    record {
      key = key;
      value = value;
      db_file = s3;
      index_obj = assign bytes_discrete key value l.index_obj;
    }

-- The loop of `OpenDB`. `none` when the fuel is spent.
unfoldable pub load_loop : ℕ → Loading → Option (List (Bytes × Bytes))
unfolding load_item
load_loop zero l = none
load_loop (suc fuel) l =
    let (item_size, s) = read_int 4 0 l.db_file in
    elim (item_size == 0) [
      | true ↦ some l.index_obj
      | false ↦
          let l' = load_item item_size s l in
          elim (l'.db_file.fail) [ true ↦ some l'.index_obj | false ↦ load_loop fuel l' ]
    ]

-- `OpenDB` on a new object
unfoldable pub open_db : Option Bytes → Option (List (Bytes × Bytes))
unfolding load_loop
open_db none = some []
open_db (some file) = elim (length file == 0) [
  | true ↦ some []
  | false ↦
      load_loop (length file + 1)
        (record { key = []; value = []; db_file = open_stream file; index_obj = [] })
]
