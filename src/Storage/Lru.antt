-- ===== src/Storage/Lru.antt =====
-- What the container cache relies on of `lru11::Cache<string, uint32_t>` (a library whose copy is
-- EDRStore/include/lruCache.h), built with `maxSize` `cap` and no elasticity. `peek` is the value
-- that a key stands for, `victim` the key of the entry that is least recently used.
use edrstore.Prelude.{ℕ, ◌+◌, ◌≤◌, Option, none, some, Bool, true, false, Bytes, ◌≡◌, ◌≢◌}

pub record LruCache (cap : ℕ) (L : Type 0) : Type 1 where
  pub IsLru : L → Type 0
  pub peek : L → Bytes → Option ℕ
  pub victim : L → Bytes
  pub size : L → ℕ
  pub contains : L → Bytes → Bool
  -- `none` where the library throws `KeyNotFound`.
  pub get : L → Bytes → Option ℕ × L
  pub insert : L → Bytes → ℕ → L
  pub prune_value : L → Option ℕ
  pub contains_lem :
      (s : L) (k : Bytes) → contains s k ≡ elim (peek s k) [ some i ↦ true | none ↦ false ]
  pub get_lem : (s : L) (k : Bytes) → (get s k).0 ≡ peek s k
  pub peek-get : (s : L) (k j : Bytes) → peek (get s k).1 j ≡ peek s j
  pub size-get : (s : L) (k : Bytes) → size (get s k).1 ≡ size s
  pub get-IsLru : (s : L) (k : Bytes) → IsLru s → IsLru (get s k).1
  pub size-le : (s : L) → IsLru s → size s ≤ cap
  pub insert-IsLru : (s : L) (k : Bytes) (i : ℕ) → IsLru s → peek s k ≡ none → IsLru (insert s k i)
  pub peek-insert_self :
      (s : L) (k : Bytes) (i : ℕ) → IsLru s → peek s k ≡ none → peek (insert s k i) k ≡ some i
  pub peek-insert_room :
      (s : L) (k j : Bytes) (i : ℕ)
      → IsLru s
      → peek s k ≡ none
      → size s + 1 ≤ cap
      → j ≢ k
      → peek (insert s k i) j ≡ peek s j
  pub size-insert_room :
      (s : L) (k : Bytes) (i : ℕ)
      → IsLru s
      → peek s k ≡ none
      → size s + 1 ≤ cap
      → size (insert s k i) ≡ size s + 1
  pub peek-insert_full :
      (s : L) (k j : Bytes) (i : ℕ)
      → IsLru s
      → peek s k ≡ none
      → size s ≡ cap
      → j ≢ k
      → j ≢ victim s
      → peek (insert s k i) j ≡ peek s j
  pub peek-insert_victim :
      (s : L) (k : Bytes) (i : ℕ)
      → IsLru s
      → peek s k ≡ none
      → size s ≡ cap
      → peek (insert s k i) (victim s) ≡ none
  pub size-insert_full :
      (s : L) (k : Bytes) (i : ℕ)
      → IsLru s
      → peek s k ≡ none
      → size s ≡ cap
      → size (insert s k i) ≡ size s
  pub prune_value_lem :
      (s : L)
      → IsLru s
      → size s ≡ cap
      → (i : ℕ) × (prune_value s ≡ some i) × (peek s (victim s) ≡ some i)
