-- ===== src/Storage/ContainerCache.antt =====
-- EDRStore/src/util/readCache.cc: the container cache, a pool of buffers whose indices an LRU cache
-- of a library hands out. Where that library throws `KeyNotFound` an empty buffer stands: `Read` is
-- called on cached names only.
use edrstore.Prelude.{
  ℕ, ◌+◌, ◌-◌, List, [], ◌++◌, none, some, Bool, Bytes, ltb, if◌then◌else◌, u32, take, set,
  get_elem?, replicate,
}
use edrstore.Storage.Lru.{LruCache}

pub record ReadCache (L : Type 0) : Type 0 where
  pub lru_state : L
  pub container_pool : List Bytes
  pub cache_size : ℕ
  pub item_size : ℕ
  pub current_index : ℕ

-- `memset` to 0, then `memcpy`.
unfoldable pub fill : ℕ → Bytes → ℕ → Bytes
fill item_size buf len = take len buf ++ replicate (item_size - len) 0

module _ {cap : ℕ} {L : Type 0} (lru : LruCache cap L) where
  unfoldable pub insert : ReadCache L → Bytes → Bytes → ℕ → ReadCache L
  unfolding fill
  insert c name buf len =
      if ltb c.cache_size (lru.size c.lru_state + 1)
      then elim (lru.prune_value c.lru_state) [
        | none ↦ c
        | some replace_index ↦ record c {
          container_pool = set c.container_pool replace_index (fill c.item_size buf len);
          lru_state = lru.insert c.lru_state name replace_index;
        }
      ]
      else record c {
        container_pool = set c.container_pool c.current_index (fill c.item_size buf len);
        lru_state = lru.insert c.lru_state name (u32 c.current_index);
        current_index = c.current_index + 1;
      }

  unfoldable pub exist : ReadCache L → Bytes → Bool
  exist c name = lru.contains c.lru_state name

  unfoldable pub read : ReadCache L → Bytes → Bytes × ReadCache L
  read c name =
      let (index, state) = lru.get c.lru_state name in
      (
        elim index [
          | none ↦ []
          | some i ↦ elim (get_elem? c.container_pool i) [ some buf ↦ buf | none ↦ [] ]
        ],
        record c { lru_state = state },
      )
