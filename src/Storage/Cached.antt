-- ===== src/Storage/Cached.antt =====
-- The container cache holds nothing but copies of the files on disk, and stays so.
use edrstore.Prelude.{
  ℕ, ◌+◌, ◌-◌, ◌≤◌, ◌<◌, ◌^◌, List, ◌++◌, none, some, true, Bytes, bytes_discrete, find, ◌≡◌, ◌≢◌,
  refl, arith, length, set, get_elem?, replicate, u32, ltb, Bool-cases, Option-cases, inl, inr, ◌∙◌,
  sym, ap, length-set, get_elem?-set_self, get_elem?-set_ne, take_of_length-le, subst,
}
use edrstore.Storage.{Disk}
use edrstore.Storage.Lru.{LruCache}
use edrstore.Storage.ContainerCache
use edrstore.Storage.ContainerCache.{ReadCache, fill}

-- A buffer of the pool that holds a file: the file, and zeros behind it.
abbrev pub Holds : Disk → List Bytes → Bytes → ℕ → Type 0
Holds disk pool name i =
    (file : Bytes) × (zeros : Bytes) × (find bytes_discrete name disk ≡ some file)
    × (get_elem? pool i ≡ some (file ++ zeros))

module _ {cap : ℕ} {L : Type 0} (lru : LruCache cap L) where
  pub record IsCopy (disk : Disk) (c : ReadCache L) : Type 0 where
    pub lru_valid : lru.IsLru c.lru_state
    pub capacity : c.cache_size ≡ cap
    pub narrow : cap < 2 ^ 32
    pub pool_size : length c.container_pool ≡ cap
    pub next_index : c.current_index ≡ lru.size c.lru_state
    pub holds :
        (name : Bytes) (i : ℕ)
        → lru.peek c.lru_state name ≡ some i
        → (i < c.current_index) × Holds disk c.container_pool name i
    pub distinct :
        (name other : Bytes) (i : ℕ)
        → lru.peek c.lru_state name ≡ some i
        → lru.peek c.lru_state other ≡ some i
        → name ≡ other

  module _ {disk : Disk} {c : ReadCache L} (h : IsCopy disk c) where
    pub read-IsCopy : (name : Bytes) → IsCopy disk (ContainerCache.read lru c name).1
    unfolding ContainerCache.read
    read-IsCopy name = record {
      lru_valid = lru.get-IsLru c.lru_state name h.lru_valid;
      capacity = h.capacity;
      narrow = h.narrow;
      pool_size = h.pool_size;
      next_index = h.next_index ∙ sym (lru.size-get c.lru_state name);
      holds = λ other i e. h.holds other i (sym (lru.peek-get c.lru_state name other) ∙ e);
      distinct = λ a b i p q.
          h.distinct a b i (sym (lru.peek-get c.lru_state name a) ∙ p)
            (sym (lru.peek-get c.lru_state name b) ∙ q);
    }

    -- A name that the cache holds is read as its file, with zeros behind it.
    pub read_cached :
        (name : Bytes)
        → ContainerCache.exist lru c name ≡ true
        → (file : Bytes) × (zeros : Bytes) × (find bytes_discrete name disk ≡ some file)
          × ((ContainerCache.read lru c name).0 ≡ file ++ zeros)
    unfolding ContainerCache.read ContainerCache.exist
    read_cached name e = elim (Option-cases (lru.peek c.lru_state name)) [
      | inl absent ↦ absurd (ground (arith, lru.contains_lem c.lru_state name))
      | inr (i, held) ↦
          let (file, zeros, on_disk, in_pool) = (h.holds name i held).1 in
          (file, zeros, on_disk, rw (lru.get_lem c.lru_state name, held, in_pool))
    ]

  module _ {disk : Disk} {c : ReadCache L} (h : IsCopy disk c) (name file : Bytes)
      (new : lru.peek c.lru_state name ≡ none)
      (on_disk : find bytes_discrete name disk ≡ some file) where
    -- The file, stored at index `k`, in the pool and in the LRU cache.
    abbrev stored : ℕ → ℕ → ReadCache L
    stored k next = record c {
      container_pool = set c.container_pool k (fill c.item_size file (length file));
      lru_state = lru.insert c.lru_state name k;
      current_index = next;
    }

    Holds-self :
        (k next : ℕ)
        → k < length c.container_pool
        → Holds disk (stored k next).container_pool name k
    unfolding fill
    Holds-self k next below = (
      file,
      replicate (c.item_size - length file) 0,
      on_disk,
      get_elem?-set_self c.container_pool k _ below
          ∙ ap (λ (t : Bytes). some (t ++ replicate (c.item_size - length file) 0))
              (take_of_length-le (length file) file (omega arith)),
    )

    -- Where the index is not one of an entry that stays, the cache stays a copy of the disk.
    stored-IsCopy :
        (k next : ℕ)
        → k < cap
        → k < next
        → c.current_index ≤ next
        → next ≡ lru.size (lru.insert c.lru_state name k)
        → ((other : Bytes) (i : ℕ)
            → other ≢ name
            → lru.peek (lru.insert c.lru_state name k) other ≡ some i
            → (lru.peek c.lru_state other ≡ some i) × (i ≢ k))
        → IsCopy disk (stored k next)
    stored-IsCopy k next below low grows sized others = record {
      lru_valid = lru.insert-IsLru c.lru_state name k h.lru_valid new;
      capacity = h.capacity;
      narrow = h.narrow;
      pool_size = length-set c.container_pool k _ ∙ h.pool_size;
      next_index = sized;
      holds = λ other i e. elim (bytes_discrete other name) [
        | yes p ↦
            let at_k : k ≡ i = same_index other i p e in
            (
              omega arith,
              subst (λ n. Holds disk (stored k next).container_pool n i) (sym p)
                  (subst (λ j. Holds disk (stored k next).container_pool name j) at_k
                    (Holds-self k next (omega (arith, h.pool_size)))),
            )
        | no n ↦
            let (old, ne) = others other i n e in
            let (below', (f, z, d, pool)) = h.holds other i old in
            (
              omega arith,
              (f, z, d, get_elem?-set_ne c.container_pool k i _ (λ q. ne (sym q)) ∙ pool),
            )
      ];
      distinct = λ a b i p q. elim (bytes_discrete a name) [
        | yes ea ↦ elim (bytes_discrete b name) [
          | yes eb ↦ ea ∙ sym eb
          | no nb ↦ absurd ((others b i nb q).1 (sym (same_index a i ea p)))
        ]
        | no na ↦ elim (bytes_discrete b name) [
          | yes eb ↦ absurd ((others a i na p).1 (sym (same_index b i eb q)))
          | no nb ↦ h.distinct a b i (others a i na p).0 (others b i nb q).0
        ]
      ];
    }
      where
        same_index :
            (other : Bytes) (i : ℕ)
            → other ≡ name
            → lru.peek (lru.insert c.lru_state name k) other ≡ some i
            → k ≡ i
        same_index other i p e =
            let e' : lru.peek (lru.insert c.lru_state name k) name ≡ some i = rw p at e in
            ground (arith, lru.peek-insert_self c.lru_state name k h.lru_valid new)

    -- `ReadCache::Insert` of a file that is not cached keeps the cache a copy of the disk.
    pub insert-IsCopy : 0 < cap → IsCopy disk (ContainerCache.insert lru c name file (length file))
    unfolding ContainerCache.insert
    insert-IsCopy some_room = elim (Bool-cases (ltb c.cache_size (lru.size c.lru_state + 1))) [
      | inl full ↦
          let (k, prunes, at_victim) = lru.prune_value_lem c.lru_state h.lru_valid (filled full) in
          rw (full, ContainerCache.insert, prunes)
            (subst (λ (t : ℕ). IsCopy disk (stored k t)) refl
              (stored-IsCopy k c.current_index
                (omega (
                  arith,
                  (h.holds (lru.victim c.lru_state) k at_victim).0,
                  filled full,
                  h.next_index,
                ))
                (h.holds (lru.victim c.lru_state) k at_victim).0 (omega arith)
                (h.next_index
                  ∙ sym (lru.size-insert_full c.lru_state name k h.lru_valid new (filled full)))
                (others_full k full at_victim)))
      | inr room ↦
          let e : u32 c.current_index ≡ c.current_index =
            ground (arith, h.next_index, h.capacity, h.narrow) in
          let free : lru.size c.lru_state + 1 ≤ cap = ground (arith, h.capacity) in
          rw (room, ContainerCache.insert, e)
            (stored-IsCopy c.current_index (c.current_index + 1) (omega (arith, h.next_index))
              (omega arith) (omega arith)
              (omega (
                arith,
                h.next_index,
                lru.size-insert_room c.lru_state name c.current_index h.lru_valid new free,
              ))
              (λ other i ne p.
                let old : lru.peek c.lru_state other ≡ some i =
                  sym (
                    lru.peek-insert_room c.lru_state name other c.current_index h.lru_valid new free
                      ne)
                  ∙ p in
                (old, λ q. absurd (omega (arith, (h.holds other i old).0)))))
    ]
      where
        filled : ltb c.cache_size (lru.size c.lru_state + 1) ≡ true → lru.size c.lru_state ≡ cap
        filled full = ground (arith, h.capacity, lru.size-le c.lru_state h.lru_valid)

        others_full :
            (k : ℕ)
            → ltb c.cache_size (lru.size c.lru_state + 1) ≡ true
            → lru.peek c.lru_state (lru.victim c.lru_state) ≡ some k
            → (other : Bytes) (i : ℕ) → other ≢ name
            → lru.peek (lru.insert c.lru_state name k) other ≡ some i
            → (lru.peek c.lru_state other ≡ some i) × (i ≢ k)
        others_full k full at_victim other i ne p =
            elim (bytes_discrete other (lru.victim c.lru_state)) [
              | yes v ↦
                  let gone : lru.peek (lru.insert c.lru_state name k) other ≡ none =
                    rw v
                      (lru.peek-insert_victim c.lru_state name k h.lru_valid new (filled full)) in
                  absurd (ground arith)
              | no nv ↦
                  let old : lru.peek c.lru_state other ≡ some i =
                    sym (
                      lru.peek-insert_full c.lru_state name other k h.lru_valid new (filled full) ne
                        nv)
                    ∙ p in
                  (old, λ q. nv (h.distinct other (lru.victim c.lru_state) i old (rw q at_victim)))
            ]
