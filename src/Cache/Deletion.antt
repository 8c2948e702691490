-- ===== src/Cache/Deletion.antt =====
-- `DeleteEvictChunk` drops exactly the bases that no feature leads to any more.
use edrstore.Prelude.{
  ℕ, ◌+◌, ◌<◌, ◌^◌, List, [], ◌∷◌, Option, none, some, Bytes, bytes_discrete, find, ◌≡◌, refl,
  arith, IsMap, inl, inr, Bool-cases, ◌==◌, if◌then◌else◌, u64, ◌∙◌, sym, true, false, ltb,
}
use edrstore.Cache.{
  KvStore, CntEntry, InformCache, delete_loop, delete_evict_chunk, is_base_chunk_exist,
}
use edrstore.Cache.Refs.{refs}
use edrstore.Cache.Counting.{Counts, Backs, IsCounted}

-- What the loop leaves of an entry.
abbrev pub kept : Option CntEntry → Option CntEntry
kept none = none
kept (some e) = if e.cnt == 0 then none else some e

-- What it leaves of the data.
abbrev kept_data : Option CntEntry → Option Bytes → Option Bytes
kept_data none d = d
kept_data (some e) d = if e.cnt == 0 then none else d

-- The sizes of the chunks of an index.
unfoldable pub total_size : List (Bytes × CntEntry) → ℕ
total_size [] = 0
total_size ((fp, e) ∷ idx) = e.chunk_size + total_size idx

module _ {S : Type 0} (kv : KvStore S) where
  find-delete_loop :
      (b : Bytes) (idx : List (Bytes × CntEntry)) (db : S) (total : ℕ)
      → IsMap bytes_discrete idx
      → find bytes_discrete b (delete_loop kv idx db total).0 ≡ kept (find bytes_discrete b idx)
  unfolding delete_loop find
  find-delete_loop b [] db total u = refl
  find-delete_loop b ((fp, e) ∷ idx) db total u = ground (
    arith,
    u.0,
    find-delete_loop b idx (kv.delete db fp) total u.1,
    find-delete_loop b idx db (u64 (total + e.chunk_size)) u.1,
  )

  delete_loop-IsMap :
      (idx : List (Bytes × CntEntry)) (db : S) (total : ℕ)
      → IsMap bytes_discrete idx
      → IsMap bytes_discrete (delete_loop kv idx db total).0
  unfolding delete_loop
  delete_loop-IsMap [] db total u = tt
  delete_loop-IsMap ((fp, e) ∷ idx) db total u = elim (Bool-cases (e.cnt == 0)) [
    | inl gone ↦ rw (gone, delete_loop) (delete_loop-IsMap idx (kv.delete db fp) total u.1)
    | inr stays ↦
        rw (stays, delete_loop)
          (
            find-delete_loop fp idx db (u64 (total + e.chunk_size)) u.1 ∙ rw u.0,
            delete_loop-IsMap idx db (u64 (total + e.chunk_size)) u.1,
          )
  ]

  get-delete_loop :
      (b : Bytes) (idx : List (Bytes × CntEntry)) (db : S) (total : ℕ)
      → IsMap bytes_discrete idx
      → kv.get (delete_loop kv idx db total).1 b
        ≡ kept_data (find bytes_discrete b idx) (kv.get db b)
  unfolding delete_loop find
  get-delete_loop b [] db total u = refl
  get-delete_loop b ((fp, e) ∷ idx) db total u = elim (bytes_discrete fp b) [
    | yes p ↦ ground (
      arith,
      u.0,
      kv.get-delete_self db fp,
      get-delete_loop b idx (kv.delete db fp) total u.1,
      get-delete_loop b idx db (u64 (total + e.chunk_size)) u.1,
    )
    | no n ↦ ground (
      arith,
      kv.get-delete_ne db fp b (λ q. n (sym q)),
      get-delete_loop b idx (kv.delete db fp) total u.1,
      get-delete_loop b idx db (u64 (total + e.chunk_size)) u.1,
    )
  ]

  delete_loop-total :
      (idx : List (Bytes × CntEntry)) (db : S) (total : ℕ)
      → total < 2 ^ 64
      → (delete_loop kv idx db total).2 ≡ u64 (total + total_size (delete_loop kv idx db total).0)
  unfolding delete_loop total_size
  delete_loop-total [] db total h = omega arith
  delete_loop-total ((fp, e) ∷ idx) db total h = elim (Bool-cases (e.cnt == 0)) [
    | inl gone ↦ rw (gone, delete_loop) (delete_loop-total idx (kv.delete db fp) total h)
    | inr stays ↦
        rw (stays, delete_loop)
          (omega (arith, delete_loop-total idx db (u64 (total + e.chunk_size)) (omega arith)))
  ]

  Counts-kept : (o : Option CntEntry) (n : ℕ) → Counts o n → Counts (kept o) n
  Counts-kept none n h = h
  Counts-kept (some e) n h = elim (Bool-cases (e.cnt == 0)) [
    | inl gone ↦ rw gone (ground arith)
    | inr stays ↦ rw stays h
  ]

  Backs-kept : (o : Option CntEntry) (d : Option Bytes) → Backs o d → Backs (kept o) (kept_data o d)
  Backs-kept none d h = h
  Backs-kept (some e) d h = elim (Bool-cases (e.cnt == 0)) [
    | inl gone ↦ rw gone tt
    | inr stays ↦ rw stays h
  ]

  -- `DeleteEvictChunk` keeps the invariant and the feature index; a base is left in the cache
  -- exactly if some feature leads to it, and the total is the size of what is left, modulo 2^64.
  pub delete_evict_chunk-IsCounted :
      (c : InformCache S) (b : Bytes)
      → IsCounted kv c
      → let r = delete_evict_chunk kv c in
        IsCounted kv r.0
        × (r.0.local_feature_2_fp_db ≡ c.local_feature_2_fp_db)
        × (is_base_chunk_exist r.0 b ≡ ltb 0 (refs b c.local_feature_2_fp_db))
        × (r.1 ≡ u64 (total_size r.0.base_2_cnt_idx))
  unfolding delete_evict_chunk is_base_chunk_exist
  delete_evict_chunk-IsCounted c b h = (
    record {
      features_map = h.features_map;
      bases_map = delete_loop-IsMap c.base_2_cnt_idx c.base_2_data_db 0 h.bases_map;
      counted = λ a.
          rw (find-delete_loop a c.base_2_cnt_idx c.base_2_data_db 0 h.bases_map)
            (Counts-kept (find bytes_discrete a c.base_2_cnt_idx) _ (h.counted a));
      backed = λ a.
          rw
            (
              find-delete_loop a c.base_2_cnt_idx c.base_2_data_db 0 h.bases_map,
              get-delete_loop a c.base_2_cnt_idx c.base_2_data_db 0 h.bases_map,
            )
            (Backs-kept (find bytes_discrete a c.base_2_cnt_idx) _ (h.backed a));
    },
    refl,
    rw (find-delete_loop b c.base_2_cnt_idx c.base_2_data_db 0 h.bases_map, is_base_chunk_exist)
        (exists (find bytes_discrete b c.base_2_cnt_idx) _ (h.counted b)),
    omega (arith, delete_loop-total c.base_2_cnt_idx c.base_2_data_db 0 (omega arith)),
  )
    where
      exists :
          (o : Option CntEntry) (n : ℕ)
          → Counts o n
          → (elim (kept o) [ some e ↦ true | none ↦ false ]) ≡ ltb 0 n
      exists none n k = ground arith
      exists (some e) n k = ground arith
