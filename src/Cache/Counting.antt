-- ===== src/Cache/Counting.antt =====
-- The invariant of the server's cache: a base's count is the number of features that lead to it,
-- and its data are stored. Insertion and eviction keep it.
use edrstore.Prelude.{
  ℕ, ◌+◌, ◌*◌, ◌≤◌, ◌<◌, ◌^◌, Option, none, some, Bytes, bytes_discrete, ℕ_discrete, find, assign,
  ◌≡◌, ◌≢◌, refl, arith, length, IsMap, Option-cases, inl, inr, find-assign_self, find-assign_ne,
  assign-IsMap, take, length-take, u32, ap,
}
use edrstore.Layout.{WrappedChunk, super_feature_per_chunk}
use edrstore.Reduction.Similar.{FeatureIndex, update_feature_index}
use edrstore.Cache.{KvStore, CntEntry, InformCache, insert_cached_chunk}
use edrstore.Cache.Refs.{
  refs, one_of_self, one_of_ne, refs-le-length, AreFresh, refs-update_feature_index,
  update_feature_index-IsMap,
}

abbrev pub Counts : Option CntEntry → ℕ → Type 0
Counts none n = n ≡ 0
Counts (some e) n = e.cnt ≡ n

abbrev pub Backs : Option CntEntry → Option Bytes → Type 0
Backs none none = Unit
Backs (some e) (some chunk) = length chunk ≡ e.chunk_size
Backs _ _ = ⊥

module _ {S : Type 0} (kv : KvStore S) where
  pub record IsCounted (c : InformCache S) : Type 0 where
    pub features_map : IsMap ℕ_discrete c.local_feature_2_fp_db
    pub bases_map : IsMap bytes_discrete c.base_2_cnt_idx
    pub counted :
        (b : Bytes)
        → Counts (find bytes_discrete b c.base_2_cnt_idx) (refs b c.local_feature_2_fp_db)
    pub backed :
        (b : Bytes) → Backs (find bytes_discrete b c.base_2_cnt_idx) (kv.get c.base_2_data_db b)

  module _ (c : InformCache S) (w : WrappedChunk) (h : IsCounted c)
      (three : length w.info.features ≡ super_feature_per_chunk)
      (fresh : AreFresh w.info.features c.local_feature_2_fp_db)
      (room : length c.local_feature_2_fp_db + super_feature_per_chunk < 2 ^ 32)
      (whole : w.info.size ≤ length w.buf) where
    abbrev fp : Bytes
    fp = w.info.fp

    abbrev db : FeatureIndex
    db = update_feature_index c.local_feature_2_fp_db w.info.features fp

    Counts-self :
        (old : Option CntEntry)
        → Counts old (refs fp c.local_feature_2_fp_db)
        → (elim old [
          | some e ↦ u32 (e.cnt + super_feature_per_chunk)
          | none ↦ super_feature_per_chunk
        ])
          ≡ refs fp db
    Counts-self none k = omega (
      arith,
      refs-update_feature_index fp w.info.features fp c.local_feature_2_fp_db fresh,
      one_of_self fp,
      ap (λ (t : ℕ). length w.info.features * t) (one_of_self fp),
    )
    Counts-self (some e) k = omega (
      arith,
      refs-update_feature_index fp w.info.features fp c.local_feature_2_fp_db fresh,
      refs-le-length fp c.local_feature_2_fp_db,
      ap (λ (t : ℕ). length w.info.features * t) (one_of_self fp),
    )

    refs_other : (b : Bytes) → b ≢ fp → refs b db ≡ refs b c.local_feature_2_fp_db
    refs_other b ne = omega (
      arith,
      refs-update_feature_index b w.info.features fp c.local_feature_2_fp_db fresh,
      ap (λ (t : ℕ). length w.info.features * t) (one_of_ne fp b ne),
    )

    insert_entry :
        (e : CntEntry) (s : S)
        → e.cnt ≡ refs fp db
        → Backs (some e) (kv.get s fp)
        → ((b : Bytes) → b ≢ fp → kv.get s b ≡ kv.get c.base_2_data_db b)
        → IsCounted (record c {
          base_2_data_db = s;
          local_feature_2_fp_db = db;
          base_2_cnt_idx = assign bytes_discrete fp e c.base_2_cnt_idx;
        })
    insert_entry e s count stored others = record {
      features_map =
          update_feature_index-IsMap w.info.features fp c.local_feature_2_fp_db h.features_map;
      bases_map = assign-IsMap bytes_discrete fp e c.base_2_cnt_idx h.bases_map;
      counted = λ b. elim (bytes_discrete b fp) [
        | yes p ↦ rw (p, find-assign_self bytes_discrete fp e c.base_2_cnt_idx) count
        | no n ↦
            rw (find-assign_ne bytes_discrete fp b e c.base_2_cnt_idx n, refs_other b n)
              (h.counted b)
      ];
      backed = λ b. elim (bytes_discrete b fp) [
        | yes p ↦ rw (p, find-assign_self bytes_discrete fp e c.base_2_cnt_idx) stored
        | no n ↦
            rw (find-assign_ne bytes_discrete fp b e c.base_2_cnt_idx n, others b n) (h.backed b)
      ];
    }

    -- `InsertCachedChunk` keeps the invariant if the chunk's three features are different from one
    -- another and lead nowhere yet, and the counts are below 2^32.
    pub insert_cached_chunk-IsCounted : IsCounted (insert_cached_chunk kv c w)
    unfolding insert_cached_chunk
    insert_cached_chunk-IsCounted = elim (Option-cases (find bytes_discrete fp c.base_2_cnt_idx)) [
      | inl new ↦
          rw (new, insert_cached_chunk)
            (insert_entry (record { cnt = super_feature_per_chunk; chunk_size = w.info.size })
              (kv.put c.base_2_data_db fp (take w.info.size w.buf))
              (Counts-self none (rw new at (h.counted fp)))
              (rw (kv.get-put_self c.base_2_data_db fp (take w.info.size w.buf))
                (omega (arith, length-take w.info.size w.buf)))
              (λ b n. kv.get-put_ne c.base_2_data_db fp b (take w.info.size w.buf) n))
      | inr (e, old) ↦
          rw (old, insert_cached_chunk)
            (insert_entry (record e { cnt = u32 (e.cnt + super_feature_per_chunk) })
              c.base_2_data_db (Counts-self (some e) (rw old at (h.counted fp)))
              (rw old at (h.backed fp)) (λ b n. refl))
    ]
