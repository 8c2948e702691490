-- ===== src/Client/CacheMeta/Persistence.antt =====
-- What the client's map of features is after a restart.
use edrstore.Prelude.{
  ℕ, ◌+◌, ◌<◌, ◌^◌, [], ◌++◌, some, Bytes, ℕ_discrete, find, IsMap, All, length, u32, le_bytes,
  Ifstream, open_stream, read_int, read_int-append, load_map, store_entries, load_map-store_entries,
  assign_all, find-assign_all, ◌≡◌, ap, ◌∙◌, arith, length-append, length-le_bytes, not_zero-elim,
}
use mathlib.Core.List.{append_assoc}
use edrstore.Client.CacheMeta.{CacheMeta}
use edrstore.Client.CacheMeta.File.{
  entry_bytes, read_entry, store_cache_meta, load_cache_meta, fresh, start,
}

abbrev pub FitsEntry : ℕ × ℕ → Type 0
FitsEntry (feature, version_num) = (feature < 2 ^ 64) × (version_num < 2 ^ 32)

-- Numbers that their fields of the file can hold.
pub record FitsMeta (m : CacheMeta) : Type 0 where
  pub total : m.total_similar_chunk < 2 ^ 64
  pub version : m.cur_version_num < 2 ^ 32
  pub few : length m.feature_2_version_idx < 2 ^ 64
  pub entries : All FitsEntry m.feature_2_version_idx

read_entry-entry_bytes :
    (e f : ℕ × ℕ) (t : Bytes)
    → FitsEntry f
    → read_entry e (open_stream (entry_bytes f ++ t)) ≡ (f, open_stream t)
unfolding read_entry
read_entry-entry_bytes e (feature, version_num) t fits =
    ap (λ file. read_entry e (open_stream file))
      (append_assoc (le_bytes 8 feature) (le_bytes 4 version_num) t)
    ∙ ap (λ s. let r = read_int 4 e.1 s.1 in ((s.0, r.0), r.1))
        (read_int-append 8 e.0 feature (le_bytes 4 version_num ++ t) (omega (arith, fits.0)))
    ∙ ap (λ s. ((feature, s.0), s.1)) (read_int-append 4 e.1 version_num t (omega (arith, fits.1)))

load_cache_meta-store_cache_meta :
    (uninit : ℕ × ℕ) (m : CacheMeta)
    → FitsEntry uninit
    → FitsMeta m
    → load_cache_meta uninit (some (store_cache_meta m))
      ≡ record m { feature_2_version_idx = assign_all ℕ_discrete m.feature_2_version_idx [] }
unfolding load_cache_meta store_cache_meta
load_cache_meta-store_cache_meta uninit m u fits =
    let idx = m.feature_2_version_idx in
    let entries = store_entries entry_bytes idx in
    let file2 = le_bytes 8 (length idx) ++ entries in
    let file1 = le_bytes 4 m.cur_version_num ++ file2 in
    let from_map : ℕ → ℕ → ℕ × Ifstream → CacheMeta = (λ total version t. record {
      feature_2_version_idx = load_map ℕ_discrete read_entry uninit t;
      cur_version_num = version;
      total_similar_chunk = total;
    }) in
    let after_total : ℕ × Ifstream → CacheMeta =
      (λ t. let t1 = read_int 4 0 t.1 in from_map t.0 t1.0 (read_int 8 0 t1.1)) in
    let file = le_bytes 8 m.total_similar_chunk ++ file1 in
    not_zero-elim (length file) fresh (after_total (read_int 8 0 (open_stream file))) (
      omega (
        arith,
        length-append (le_bytes 8 m.total_similar_chunk) file1,
        length-le_bytes 8 m.total_similar_chunk,
      ))
    ∙ ap after_total (read_int-append 8 0 m.total_similar_chunk file1 (omega (arith, fits.total)))
    ∙ ap (λ t. from_map m.total_similar_chunk t.0 (read_int 8 0 t.1))
        (read_int-append 4 0 m.cur_version_num file2 (omega (arith, fits.version)))
    ∙ ap (from_map m.total_similar_chunk m.cur_version_num)
        (read_int-append 8 0 (length idx) entries (omega (arith, fits.few)))
    ∙ ap (λ i. record m { feature_2_version_idx = i })
        (load_map-store_entries ℕ_discrete read_entry entry_bytes FitsEntry idx uninit
          (λ e f t _ fits_f. read_entry-entry_bytes e f t fits_f) u fits.entries)

-- A map of features below 2^64, with versions below 2^32, is after a restart the same map, of a
-- version that is one more, modulo 2^32, with the same total.
pub start-store_cache_meta :
    (uninit : ℕ × ℕ) (m : CacheMeta)
    → FitsEntry uninit
    → FitsMeta m
    → IsMap ℕ_discrete m.feature_2_version_idx
    → ((start uninit (some (store_cache_meta m))).cur_version_num ≡ u32 (m.cur_version_num + 1))
      × ((start uninit (some (store_cache_meta m))).total_similar_chunk ≡ m.total_similar_chunk)
      × ((feature : ℕ)
          → find ℕ_discrete feature (start uninit (some (store_cache_meta m))).feature_2_version_idx
            ≡ find ℕ_discrete feature m.feature_2_version_idx)
unfolding start
start-store_cache_meta uninit m u fits is_map =
    let same = load_cache_meta-store_cache_meta uninit m u fits in
    (
      ap (λ n. u32 (n.cur_version_num + 1)) same,
      ap (λ n. n.total_similar_chunk) same,
      λ feature.
          ap (λ n. find ℕ_discrete feature n.feature_2_version_idx) same
          ∙ find-assign_all ℕ_discrete feature m.feature_2_version_idx is_map,
    )
