-- ===== src/Client/CacheMeta/File.antt =====
-- EDRStore/src/client/cache_meta.cc: the file that keeps the map of features between runs. The
-- destructor stores it and the constructor loads it. A file that does not exist is `none`.
use edrstore.Prelude.{
  ℕ, ◌+◌, ◌==◌, [], ◌++◌, Option, none, some, true, false, Bytes, ℕ_discrete, length, u32, le_bytes,
  Ifstream, open_stream, read_int, load_map, store_entries,
}
use edrstore.Client.CacheMeta.{CacheMeta}

abbrev pub entry_bytes : ℕ × ℕ → Bytes
entry_bytes (feature, version_num) = le_bytes 8 feature ++ le_bytes 4 version_num

unfoldable pub read_entry : ℕ × ℕ → Ifstream → (ℕ × ℕ) × Ifstream
unfolding read_int
read_entry (feature, version_num) s =
    let (f, s1) = read_int 8 feature s in let (v, s2) = read_int 4 version_num s1 in ((f, v), s2)

-- `StoreCacheMeta`
unfoldable pub store_cache_meta : CacheMeta → Bytes
unfolding store_entries
store_cache_meta m =
    le_bytes 8 m.total_similar_chunk
    ++ (le_bytes 4 m.cur_version_num
        ++ (le_bytes 8 (length m.feature_2_version_idx)
            ++ store_entries entry_bytes m.feature_2_version_idx))

-- The members before the constructor's body.
abbrev pub fresh : CacheMeta
fresh = record { feature_2_version_idx = []; cur_version_num = 0; total_similar_chunk = 0 }

-- `LoadCacheMeta`. `uninit` is what the local variables `feature` and `version_num` hold at first.
unfoldable pub load_cache_meta : ℕ × ℕ → Option Bytes → CacheMeta
unfolding read_int load_map
load_cache_meta uninit none = fresh
load_cache_meta uninit (some file) = elim (length file == 0) [
  | true ↦ fresh
  | false ↦
      let (total, s1) = read_int 8 0 (open_stream file) in
      let (version, s2) = read_int 4 0 s1 in
      record {
        feature_2_version_idx = load_map ℕ_discrete read_entry uninit (read_int 8 0 s2);
        cur_version_num = version;
        total_similar_chunk = total;
      }
]

-- The constructor: each run has a version of its own.
unfoldable pub start : ℕ × ℕ → Option Bytes → CacheMeta
unfolding load_cache_meta
start uninit file =
    let m = load_cache_meta uninit file in
    record m { cur_version_num = u32 (m.cur_version_num + 1) }
