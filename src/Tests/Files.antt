-- ===== src/Tests/Files.antt =====
-- The files that keep indexes between runs, at small indexes.
use edrstore.Prelude.{
  ℕ, ◌+◌, List, [], ◌∷◌, none, some, Bytes, bytes_discrete, ℕ_discrete, find, u32, ◌≡◌, refl, arith,
  replicate, ite,
}
use edrstore.Database.File.{open_db}
use edrstore.Database.Persistence.{open_db-ends}
use edrstore.Database.Refines.{
  Call, query_key, insert_pair, delete_key, restart, run, replay, run-replay,
}
use edrstore.Client.CacheMeta.{CacheMeta}
use edrstore.Client.CacheMeta.File.{store_cache_meta, start}
use edrstore.Client.CacheMeta.Persistence.{start-store_cache_meta}
use edrstore.Cache.{InformCache}
use edrstore.Cache.File.{Uninit, store_cnt_idx, load_cnt_idx}
use edrstore.Cache.Persistence.{load_cnt_idx-store_cnt_idx}
use edrstore.Cache.Counting.{IsCounted, Counts, Backs}
use edrstore.Cache.Refs.{refs}
use edrstore.Session.Stat.{ServerStat, DeltaStat}
use edrstore.Tests.Stores.{list_store}

-- A file that is cut off in an entry.
open_db-ends_example :
    (m : List (Bytes × Bytes)) × (open_db (some (2 ∷ 0 ∷ 0 ∷ 0 ∷ 1 ∷ [])) ≡ some m)
open_db-ends_example = open_db-ends (some (2 ∷ 0 ∷ 0 ∷ 0 ∷ 1 ∷ []))

abbrev calls : List Call
calls =
    insert_pair (1 ∷ []) (5 ∷ [])
    ∷ insert_pair (2 ∷ []) (6 ∷ [])
    ∷ restart
    ∷ delete_key (1 ∷ [])
    ∷ query_key (1 ∷ [])
    ∷ query_key (2 ∷ [])
    ∷ []

run-replay_example :
    (idx : List (Bytes × Bytes)) × (run calls [] ≡ some (replay calls (λ _. none), idx))
run-replay_example = run-replay calls (
  (omega arith, omega arith, omega arith),
  ((omega arith, omega arith, omega arith), (tt, (tt, (tt, (tt, tt))))),
)

abbrev meta : CacheMeta
meta = record {
  feature_2_version_idx = (300, 4) ∷ (12, 5) ∷ [];
  cur_version_num = 5;
  total_similar_chunk = 70000;
}

start-store_cache_meta_example :
    ((start (0, 0) (some (store_cache_meta meta))).cur_version_num ≡ u32 (5 + 1))
    × ((start (0, 0) (some (store_cache_meta meta))).total_similar_chunk ≡ 70000)
    × ((feature : ℕ)
        → find ℕ_discrete feature
            (start (0, 0) (some (store_cache_meta meta))).feature_2_version_idx
          ≡ find ℕ_discrete feature meta.feature_2_version_idx)
unfolding find ℕ_discrete
start-store_cache_meta_example =
    start-store_cache_meta (0, 0) meta (omega arith, omega arith)
      (record {
        total = omega arith;
        version = omega arith;
        few = omega arith;
        entries = ((omega arith, omega arith), ((omega arith, omega arith), tt));
      })
      (refl, (refl, tt))

abbrev stat : ServerStat
stat = record {
  data_recv = record {
    total_logical_chunk_num = 1;
    total_logical_data_size = 70000;
    total_unique_chunk_num = 3;
    total_unique_data_size = 4;
  };
  dual_dedup = record { total_unique_chunk_num = 5; total_unique_data_size = 6 };
  cache_comp = record {
    total_similar_chunk_num = 7;
    total_similar_data_size = 8;
    total_delta_size = 9;
  };
  data_writer = record {
    total_similar_chunk_num = 10;
    total_similar_data_size = 11;
    total_delta_size = 12;
  };
  storage_core = record { write_chunk_num = 13; write_data_size = 14 };
}

abbrev new_delta : DeltaStat
new_delta = record {
  total_similar_chunk_num = 0;
  total_similar_data_size = 0;
  total_delta_size = 0;
}

abbrev new_stat : ServerStat
new_stat = record {
  data_recv = record {
    total_logical_chunk_num = 0;
    total_logical_data_size = 0;
    total_unique_chunk_num = 0;
    total_unique_data_size = 0;
  };
  dual_dedup = record { total_unique_chunk_num = 0; total_unique_data_size = 0 };
  cache_comp = new_delta;
  data_writer = new_delta;
  storage_core = record { write_chunk_num = 0; write_data_size = 0 };
}

-- A cache with one base of 2 bytes, to which the feature 300 leads.
abbrev fp : Bytes
fp = replicate 32 9

abbrev one_base : InformCache (List (Bytes × Bytes))
one_base = record {
  base_2_data_db = (fp, 70 ∷ 71 ∷ []) ∷ [];
  base_2_cnt_idx = (fp, record { cnt = 1; chunk_size = 2 }) ∷ [];
  local_feature_2_fp_db = (300, fp) ∷ [];
}

one_base-IsCounted : IsCounted list_store one_base
unfolding find refs
one_base-IsCounted = record {
  features_map = (refl, tt);
  bases_map = (refl, tt);
  counted = λ b.
      elim (bytes_discrete fp b)
        as (λ d. Counts (ite d (some (record { cnt = 1; chunk_size = 2 })) none) (ite d 1 0)) [
          | yes p ↦ refl
          | no n ↦ refl
        ];
  backed = λ b.
      elim (bytes_discrete fp b)
        as (λ d.
          Backs (ite d (some (record { cnt = 1; chunk_size = 2 })) none)
            (ite d (some (70 ∷ 71 ∷ [])) none)) [ yes p ↦ refl | no n ↦ tt ];
}

abbrev uninit : Uninit
uninit = record { entry = record { cnt = 0; chunk_size = 0 }; feature = 0 }

load_cnt_idx-store_cnt_idx_example :
    ((b : Bytes)
      → find bytes_discrete b (load_cnt_idx uninit (store_cnt_idx one_base)).0
        ≡ find bytes_discrete b one_base.base_2_cnt_idx)
    × ((f : ℕ)
        → find ℕ_discrete f (load_cnt_idx uninit (store_cnt_idx one_base)).1
          ≡ find ℕ_discrete f one_base.local_feature_2_fp_db)
unfolding replicate
load_cnt_idx-store_cnt_idx_example =
    load_cnt_idx-store_cnt_idx list_store uninit one_base (omega arith, omega arith, omega arith)
      one_base-IsCounted
      (record {
        few_bases = omega arith;
        few_features = omega arith;
        bases = ((refl, omega arith, omega arith), tt);
        features = ((omega arith, refl), tt);
      })
