-- ===== src/Reduction/Similar/Overloads.antt =====
-- EDRStore/src/reduction/similar_policy.cc: the two overloads of `FindBaseChunk`, which the key manager
-- and the server's cache use.
use edrstore.Prelude.{
  ℕ, ◌+◌, List, [], ◌∷◌, Option, some, none, Bytes, ℕ_discrete, bytes_discrete, find, assign, u32,
  true, false, if◌then◌else◌, ◌≡◌, refl, ap, ◌∙◌,
}
use mathlib.Core.Path.{fun_ext}
use edrstore.Database
use edrstore.Layout.{ChunkInfo, similar_chunk, non_similar_chunk}
use edrstore.KeyManager.Index.{seed_of, seed_of_lem}
use edrstore.Reduction.Similar.{
  FeatureIndex, Scan, bump_freq, count_match, scan_features, scan_start, sort_by_freq, pick_base,
  find_base_chunk, find_base_chunk_map, assigned, is_found, count_db_match, scan_db,
  find_base_chunk_db,
}

-- A match is counted in the same way.
count_db_match_lem : (s : Scan) (b : Bytes) → count_db_match s b ≡ count_match s b
unfolding count_db_match count_match bump_freq
count_db_match_lem s b =
    let counted : List (Bytes × ℕ) → Scan = (λ m. record {
      feature_freq_map = m;
      is_similar = true;
      is_first_match = false;
      first_match_base_fp = if s.is_first_match then b else s.first_match_base_fp;
    }) in
    ap counted
      (elim (find bytes_discrete b s.feature_freq_map)
        as (λ o.
          assign bytes_discrete b
            (if is_found o then u32 ((elim o as (λ _. ℕ) [ some n ↦ n | none ↦ 0 ]) + 1) else 1)
            s.feature_freq_map
          ≡ (elim o as (λ _. List (Bytes × ℕ)) [
            | some n ↦ assign bytes_discrete b (u32 (n + 1)) s.feature_freq_map
            | none ↦ assign bytes_discrete b 1 s.feature_freq_map
          ])) [ some n ↦ refl | none ↦ refl ])

scan_db_lem :
    (db : FeatureIndex) (fs : List ℕ) (tmp : Bytes) (s : Scan)
    → scan_db db fs tmp s ≡ scan_features (seed_of db) fs s
unfolding scan_db scan_features Database.query
scan_db_lem db [] tmp s = refl
scan_db_lem db (f ∷ fs) tmp s =
    let answer : Option Bytes → Database.Answer Bytes = (λ o.
      elim o as (λ _. Database.Answer Bytes) [
        | some v ↦ record { value = some v; ret = true }
        | none ↦ record { value = none; ret = false }
      ]) in
    elim (find ℕ_discrete f db)
      as (λ o.
        scan_db db fs (assigned tmp (answer o).value)
          (if (answer o).ret then count_db_match s (assigned tmp (answer o).value) else s)
        ≡ scan_features (seed_of db) fs
            (elim (answer o).value as (λ _. Scan) [ some b ↦ count_match s b | none ↦ s ])) [
              | some v ↦
                  scan_db_lem db fs v (count_db_match s v)
                  ∙ ap (scan_features (seed_of db) fs) (count_db_match_lem s v)
              | none ↦ scan_db_lem db fs tmp s
            ]

pub find_base_chunk_db_lem :
    (db : FeatureIndex) (info : ChunkInfo)
    → find_base_chunk_db db info ≡ find_base_chunk (seed_of db) info
unfolding find_base_chunk_db find_base_chunk
find_base_chunk_db_lem db info =
    ap
      (λ (s : Scan).
        if s.is_similar
        then record info {
          addr = record (info.addr) {
            base_fp = pick_base (sort_by_freq s.feature_freq_map) s.first_match_base_fp;
          };
          stat = similar_chunk;
        }
        else record info { stat = non_similar_chunk })
      (scan_db_lem db info.features [] (scan_start []))

-- The overload over a database and the one over a map give the same result for every chunk, if both hold
-- the same base for every feature, in whatever order their entries stand.
pub find_base_chunk_db-find_base_chunk_map :
    (db table : FeatureIndex) (info : ChunkInfo)
    → ((f : ℕ) → find ℕ_discrete f db ≡ find ℕ_discrete f table)
    → find_base_chunk_db db info ≡ find_base_chunk_map table info
unfolding find_base_chunk_map
find_base_chunk_db-find_base_chunk_map db table info same =
    find_base_chunk_db_lem db info
    ∙ ap (λ query. find_base_chunk query info) (fun_ext (λ f. seed_of_lem db f ∙ same f))
