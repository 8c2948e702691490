-- ===== src/Client/CacheMeta.antt =====
-- EDRStore/src/client/cache_meta.cc: the client's map from a feature to the version of the backup
-- that used it last. `alive` says whether the connection takes a
-- message. File and Persistence are about the file that keeps the map between runs.
pub mod File
pub mod Persistence
use edrstore.Prelude.{
  ℕ, ◌+◌, ◌-◌, ◌/◌, ◌%◌, take, drop, ◌^◌, ℕ_discrete, List, [], ◌∷◌, ◌++◌, none, some, Bool, true,
  false, u32, u64, leb, ◌==◌, if◌then◌else◌, Outcome, ok, exit_failure, ◌>>=◌, find, assign,
}

pub record CacheMeta : Type 0 where
  pub feature_2_version_idx : List (ℕ × ℕ)
  pub cur_version_num : ℕ
  pub total_similar_chunk : ℕ

-- `UpdateCacheMeta`
unfoldable pub update_versions : ℕ → List ℕ → List (ℕ × ℕ) → List (ℕ × ℕ)
update_versions version [] idx = idx
update_versions version (f ∷ fs) idx = update_versions version fs (assign ℕ_discrete f version idx)

unfoldable pub update_cache_meta : List ℕ → CacheMeta → CacheMeta
unfolding update_versions
update_cache_meta features m = record m {
  feature_2_version_idx = update_versions m.cur_version_num features m.feature_2_version_idx;
}

-- The loop of `QueryCacheMeta`: the map, and `is_similar`.
unfoldable pub query_loop : ℕ → List ℕ → List (ℕ × ℕ) → Bool → List (ℕ × ℕ) × Bool
query_loop version [] idx is_similar = (idx, is_similar)
query_loop version (f ∷ fs) idx is_similar = elim (find ℕ_discrete f idx) [
  | some _ ↦ query_loop version fs (assign ℕ_discrete f version idx) true
  | none ↦ query_loop version fs idx is_similar
]

-- `QueryCacheMeta`
unfoldable pub query_cache_meta : List ℕ → CacheMeta → CacheMeta × Bool
unfolding query_loop
query_cache_meta features m =
    let (idx, is_similar) = query_loop m.cur_version_num features m.feature_2_version_idx false in
    (
      record m {
        feature_2_version_idx = idx;
        total_similar_chunk =
            if is_similar then u64 (m.total_similar_chunk + 1) else m.total_similar_chunk;
      },
      is_similar,
    )

-- `evict_feature_buf_`: the features in its data, and the `size` and `cur_item_num` of its header, which
-- have 32 bits; and the CLIENT_UPLOAD_FEATURE messages that were sent.
pub record EvictBuf : Type 0 where
  pub items : List ℕ
  pub size : ℕ
  pub cur_item_num : ℕ
  pub sent : List (List ℕ)

-- `cur_version_num_ - it->second`, on `uint32_t`.
abbrev pub age : ℕ → ℕ → ℕ
age cur version = u32 (cur + (2 ^ 32 - version))

-- `sizeof(NetworkHead_t)`
abbrev pub network_head_size : ℕ
network_head_size = 16

-- The features of a message: what `SendData` sends behind the head. Its size has 32 bits, with the head.
unfoldable pub message_of : EvictBuf → List ℕ
message_of b = take ((u32 (b.size + network_head_size) - network_head_size) / 8) b.items

module _ (alive : Bool) where
  unfoldable pub send_features : EvictBuf → Outcome EvictBuf
  unfolding message_of
  send_features b =
      if alive
      then ok (record {
        items = b.items;
        size = 0;
        cur_item_num = 0;
        sent = b.sent ++ message_of b ∷ [];
      })
      else exit_failure

  module _ (send_recipe_batch_size last_n_para cur_version_num : ℕ) where
    -- One feature that is evicted, copied to the end of the data that the size says.
    unfoldable pub add_feature : ℕ → EvictBuf → Outcome EvictBuf
    unfolding send_features
    add_feature f b =
        let b' = record b {
          items = take (b.size / 8) b.items ++ f ∷ drop (b.size / 8 + 1) b.items;
          size = u32 (b.size + 8);
          cur_item_num = u32 (b.cur_item_num + 1);
        } in
        if b'.cur_item_num % send_recipe_batch_size == 0 then send_features b' else ok b'

    -- The loop of `EvictFeature` over the map: what stays, and the buffer.
    unfoldable pub evict_loop : List (ℕ × ℕ) → EvictBuf → Outcome (List (ℕ × ℕ) × EvictBuf)
    unfolding add_feature
    evict_loop [] b = ok ([], b)
    evict_loop ((f, version) ∷ idx) b =
        if leb last_n_para (age cur_version_num version)
        then (add_feature f b >>= λ b'. evict_loop idx b')
        else (evict_loop idx b >>= λ r. ok ((f, version) ∷ r.0, r.1))

    -- `EvictFeature`
    unfoldable pub evict_feature : List (ℕ × ℕ) → EvictBuf → Outcome (List (ℕ × ℕ) × EvictBuf)
    unfolding evict_loop send_features
    evict_feature idx b = evict_loop idx b >>= λ r.
        if r.1.cur_item_num == 0 then ok r else (send_features r.1 >>= λ b'. ok (r.0, b'))
