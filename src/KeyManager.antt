-- ===== src/KeyManager.antt =====
-- EDRStore/src/key_manager/basic_km.cc: key seeds for the features of chunks. Chunks that share
-- features get one seed. `generate_hash` is SHA-256 of a library. The sessions of several clients are
-- taken one request at a time.
pub mod Index
pub mod Stable
pub mod Server
use edrstore.Prelude.{
  ℕ, ◌+◌, List, [], ◌∷◌, ◌++◌, Bool, Bytes, take, replicate, u64, if◌then◌else◌, Outcome, ok,
  exit_failure, ◌>>=◌,
}
use edrstore.Layout.{ChunkStatus, ChunkInfo, similar_chunk, non_similar_chunk, chunk_hash_size}
use edrstore.Reduction.Similar.{FeatureIndex, find_base_chunk_db, update_feature_index}
use edrstore.Upload.Wire.{features_bytes}

-- The members of `BasicKM` that change.
pub record BasicKm : Type 0 where
  pub feature_2_key_index : FeatureIndex
  pub total_key_gen_num : ℕ
  pub total_similar_chunk_num : ℕ

abbrev pub global_secret : Bytes
global_secret = replicate chunk_hash_size 1

-- The types of message that the loop tells apart.
pub data KeyMessage : Type 0 where
  client_key_gen key_manager_key_gen_reply other_message : KeyMessage

-- The head of a message, and one item per chunk: the features, or the seed.
pub record KeyBuffer (A : Type 0) : Type 0 where
  pub msg_type : KeyMessage
  pub cur_item_num : ℕ
  pub items : List A

module _ (generate_hash : Bytes → Bytes) where
  -- The switch on the state that `FindBaseChunk` has set.
  unfoldable pub seed_as : ChunkStatus → ChunkInfo → BasicKm → Outcome (Bytes × BasicKm)
  seed_as similar_chunk info km = ok (
    take chunk_hash_size info.addr.base_fp,
    record km { total_similar_chunk_num = u64 (km.total_similar_chunk_num + 1) },
  )
  seed_as non_similar_chunk info km =
      let key_seed = generate_hash (global_secret ++ features_bytes info.features) in
      ok (
        key_seed,
        record km {
          feature_2_key_index = update_feature_index km.feature_2_key_index info.features key_seed;
        },
      )
  seed_as _ info km = exit_failure

  -- One round of the loop: the seed, `tmp_info` for the next round, and the key manager.
  unfoldable pub gen_seed : List ℕ → ChunkInfo → BasicKm → Outcome (Bytes × ChunkInfo × BasicKm)
  unfolding seed_as
  gen_seed features tmp_info km =
      let info =
        find_base_chunk_db km.feature_2_key_index (record tmp_info { features = features }) in
      seed_as info.stat info km >>= λ r. ok (r.0, info, r.1)

  unfoldable pub gen_seeds : List (List ℕ) → ChunkInfo → BasicKm → Outcome (List Bytes × BasicKm)
  unfolding gen_seed
  gen_seeds [] tmp_info km = ok ([], km)
  gen_seeds (fs ∷ reqs) tmp_info km =
      gen_seed fs tmp_info km >>= λ r. gen_seeds reqs r.1 r.2 >>= λ rest. ok (r.0 ∷ rest.0, rest.1)

  module _ (alive : Bool) (uninit : ChunkInfo) where
    -- The request after the test of its type. `alive` says whether the client takes the reply, and
    -- `uninit` is `tmp_info` before the first round.
    unfoldable pub answer_as :
        KeyMessage → KeyBuffer (List ℕ) → BasicKm → Outcome (KeyBuffer Bytes × BasicKm)
    unfolding gen_seeds
    answer_as client_key_gen m km = gen_seeds (take m.cur_item_num m.items) uninit km >>= λ r.
        if alive
        then ok (
          record {
            msg_type = key_manager_key_gen_reply;
            cur_item_num = m.cur_item_num;
            items = r.0;
          },
          record (r.1) { total_key_gen_num = u64 (r.1.total_key_gen_num + m.cur_item_num) },
        )
        else exit_failure
    answer_as _ m km = exit_failure

    -- A round of `Run`.
    unfoldable pub answer : KeyBuffer (List ℕ) → BasicKm → Outcome (KeyBuffer Bytes × BasicKm)
    unfolding answer_as
    answer m km = answer_as m.msg_type m km

    -- `Run`: the messages until the client closes the connection, and the replies.
    unfoldable pub run :
        List (KeyBuffer (List ℕ)) → BasicKm → Outcome (List (KeyBuffer Bytes) × BasicKm)
    unfolding answer
    run [] km = ok ([], km)
    run (m ∷ ms) km = answer m km >>= λ r. run ms r.1 >>= λ rest. ok (r.0 ∷ rest.0, rest.1)
