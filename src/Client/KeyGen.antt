-- ===== src/Client/KeyGen.antt =====
-- EDRStore/src/client/key_gen_thd.cc: the keys of a batch of chunks. `exchange` sends a request to
-- the key manager and receives its reply, and has failed where either fails; `generate_hash` is
-- SHA-256 of a library.
pub mod Keyed
pub mod Queue
pub mod Session
use edrstore.Prelude.{
  ℕ, ◌+◌, ◌%◌, ◌==◌, List, [], ◌∷◌, ◌++◌, Bytes, length, take, u32, u64, if◌then◌else◌, Outcome, ok,
  exit_failure, ◌>>=◌,
}
use edrstore.Layout.{DataType, normal_chunk, recipe_chunk, chunk_hash_size}
use edrstore.KeyManager.{KeyBuffer, client_key_gen}
use edrstore.Client.SelectComp.{EncFeatureChunk}
use edrstore.Client.TwoPhaseEnc.{Ciphers, two_phase_enc_chunk}

unfoldable pub sum_bytes : Bytes → ℕ → ℕ
sum_bytes [] hash_val = hash_val
sum_bytes (b ∷ bs) hash_val = sum_bytes bs (u64 (hash_val + b))

-- `ConvertFp2Val`
unfoldable pub convert_fp2_val : Bytes → ℕ
unfolding sum_bytes
convert_fp2_val fp = sum_bytes (take chunk_hash_size fp) 0

-- The thread's state: the chunks of the batch, the features in the send buffer, and what was pushed
-- to the output queue. `remote` is the other end of the connection.
pub record KeyGen (K : Type 0) : Type 0 where
  pub chunk_buf : List EncFeatureChunk
  pub send_buf : List (List ℕ)
  pub output : List EncFeatureChunk
  pub remote : K

module _ (generate_hash : Bytes → Bytes) (ciphers : Ciphers) where
  -- One chunk of the batch, with its seed: the key from the start of its data, and the encryption.
  unfoldable pub finish_chunk : EncFeatureChunk → Bytes → EncFeatureChunk
  unfolding convert_fp2_val two_phase_enc_chunk
  finish_chunk c key_seed =
      let key =
        generate_hash
          (take chunk_hash_size (c.raw_chunk ++ c.slack) ++ take chunk_hash_size key_seed) in
      record c {
        seed = convert_fp2_val c.fp;
        key = key;
        enc_buf = two_phase_enc_chunk ciphers c.raw_chunk key;
      }

  -- The loop over the batch and the seeds of the reply. A seed that is missing is no seed.
  unfoldable pub finish_batch : List EncFeatureChunk → List Bytes → List EncFeatureChunk
  unfolding finish_chunk
  finish_batch [] seeds = []
  finish_batch (c ∷ cs) [] = finish_chunk c [] ∷ finish_batch cs []
  finish_batch (c ∷ cs) (s ∷ seeds) = finish_chunk c s ∷ finish_batch cs seeds

  module _ {K : Type 0} (exchange : KeyBuffer (List ℕ) → K → Outcome (KeyBuffer Bytes × K)) where
    -- `ProcessBatch`
    unfoldable pub process_batch : KeyGen K → Outcome (KeyGen K)
    unfolding finish_batch
    process_batch g =
        let cur_batch_size = u32 (length g.chunk_buf) in
        if cur_batch_size == 0
        then ok g
        else (exchange
              (record {
                msg_type = client_key_gen;
                cur_item_num = cur_batch_size;
                items = g.send_buf;
              })
              g.remote
            >>= λ reply. ok (record {
              chunk_buf = [];
              send_buf = [];
              output = g.output ++ finish_batch (take cur_batch_size g.chunk_buf) reply.0.items;
              remote = reply.1;
            }))

    -- `AddChunkToBuf`
    unfoldable pub add_chunk_to_buf : ℕ → EncFeatureChunk → KeyGen K → Outcome (KeyGen K)
    unfolding process_batch
    add_chunk_to_buf send_chunk_batch_size c g =
        let g' = record g {
          chunk_buf = g.chunk_buf ++ c ∷ [];
          send_buf = g.send_buf ++ c.features ∷ [];
        } in
        if length g'.chunk_buf % send_chunk_batch_size == 0 then process_batch g' else ok g'

    -- The switch of `Run`.
    unfoldable pub run_as : ℕ → DataType → EncFeatureChunk → KeyGen K → Outcome (KeyGen K)
    unfolding add_chunk_to_buf process_batch
    run_as batch normal_chunk c g = add_chunk_to_buf batch c g
    run_as batch recipe_chunk c g =
        process_batch g >>= λ g'. ok (record g' { output = g'.output ++ c ∷ [] })
    run_as batch _ c g = exit_failure

    -- `Run`, on the chunks of the input queue.
    unfoldable pub run : ℕ → List EncFeatureChunk → KeyGen K → Outcome (KeyGen K)
    unfolding run_as
    run batch [] g = ok g
    run batch (c ∷ cs) g = run_as batch c.kind c g >>= λ g'. run batch cs g'
