-- ===== src/Client/Retriever.antt =====
-- EDRStore/src/client/data_retriever_thd.cc: the thread that decrypts and decompresses the chunks that
-- the server sends back. `delta_decode` is Xdelta, a library. A key that was never read from the file is the
-- content of the new buffer, `unread`.
pub mod Run
pub mod Keys
pub mod Message
pub mod Restored
use edrstore.Prelude.{
  ℕ, zero, suc, ◌+◌, ◌-◌, ◌^◌, List, [], ◌∷◌, ◌++◌, none, some, Bytes, u32, u64, take, drop, slice,
  length, get_elem?, Outcome, ok, exit_failure, ◌>>=◌, if◌then◌else◌, ◌==◌,
}
use edrstore.Layout.{comp_normal_chunk, uncomp_normal_chunk, cache_restore_delta, type_code}
use edrstore.Upload.Wire.{read_header, header_size}
use edrstore.Download.Decoder.{multi_level_code}
use edrstore.Client.CompressUtil.{CompressType, Codec}
use edrstore.Client.CompPad.{decompress_with_pad}
use edrstore.Client.TwoPhaseEnc.{Ciphers, two_phase_enc_chunk, two_phase_dec_chunk}

-- The key recipes: what is unread of the file, the buffer, the next one in it, how many are left; the
-- chunks pushed to the writer, and the counters.
pub record Retriever : Type 0 where
  pub key_recipe_hdl : List Bytes
  pub key_recipe_buf : List Bytes
  pub cnt : ℕ
  pub remain_recipe_num : ℕ
  pub output_mq : List Bytes
  pub total_recv_chunk_num : ℕ
  pub total_recv_data_size : ℕ

module _ (send_recipe_batch_size : ℕ) where
  -- `FetchKeyRecipe`: the buffer keeps what the file does not overwrite.
  unfoldable pub fetch_key_recipe : Retriever → Retriever
  fetch_key_recipe r =
      let keys = take send_recipe_batch_size r.key_recipe_hdl in
      record r {
        key_recipe_hdl = drop send_recipe_batch_size r.key_recipe_hdl;
        key_recipe_buf = keys ++ drop (length keys) r.key_recipe_buf;
        cnt = 0;
        remain_recipe_num = length keys;
      }

  unfoldable pub ensure_key : Retriever → Retriever
  unfolding fetch_key_recipe
  ensure_key r = if r.remain_recipe_num == 0 then fetch_key_recipe r else r

abbrev pub cur_key : Bytes → Retriever → Bytes
cur_key unread r = elim (get_elem? r.key_recipe_buf r.cnt) [ some k ↦ k | none ↦ unread ]

-- The end of a round: the chunk is pushed, and the next key is taken.
unfoldable pub push_restored : Bytes → Retriever → Retriever
push_restored chunk r = record r {
  output_mq = r.output_mq ++ chunk ∷ [];
  cnt = u32 (r.cnt + 1);
  remain_recipe_num = u32 (r.remain_recipe_num + (2 ^ 32 - 1));
  total_recv_chunk_num = u64 (r.total_recv_chunk_num + 1);
  total_recv_data_size = u64 (r.total_recv_data_size + length chunk);
}

module _ (ciphers : Ciphers) (lib_decompress : CompressType → ℕ → Bytes → Codec)
    (t : CompressType) where
  -- `ProcCompChunk`
  unfoldable pub proc_comp_chunk : Bytes → Bytes → Outcome Bytes
  unfolding two_phase_dec_chunk decompress_with_pad
  proc_comp_chunk input key =
      decompress_with_pad lib_decompress t (two_phase_dec_chunk ciphers input key)

  -- `ProcUncompChunk`
  unfoldable pub proc_uncomp_chunk : Bytes → Bytes → Bytes
  unfolding two_phase_dec_chunk
  proc_uncomp_chunk input key = two_phase_dec_chunk ciphers input key

  -- `ProcRestoreBaseChunk`
  unfoldable pub proc_restore_base_chunk : Bytes → Bytes → Outcome Bytes
  unfolding proc_comp_chunk two_phase_enc_chunk
  proc_restore_base_chunk input key =
      proc_comp_chunk input key >>= λ base. ok (two_phase_enc_chunk ciphers base key)

  module _ (delta_decode : Bytes → Bytes → Outcome Bytes) (send_recipe_batch_size : ℕ)
      (unread : Bytes) where
    -- A round of a loop that has one chunk per item: `restore` gives the chunk.
    unfoldable pub restore_one :
        (Bytes → Bytes → Outcome Bytes) → Bytes → ℕ → Retriever → Outcome (Retriever × ℕ)
    unfolding ensure_key push_restored
    restore_one restore data_buf offset r =
        let header = read_header data_buf offset in
        let offset' = offset + header_size in
        let r' = ensure_key send_recipe_batch_size r in
        restore (slice offset' header.size data_buf) (cur_key unread r') >>= λ chunk.
        ok (push_restored chunk r', offset' + header.size)

    -- The rounds of `OnlyEncMode` and of `EncCompMode`.
    unfoldable pub only_enc_step : Bytes → ℕ → Retriever → Outcome (Retriever × ℕ)
    unfolding restore_one proc_uncomp_chunk
    only_enc_step = restore_one (λ input key. ok (proc_uncomp_chunk input key))

    unfoldable pub enc_comp_step : Bytes → ℕ → Retriever → Outcome (Retriever × ℕ)
    unfolding restore_one proc_comp_chunk
    enc_comp_step = restore_one proc_comp_chunk

    -- A chunk that is restored from a delta and its base, the next chunk of the message.
    unfoldable pub restore_delta : Bytes → ℕ → Bytes → Bytes → Outcome (Bytes × ℕ)
    unfolding proc_restore_base_chunk proc_uncomp_chunk
    restore_delta data_buf offset delta key =
        let header = read_header data_buf offset in
        let offset' = offset + header_size in
        proc_restore_base_chunk (slice offset' header.size data_buf) key >>= λ base.
        delta_decode base delta >>= λ enc. ok (proc_uncomp_chunk enc key, offset' + header.size)

    -- The round of `FullEDR`.
    unfoldable pub full_edr_step : Bytes → ℕ → Retriever → Outcome (Retriever × ℕ)
    unfolding ensure_key push_restored restore_delta proc_comp_chunk proc_uncomp_chunk
    full_edr_step data_buf offset r =
        let header = read_header data_buf offset in
        let offset1 = offset + header_size in
        let input = slice offset1 header.size data_buf in
        let offset2 = offset1 + header.size in
        let r' = ensure_key send_recipe_batch_size r in
        let key = cur_key unread r' in
        let restored : Outcome (Bytes × ℕ) =
          (if header.kind == type_code comp_normal_chunk
            then (proc_comp_chunk input key >>= λ chunk. ok (chunk, offset2))
            else if header.kind == type_code uncomp_normal_chunk
            then ok (proc_uncomp_chunk input key, offset2)
            else if header.kind == type_code cache_restore_delta
            then restore_delta data_buf offset2 input key
            else if header.kind == multi_level_code
            then ok (input, offset2)
            else exit_failure) in
        restored >>= λ p. ok (push_restored p.0 r', p.1)

    -- The loop over the chunks of a message, with the round of a mode.
    unfoldable pub retrieve_loop :
        (Bytes → ℕ → Retriever → Outcome (Retriever × ℕ))
        → ℕ
        → Bytes
        → ℕ
        → Retriever
        → Outcome Retriever
    retrieve_loop step zero data_buf offset r = ok r
    retrieve_loop step (suc n) data_buf offset r =
        step data_buf offset r >>= λ p. retrieve_loop step n data_buf p.1 p.0
