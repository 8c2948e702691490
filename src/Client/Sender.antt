-- ===== src/Client/Sender.antt =====
-- EDRStore/src/client/sender_thd.cc: the messages of chunks, and the file of the keys. The messages
-- are those of Upload/Recv; `alive` says whether the connection takes one, and `pad` is what stands
-- in the padding of a header.
use edrstore.Prelude.{
  ℕ, ◌+◌, ◌%◌, List, [], ◌∷◌, ◌++◌, Bytes, Bool, u32, u64, length, map, take, Outcome, ok,
  exit_failure, ◌>>=◌, if◌then◌else◌, ◌==◌,
}
use edrstore.Layout.{
  normal_chunk, compressed_normal_chunk, recipe_chunk, full_edr_cache_chunk,
  full_edr_uncompress_chunk, type_code, SendChunk,
}
use edrstore.Upload.Wire.{header_bytes, features_bytes}
use edrstore.Upload.Recv.{ClientMessage, upload_chunk, upload_recipe_end, upload_feature}
use edrstore.Client.TwoPhaseEnc.{Ciphers, two_phase_enc_chunk}
use edrstore.Client.CacheMeta.{CacheMeta, evict_feature}
use edrstore.Client.SelectComp.{KeyedChunk}

-- The send buffer, the buffer and the file of the keys, the map, and what was sent.
pub record Sender : Type 0 where
  pub data_buf : Bytes
  pub cur_item_num : ℕ
  pub key_recipe_buf : List Bytes
  pub key_recipe_file : List Bytes
  pub meta : CacheMeta
  pub sent : List ClientMessage
  pub total_send_data_size : ℕ

-- The two copies of a chunk into the send buffer.
unfoldable pub put_chunk : Bytes → SendChunk → Sender → Sender
unfolding header_bytes
put_chunk pad c s = record s {
  data_buf = s.data_buf ++ (header_bytes pad c.header ++ c.buf);
  total_send_data_size = u64 (s.total_send_data_size + c.header.size);
}

-- `StoreKeyRecipe`
unfoldable pub store_key_recipe : ℕ → Bytes → Sender → Sender
store_key_recipe send_recipe_batch_size key s =
    let keys = s.key_recipe_buf ++ key ∷ [] in
    if length keys % send_recipe_batch_size == 0
    then record s { key_recipe_buf = []; key_recipe_file = s.key_recipe_file ++ keys }
    else record s { key_recipe_buf = keys }

-- The features of a message, as bytes.
abbrev feature_message : List ℕ → ClientMessage
feature_message fs = upload_feature (length fs) (features_bytes fs)

module _ (alive : Bool) where
  -- `SendChunks`
  unfoldable pub send_chunks : Sender → Outcome Sender
  send_chunks s =
      if alive
      then ok (record s {
        data_buf = [];
        cur_item_num = 0;
        sent = s.sent ++ upload_chunk s.cur_item_num s.data_buf ∷ [];
      })
      else exit_failure

  -- `ProcessRecipeEnd`
  unfoldable pub process_recipe_end : Bytes → Sender → Outcome Sender
  process_recipe_end head s =
      if alive
      then ok (record s {
        data_buf = s.data_buf ++ head;
        sent = s.sent ++ upload_recipe_end (s.data_buf ++ head) ∷ [];
      })
      else exit_failure

  module _ (send_chunk_batch_size send_recipe_batch_size last_n_para : ℕ) (ciphers : Ciphers)
      (pad : Bytes) where
    -- A chunk that counts as an item of the message, and its key.
    unfoldable pub put_item : SendChunk → Bytes → Sender → Outcome Sender
    unfolding put_chunk send_chunks store_key_recipe
    put_item c key s =
        let s1 = put_chunk pad c s in
        let s2 = record s1 { cur_item_num = u32 (s1.cur_item_num + 1) } in
        (if s2.cur_item_num % send_chunk_batch_size == 0 then send_chunks s2 else ok s2) >>= λ s3.
        ok (store_key_recipe send_recipe_batch_size key s3)

    -- The end of a file: the tails of both buffers, the end of the recipe, and the eviction.
    unfoldable pub send_end : SendChunk → Sender → Outcome Sender
    unfolding send_chunks process_recipe_end evict_feature features_bytes
    send_end c s = (if s.cur_item_num == 0 then ok s else send_chunks s) >>= λ s1.
        let s2 = record s1 {
          key_recipe_buf = [];
          key_recipe_file = s1.key_recipe_file ++ s1.key_recipe_buf;
        } in
        process_recipe_end (take c.header.size c.buf) s2 >>= λ s3.
        evict_feature alive send_recipe_batch_size last_n_para s3.meta.cur_version_num
          s3.meta.feature_2_version_idx
          (record { items = []; size = 0; cur_item_num = 0; sent = [] })
        >>= λ r. ok (record s3 {
          meta = record (s3.meta) { feature_2_version_idx = r.0 };
          sent = s3.sent ++ map feature_message (r.1.sent);
        })

    -- One round of the loop of `Run`.
    unfoldable pub sender_step : Sender → KeyedChunk → Outcome Sender
    unfolding put_item send_end put_chunk two_phase_enc_chunk
    sender_step s input =
        let c = input.send_chunk in
        let h = c.header in
        let enc = two_phase_enc_chunk ciphers (take h.size c.buf) input.key in
        if h.kind == type_code compressed_normal_chunk
        then put_item
            (record {
              header = record h { size = u32 (length enc); kind = type_code normal_chunk };
              buf = enc;
            })
            input.key s
        else if h.kind == type_code normal_chunk
        then put_item c input.key s
        else if h.kind == type_code full_edr_cache_chunk
        then ok (put_chunk pad c s)
        else if h.kind == type_code full_edr_uncompress_chunk
        then put_item c input.key s
        else if h.kind == type_code recipe_chunk
        then send_end c s
        else exit_failure
