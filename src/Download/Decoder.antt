-- ===== src/Download/Decoder.antt =====
-- EDRStore/src/server/data_decoder_thd.cc: the thread that restores chunks and sends them. A message
-- is the list of the chunks that it carries, each with the type and the bytes of its
-- `SendChunkHeader_t` and data; their layout is that of Upload/Wire. `alive` says whether the
-- connection takes a message.
use edrstore.Prelude.{
  ℕ, ◌+◌, ◌%◌, List, [], ◌∷◌, ◌++◌, Bytes, Bool, u32, Outcome, ok, exit_failure, ◌>>=◌,
  if◌then◌else◌, ◌==◌,
}
use edrstore.Layout.{
  comp_delta_chunk, cache_delta_chunk, comp_base_chunk, uncomp_base_chunk, multi_level_delta_chunk,
  DataType, comp_normal_chunk, uncomp_normal_chunk, cache_restore_delta, cache_restore_base,
  type_code,
}
use edrstore.Download.Reader.{RawChunk}

-- A chunk in a message: the `type` of its header, and its bytes.
pub record Item : Type 0 where
  pub kind : ℕ
  pub buf : Bytes

abbrev pub item : DataType → Bytes → Item
item t buf = record { kind = type_code t; buf = buf }

-- `MULTI_LEVEL_DELTA_CHUNK` is put into the same field.
abbrev pub multi_level_code : ℕ
multi_level_code = 12

-- A message of the server: its type is SERVER_RESTORE_CHUNK or SERVER_RESTORE_FINAL.
pub data ServerMessage : Type 0 where
  restore_chunk : ℕ → List Item → ServerMessage
  restore_final : ServerMessage

-- `_send_chunk_buf`, and what was sent.
pub record Decoder : Type 0 where
  pub items : List Item
  pub cur_item_num : ℕ
  pub sent : List ServerMessage

abbrev write_items : Decoder → List Item → Decoder
write_items d new = record d { items = d.items ++ new; cur_item_num = u32 (d.cur_item_num + 1) }

module _ (delta_decode : Bytes → Bytes → Outcome Bytes) where
  -- What a chunk puts into the send buffer.
  unfoldable pub decode_items : RawChunk → Outcome (List Item)
  decode_items raw = elim raw.input_chunk.kind [
    | comp_delta_chunk ↦ elim raw.base_chunk.kind [
      | comp_base_chunk ↦ delta_decode raw.base_chunk.buf raw.input_chunk.buf >>= λ chunk.
          ok (item comp_normal_chunk chunk ∷ [])
      | _ ↦ exit_failure
    ]
    | cache_delta_chunk ↦ elim raw.base_chunk.kind [
      | comp_base_chunk ↦ ok (
          item cache_restore_delta raw.input_chunk.buf
          ∷ item cache_restore_base raw.base_chunk.buf
          ∷ [])
      | uncomp_base_chunk ↦ delta_decode raw.base_chunk.buf raw.input_chunk.buf >>= λ chunk.
          ok (item uncomp_normal_chunk chunk ∷ [])
      | multi_level_delta_chunk ↦
          ok (record { kind = multi_level_code; buf = raw.input_chunk.buf } ∷ [])
      | _ ↦ exit_failure
    ]
    | comp_base_chunk ↦ ok (item comp_normal_chunk raw.input_chunk.buf ∷ [])
    | _ ↦ exit_failure
  ]

  unfoldable pub decode_chunk : RawChunk → Decoder → Outcome Decoder
  unfolding decode_items
  decode_chunk raw d = decode_items raw >>= λ new. ok (write_items d new)

  module _ (alive : Bool) (send_chunk_batch_size : ℕ) where
    unfoldable pub send_chunks : Decoder → Outcome Decoder
    send_chunks d =
        if alive
        then ok (record {
          items = [];
          cur_item_num = 0;
          sent = d.sent ++ restore_chunk d.cur_item_num d.items ∷ [];
        })
        else exit_failure

    -- One round of the loop of `Run`.
    unfoldable pub decoder_step : Decoder → RawChunk → Outcome Decoder
    unfolding decode_chunk send_chunks
    decoder_step d raw = do
      d1 ← decode_chunk raw d
      if d1.cur_item_num % send_chunk_batch_size == 0 then send_chunks d1 else ok d1

    unfoldable pub decoder_loop : Decoder → List RawChunk → Outcome Decoder
    decoder_loop d [] = ok d
    decoder_loop d (raw ∷ raws) = decoder_step d raw >>= λ d'. decoder_loop d' raws

    -- `SendEnd`: `closes` says that the client closes the connection after the end flag.
    unfoldable pub send_end : Bool → Decoder → Outcome Decoder
    send_end closes d =
        if alive
        then if closes then ok (record d { sent = d.sent ++ restore_final ∷ [] }) else exit_failure
        else exit_failure

    unfoldable pub send_tail : Decoder → Outcome Decoder
    unfolding send_chunks
    send_tail d = if d.cur_item_num == 0 then ok d else send_chunks d

    -- `Run`: the loop, the tail of the buffer, and the end flag.
    unfoldable pub decoder_run : Bool → Decoder → List RawChunk → Outcome Decoder
    unfolding decoder_loop send_tail send_end
    decoder_run closes d raws = do d1 ← decoder_loop d raws; d2 ← send_tail d1; send_end closes d2
