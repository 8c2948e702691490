-- ===== src/Download/Messages.antt =====
-- EDRStore/src/server/data_decoder_thd.cc: what the messages of a download carry.
use edrstore.Prelude.{ℕ, ◌^◌, ◌<◌, ◌≡◌, List, [], ◌∷◌, ◌++◌, Bytes, Outcome, ok, ◌>>=◌}
use edrstore.Download.Reader.{RawChunk}
use edrstore.Download.Decoder.{
  Item, ServerMessage, restore_chunk, restore_final, Decoder, decode_items,
}

-- The items of the messages that carry chunks.
unfoldable pub items_of : List ServerMessage → List Item
items_of [] = []
items_of (restore_chunk n items ∷ ms) = items ++ items_of ms
items_of (restore_final ∷ ms) = items_of ms

abbrev all_items : Decoder → List Item
all_items d = items_of d.sent ++ d.items

module _ (delta_decode : Bytes → Bytes → Outcome Bytes) where
  -- The items of a sequence of chunks.
  unfoldable pub decode_all : List RawChunk → Outcome (List Item)
  decode_all [] = ok []
  decode_all (raw ∷ raws) =
      decode_items delta_decode raw >>= λ new. (decode_all raws >>= λ rest. ok (new ++ rest))

  module _ (batch : ℕ) (pos : 0 < batch) (fits : batch < 2 ^ 32) where
    -- Fewer chunks than a batch wait, and none when the count is 0.
    abbrev IsWaiting : Decoder → Type 0
    IsWaiting d = (d.cur_item_num < batch) × (d.cur_item_num ≡ 0 → d.items ≡ [])
