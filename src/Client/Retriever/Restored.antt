-- ===== src/Client/Retriever/Restored.antt =====
-- A whole download on the client: EDRStore/src/client/data_retriever_thd.cc with download_writer_thd.cc
-- behind its queue, in the design with encryption and compression.
use edrstore.Prelude.{List, [], ◌∷◌, Bytes, length}
use edrstore.Client.DownloadWriter.{DownloadWriter}
use edrstore.Client.Retriever.{Retriever}
use edrstore.Client.Retriever.Run.{RestoreMessage, server_restore_chunk, server_restore_final}
use edrstore.Client.Retriever.Message.{Item, items_bytes}

-- The messages of a download.
abbrev pub messages : Bytes → List (List Item) → List RestoreMessage
messages pad [] = server_restore_final ∷ []
messages pad (its ∷ msgs) =
    server_restore_chunk (length its) (items_bytes pad its) ∷ messages pad msgs

-- The writer before the first chunk.
abbrev pub empty_file : DownloadWriter
empty_file = record { file = []; total_write_chunk_num = 0; total_write_data_size = 0 }

-- The retriever before the first message: no key is in the buffer.
abbrev pub start_retriever : List Bytes → List Bytes → Retriever
start_retriever keys buf = record {
  key_recipe_hdl = keys;
  key_recipe_buf = buf;
  cnt = 0;
  remain_recipe_num = 0;
  output_mq = [];
  total_recv_chunk_num = 0;
  total_recv_data_size = 0;
}
