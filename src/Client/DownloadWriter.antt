-- ===== src/Client/DownloadWriter.antt =====
-- EDRStore/src/client/download_writer_thd.cc: the thread that writes the restored file.
use edrstore.Prelude.{ℕ, ◌+◌, List, [], ◌∷◌, ◌++◌, Bytes, length, u64}

-- What was written, and the counters.
pub record DownloadWriter : Type 0 where
  pub file : Bytes
  pub total_write_chunk_num : ℕ
  pub total_write_data_size : ℕ

-- `Run`, on the chunks of the input queue.
unfoldable pub write_run : List Bytes → DownloadWriter → DownloadWriter
write_run [] w = w
write_run (chunk ∷ chunks) w = write_run chunks (record {
  file = w.file ++ chunk;
  total_write_chunk_num = u64 (w.total_write_chunk_num + 1);
  total_write_data_size = u64 (w.total_write_data_size + length chunk);
})
