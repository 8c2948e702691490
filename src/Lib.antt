-- ===== src/Lib.antt =====
-- Verification of EDRStore, an encrypted deduplicating storage system with delta compression
-- (EDRStore/). A client cuts a file into chunks, encrypts and compresses them, and sends them; a server
-- deduplicates them, stores deltas against similar chunks and writes containers; a download goes the
-- way back. The threads of both sides hand chunks on through queues; here a queue is the list of what
-- was pushed to it, and each thread is a step function on its state, composed as its `Run` does.
--
-- Parts, and the code that they model (paths below EDRStore/):
-- Prelude/  lists, options, maps, byte strings, and the result of a call that may end the process.
-- Layout/  include/const_var.h, include/data_structure.h.
-- Chunker/  src/chunker/fix_chunker.cc (`fix_generate`), fastcdc_chunker.cc (Chunker/FastCdc), and
--   the loops of src/client/chunker_fp_thd.cc (`chunk_buffer`, `chunk_file`).
-- Features/  src/chunker/rabin_poly.cc (the rolling fingerprint) and finesse_util.cc (the features).
-- Client/  src/util/compress_util.cc and src/client, a child each: comp_pad.cc, two_phase_enc.cc,
--   cache_meta.cc, key_gen_thd.cc, select_comp_thd.cc, sender_thd.cc, data_retriever_thd.cc and
--   download_writer_thd.cc; SimilarThd is plain_similar_thd.cc and cipher_similar_thd.cc. Client/Restore
--   follows a chunk through three of them, Client/SimilarThd/Prepared the chunks of a file through the
--   threads up to the choice of their form, Client/Retriever/Restored a download up to the file.
-- KeyManager/  src/key_manager/basic_km.cc, which gives similar chunks one seed for their keys.
-- Database/  src/database/in_mem_db.cc, with the file that keeps an index between runs (Database/File).
-- Reduction/  src/reduction/dedup_detect.cc, similar_policy.cc.
-- Cache/  src/server/inform_cache.cc, the base chunks that the server keeps for each client, with its two
--   files (Cache/File).
-- Session/  src/server/server_opt_thd.cc: the login, the names of recipes, the locks of clients as a step
--   relation (Session/Lock), and the file of the statistics (Session/Stat).
-- Storage/  src/server/storage_core.cc and src/util/readCache.cc.
-- Recipe/  the file recipe, as data_recv_thd.cc writes it and data_reader_thd.cc reads it.
-- Upload/  src/server: data_recv_thd.cc, dual_dedup_thd.cc, cache_comp_thd.cc, data_writer_thd.cc;
--   Upload/Wire is the layout of a chunk in a message.
-- Download/  src/server: data_reader_thd.cc, data_decoder_thd.cc.
-- Tests/  concrete stores and states, and each theorem at one of them.
--
-- Conventions: `exit(EXIT_FAILURE)` is the outcome `exit_failure`. Sizes and counters are native
-- numbers with the wrap-around of their C type written out (`u32`, `u64`). An unordered map is the
-- list of its entries, in the order in which it is iterated. Loops over a file or a buffer run on
-- fuel, and the theorems about them give enough of it: one round for each byte or fingerprint, and one
-- more. A chunk above the array of MAX_CHUNK_SIZE bytes that it is copied to, a recipe in batches of 0
-- fingerprints, and a window that a counter of 32 bits does not reach have no result; other divisions
-- by a batch size are in theorems that take it above 0.
--
-- Parameters, for code of libraries: the key-value store and the LRU cache (records with laws, filled
-- in Tests/Stores), the ciphers, the compressors, the hashes (XXHash64 for features), the random
-- engine, delta encoding, and whether a connection or the file system accepts a write. Decompression is
-- given the room for its output, MAX_CHUNK_SIZE.
--
-- Not modelled: the network and TLS, configuration and option parsing, time measurement, the creation
-- of threads and the programs, log files, and the login of the client. Queues are a copy of a library.
-- Baseline/ is a second version of the system that shares most of its files with this one.
pub mod Prelude
pub mod Layout
pub mod Database
pub mod Reduction
pub mod Cache
pub mod Storage
pub mod Recipe
pub mod Upload
pub mod Download
pub mod KeyManager
pub mod Session
pub mod Chunker
pub mod Features
pub mod Client
pub mod Tests
