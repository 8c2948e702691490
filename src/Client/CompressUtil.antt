-- ===== src/Client/CompressUtil.antt =====
-- EDRStore/src/util/compress_util.cc. LZ4, ZSTD and zlib are libraries: what they answer is the
-- parameters `lib_compress` and `lib_decompress`. The output of `lib_compress` has room for as many bytes
-- as the chunk has, that of `lib_decompress` for the number of bytes that it is given.
use edrstore.Layout.{max_chunk_size}
use edrstore.Prelude.{ℕ, Bytes, Bool, true, false, Outcome, ok, exit_failure}

-- The compression types of the configuration.
pub data CompressType : Type 0 where
  lz4_compress_type zstd_compress_type zlib_compress_type : CompressType

-- The answer of a library: the output, an error, or the failed initialisation of zlib.
pub data Codec : Type 0 where
  done : Bytes → Codec
  cannot : Codec
  init_fails : Codec

-- The part of `CompressOneChunk` behind the call of the library, the same for each type.
unfoldable pub compress_answer : Bytes → Codec → Outcome (Bool × Bytes)
compress_answer chunk (done output) = ok (true, output)
compress_answer chunk cannot = ok (false, chunk)
compress_answer chunk init_fails = exit_failure

-- `CompressOneChunk`: the flag, and the output. What cannot be compressed is copied.
unfoldable pub compress_one_chunk :
    (CompressType → Bytes → Codec) → CompressType → Bytes → Outcome (Bool × Bytes)
unfolding compress_answer
compress_one_chunk lib_compress t chunk = compress_answer chunk (lib_compress t chunk)

-- The part of `DecompressOneChunk` behind the call of the library.
unfoldable pub decompress_answer : Bytes → Codec → Outcome Bytes
decompress_answer compressed (done output) = ok output
decompress_answer compressed cannot = ok compressed
decompress_answer compressed init_fails = exit_failure

-- `DecompressOneChunk`
unfoldable pub decompress_one_chunk :
    (CompressType → ℕ → Bytes → Codec) → CompressType → Bytes → Outcome Bytes
unfolding decompress_answer
decompress_one_chunk lib_decompress t compressed =
    decompress_answer compressed (lib_decompress t max_chunk_size compressed)
