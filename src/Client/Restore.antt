-- ===== src/Client/Restore.antt =====
-- A chunk on its way from EDRStore/src/client/select_comp_thd.cc through sender_thd.cc to
-- data_retriever_thd.cc, in the mode with encryption and compression.
use edrstore.Prelude.{
  ℕ, ◌+◌, ◌^◌, ◌≤◌, ◌≡◌, ap, ◌∙◌, Bytes, u32, take, length, take_of_length-le, ok, ◌>>=◌, arith,
}
use edrstore.Layout.{
  normal_chunk, compressed_normal_chunk, max_chunk_size, crypto_block_size, enc_max_chunk_size,
}
use edrstore.Client.CompressUtil.{CompressType, Codec, cannot}
use edrstore.Client.CompPad.{decompress_with_pad}
use edrstore.Client.Padding.{IsCodec, decompress_with_pad-compress_with_pad}
use edrstore.Client.TwoPhaseEnc.{Ciphers, IsCipher, two_phase_enc_chunk, two_phase_dec-enc}
use edrstore.Client.SelectComp.{KeyedChunk, FileRecipeHead, enc_comp_mode, set_data}
use edrstore.Client.Retriever.{proc_comp_chunk}

-- What the sender encrypts of a chunk that `EncCompMode` has prepared.
abbrev pub encrypted : Ciphers → KeyedChunk → Bytes
encrypted ciphers o =
    two_phase_enc_chunk ciphers (take o.send_chunk.header.size o.send_chunk.buf) o.key

-- With ciphers and a compression library that keep their promises, `EncCompMode` succeeds on a chunk
-- of at most MAX_CHUNK_SIZE bytes that the library can compress, or does not take for compressed data; with one cipher block more its data fits a buffer of
-- ENC_MAX_CHUNK_SIZE bytes; and what the sender makes of it, `ProcCompChunk` turns back into the chunk
-- under the key of its key recipe.
pub proc_comp_chunk-enc_comp_mode :
    (ciphers : Ciphers) (random : ℕ → ℕ → ℕ) (compress : CompressType → Bytes → Codec)
    (decompress : CompressType → ℕ → Bytes → Codec) (t : CompressType)
    → IsCipher ciphers.ctr_encrypt ciphers.ctr_decrypt
    → IsCipher ciphers.ecb_encrypt ciphers.ecb_decrypt
    → IsCodec compress decompress
    → (raw slack fp features enc_buf key : Bytes) (head : FileRecipeHead) (seed : ℕ)
      (out : KeyedChunk)
    → length raw ≤ max_chunk_size
    → (compress t raw ≡ cannot → decompress t max_chunk_size raw ≡ cannot)
    → (o : KeyedChunk) × (enc_comp_mode
          (λ x. x)
          ciphers
          random
          compress
          t
          (record {
            kind = normal_chunk;
            raw_chunk = raw;
            slack = slack;
            fp = fp;
            head = head;
            features = features;
            enc_buf = enc_buf;
            key = key;
            seed = seed;
          })
          out
        ≡ ok o)
      × (o.send_chunk.header.size + crypto_block_size ≤ enc_max_chunk_size)
      × (proc_comp_chunk ciphers decompress t (encrypted ciphers o) key ≡ ok raw)
unfolding enc_comp_mode set_data proc_comp_chunk
proc_comp_chunk-enc_comp_mode ciphers random compress decompress t ctr ecb codec raw slack fp
      features enc_buf key head seed out l refuses =
    let (padded, pads, back, small) =
      decompress_with_pad-compress_with_pad compress decompress codec random t raw seed l refuses in
    let size : u32 (length padded) ≡ length padded = omega arith in
    let whole : take (u32 (length padded)) padded ≡ padded =
      take_of_length-le (u32 (length padded)) padded (omega arith) in
    (
      record (set_data compressed_normal_chunk padded out) { key = key },
      ap
          (λ p.
            p >>= λ padded. ok (record (set_data compressed_normal_chunk padded out) { key = key }))
          pads,
      (let h : u32 (length padded) + 16 ≤ 2 ^ 14 + 16 + 4 = omega arith in h),
      ap (λ x. proc_comp_chunk ciphers decompress t (two_phase_enc_chunk ciphers x key) key) whole
          ∙ ap (λ x. decompress_with_pad decompress t x)
              (two_phase_dec-enc ciphers padded key ctr ecb)
          ∙ back,
    )
