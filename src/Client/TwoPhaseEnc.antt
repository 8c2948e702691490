-- ===== src/Client/TwoPhaseEnc.antt =====
-- EDRStore/src/client/two_phase_enc.cc. The two ciphers, which `CryptoUtil` takes from OpenSSL with
-- the fixed IV, are a record: a key and the data to the output.
use edrstore.Prelude.{Bytes, ◌≡◌, ap, ◌∙◌}

pub record Ciphers : Type 0 where
  pub ctr_encrypt : Bytes → Bytes → Bytes
  pub ctr_decrypt : Bytes → Bytes → Bytes
  pub ecb_encrypt : Bytes → Bytes → Bytes
  pub ecb_decrypt : Bytes → Bytes → Bytes

-- Each cipher decrypts what it has encrypted under the same key.
abbrev pub IsCipher : (Bytes → Bytes → Bytes) → (Bytes → Bytes → Bytes) → Type 0
IsCipher encrypt decrypt = (key x : Bytes) → decrypt key (encrypt key x) ≡ x

-- `TwoPhaseEncChunk`
unfoldable pub two_phase_enc_chunk : Ciphers → Bytes → Bytes → Bytes
two_phase_enc_chunk c plain_chunk key = c.ecb_encrypt key (c.ctr_encrypt key plain_chunk)

-- `TwoPhaseDecChunk`
unfoldable pub two_phase_dec_chunk : Ciphers → Bytes → Bytes → Bytes
two_phase_dec_chunk c enc_chunk key = c.ctr_decrypt key (c.ecb_decrypt key enc_chunk)

pub two_phase_dec-enc :
    (c : Ciphers) (x key : Bytes)
    → IsCipher c.ctr_encrypt c.ctr_decrypt
    → IsCipher c.ecb_encrypt c.ecb_decrypt
    → two_phase_dec_chunk c (two_phase_enc_chunk c x key) key ≡ x
unfolding two_phase_enc_chunk two_phase_dec_chunk
two_phase_dec-enc c x key ctr ecb =
    ap (c.ctr_decrypt key) (ecb key (c.ctr_encrypt key x)) ∙ ctr key x
