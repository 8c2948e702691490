-- ===== src/Client/KeyGen/Session.antt =====
-- The key thread of EDRStore/src/client/key_gen_thd.cc with EDRStore/src/key_manager/basic_km.cc at
-- the other end of its connection.
use edrstore.Prelude.{ℕ, ◌<◌, ◌^◌, List, [], ◌∷◌, ◌++◌, true, Bytes, length, ok, ◌≡◌}
use edrstore.Layout.{ChunkInfo, recipe_chunk}
use edrstore.KeyManager.{BasicKm, answer}
use edrstore.KeyManager.Server.{HasSeeds, answer-HasSeeds}
use edrstore.Client.SelectComp.{EncFeatureChunk}
use edrstore.Client.TwoPhaseEnc.{Ciphers, IsCipher}
use edrstore.Client.KeyGen.{KeyGen, run}
use edrstore.Client.KeyGen.Keyed.{All2, IsKeyed, IsKeyServer}
use edrstore.Client.KeyGen.Queue.{AreNormal, run-IsKeyed}

pub answer-IsKeyServer :
    (hash : Bytes → Bytes) (uninit : ChunkInfo)
    → ((x : Bytes) → length (hash x) ≡ 32)
    → IsKeyServer (answer hash true uninit) HasSeeds
answer-IsKeyServer hash uninit hash_size = record {
  answers =
      λ m km sound kind len small. answer-HasSeeds hash hash_size uninit m km sound kind len small;
}

-- With a batch size above 0 and in 32 bits, ciphers that keep their promise, a hash of 32 bytes, and a
-- key index of seeds of 32 bytes, the key thread and the key manager together succeed on any normal
-- chunks and the recipe's chunk behind them. The thread pushes, in this order, one output for each
-- chunk and then the recipe's chunk; only the padding seed, the key and the encryption of a chunk are
-- set; the key is the hash of the chunk's first 32 bytes and a seed of 32 bytes; the encryption is
-- undone under the key; no chunk is left waiting, and the index still has seeds of 32 bytes.
pub run-answer :
    (hash : Bytes → Bytes) (ciphers : Ciphers) (uninit : ChunkInfo) (batch : ℕ)
    (cs : List EncFeatureChunk) (last : EncFeatureChunk) (km : BasicKm)
    → ((x : Bytes) → length (hash x) ≡ 32)
    → IsCipher ciphers.ctr_encrypt ciphers.ctr_decrypt
    → IsCipher ciphers.ecb_encrypt ciphers.ecb_decrypt
    → 0 < batch
    → batch < 2 ^ 32
    → AreNormal cs
    → last.kind ≡ recipe_chunk
    → HasSeeds km
    → (g' : KeyGen BasicKm) × (outs : List EncFeatureChunk) × (run hash ciphers
          (answer hash true uninit)
          batch
          (cs ++ last ∷ [])
          (record { chunk_buf = []; send_buf = []; output = []; remote = km })
        ≡ ok g')
      × (g'.output ≡ outs ++ last ∷ [])
      × All2 (IsKeyed ciphers hash) cs outs
      × (g'.chunk_buf ≡ [])
      × HasSeeds g'.remote
run-answer hash ciphers uninit batch cs last km hash_size ctr ecb pos fits normal kind sound =
    run-IsKeyed hash ciphers ctr ecb (answer hash true uninit) HasSeeds
      (answer-IsKeyServer hash uninit hash_size) batch pos fits cs last km normal kind sound
