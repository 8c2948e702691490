-- ===== src/Client/SimilarThd.antt =====
-- EDRStore/src/client/plain_similar_thd.cc and cipher_similar_thd.cc: the threads that put the
-- features of a chunk, and of its encryption, into it. `extract` is `ExtractFeature` (Features).
pub mod Prepared
use edrstore.Prelude.{ℕ, List, [], ◌∷◌, Bytes, Outcome, ok, exit_failure, ◌>>=◌}
use edrstore.Layout.{DataType, normal_chunk, recipe_chunk}
use edrstore.Client.SelectComp.{EncFeatureChunk}

module _ (extract : Bytes → List ℕ) where
  -- The switch of `PlainSimilarThd::Run`. The chunk of the recipe goes on with the features that the
  -- chunk before it has left.
  unfoldable pub plain_as : DataType → EncFeatureChunk → List ℕ → Outcome EncFeatureChunk
  plain_as normal_chunk c old = ok (record c { features = extract c.raw_chunk })
  plain_as recipe_chunk c old = ok (record c { features = old })
  plain_as _ c old = exit_failure

  -- `PlainSimilarThd::Run`: what is pushed for the chunks of the input queue.
  unfoldable pub plain_run : List EncFeatureChunk → List ℕ → Outcome (List EncFeatureChunk)
  unfolding plain_as
  plain_run [] old = ok []
  plain_run (c ∷ cs) old =
      plain_as c.kind c old >>= λ o. plain_run cs o.features >>= λ os. ok (o ∷ os)

  -- The switch of `CipherSimilarThd::Run`.
  unfoldable pub cipher_as : DataType → EncFeatureChunk → Outcome EncFeatureChunk
  cipher_as normal_chunk c = ok (record c { features = extract c.enc_buf })
  cipher_as recipe_chunk c = ok c
  cipher_as _ c = exit_failure

  -- `CipherSimilarThd::Run`
  unfoldable pub cipher_run : List EncFeatureChunk → Outcome (List EncFeatureChunk)
  unfolding cipher_as
  cipher_run [] = ok []
  cipher_run (c ∷ cs) = cipher_as c.kind c >>= λ o. cipher_run cs >>= λ os. ok (o ∷ os)
