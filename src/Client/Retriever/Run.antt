-- ===== src/Client/Retriever/Run.antt =====
-- EDRStore/src/client/data_retriever_thd.cc: the loop over the messages of the server. The queue to the
-- writer is the field `output_mq`.
use edrstore.Prelude.{ℕ, List, [], ◌∷◌, Bytes, Outcome, ok, exit_failure, ◌>>=◌}
use edrstore.Client.CompressUtil.{CompressType, Codec}
use edrstore.Client.TwoPhaseEnc.{Ciphers}
use edrstore.Client.SelectComp.{EdrDesign, only_similar_enc, similar_enc_comp, full_edr_design}
use edrstore.Client.Retriever.{
  Retriever, only_enc_step, enc_comp_step, full_edr_step, retrieve_loop,
}

-- The messages that the loop tells apart; a chunk message has the number of its items.
pub data RestoreMessage : Type 0 where
  server_restore_chunk : ℕ → Bytes → RestoreMessage
  server_restore_recipe server_restore_final other_message : RestoreMessage

module _ (ciphers : Ciphers) (lib_decompress : CompressType → ℕ → Bytes → Codec) (t : CompressType)
    (delta_decode : Bytes → Bytes → Outcome Bytes) (send_recipe_batch_size : ℕ)
    (unread : Bytes) where
  -- The round of a design.
  unfoldable pub step_of : EdrDesign → Bytes → ℕ → Retriever → Outcome (Retriever × ℕ)
  unfolding only_enc_step enc_comp_step full_edr_step
  step_of only_similar_enc =
      only_enc_step ciphers lib_decompress t delta_decode send_recipe_batch_size unread
  step_of similar_enc_comp =
      enc_comp_step ciphers lib_decompress t delta_decode send_recipe_batch_size unread
  step_of full_edr_design =
      full_edr_step ciphers lib_decompress t delta_decode send_recipe_batch_size unread

  -- `Run`. After the last message that comes the connection fails.
  unfoldable pub retriever_run : EdrDesign → List RestoreMessage → Retriever → Outcome Retriever
  unfolding step_of retrieve_loop
  retriever_run design [] r = exit_failure
  retriever_run design (server_restore_chunk n data_buf ∷ ms) r =
      retrieve_loop ciphers lib_decompress t delta_decode send_recipe_batch_size unread
        (step_of design) n data_buf 0 r
      >>= λ r'. retriever_run design ms r'
  retriever_run design (server_restore_recipe ∷ ms) r = exit_failure
  retriever_run design (server_restore_final ∷ ms) r = ok r
  retriever_run design (other_message ∷ ms) r = exit_failure
