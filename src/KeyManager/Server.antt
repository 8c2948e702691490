-- ===== src/KeyManager/Server.antt =====
-- The key manager's replies: one seed of the size of a hash for each request of a batch.
use edrstore.Prelude.{
  ℕ, suc, ◌+◌, ◌<◌, ◌^◌, List, [], ◌∷◌, ◌++◌, true, Bytes, ℕ_discrete, find-All, length,
  length-take, take, take_of_length-le, u64, Outcome, ok, ◌>>=◌, ◌≡◌, refl, sym, ap, ◌∙◌, arith,
  All, inl, inr, subst,
}
use edrstore.Layout.{ChunkInfo}
use edrstore.Upload.Wire.{features_bytes}
use edrstore.KeyManager.{
  BasicKm, KeyBuffer, client_key_gen, key_manager_key_gen_reply, global_secret, gen_seed, gen_seeds,
  answer_as, answer,
}
use edrstore.KeyManager.Index.{AreSeeds, count-matches, update_feature_index-AreSeeds}
use edrstore.KeyManager.Stable.{gen_seed-answers}

abbrev pub HasSeeds : BasicKm → Type 0
HasSeeds km = AreSeeds km.feature_2_key_index

module _ (hash : Bytes → Bytes) (hash_size : (x : Bytes) → length (hash x) ≡ 32) where
  gen_seed-HasSeeds :
      (fs : List ℕ) (info : ChunkInfo) (km : BasicKm)
      → length fs < 2 ^ 32
      → HasSeeds km
      → (r : Bytes × ChunkInfo × BasicKm) × (gen_seed hash fs info km ≡ ok r)
        × (length r.0 ≡ 32)
        × HasSeeds r.2
  gen_seed-HasSeeds fs info km small h =
      let (r, answers, how) = gen_seed-answers hash fs info km small in
      let both : (length r.0 ≡ 32) × HasSeeds r.2 = elim how [
        | inl (b, is_b, pos, same) ↦
            let (f, found) = count-matches fs b km.feature_2_key_index pos in
            let size : length b ≡ 32 =
              find-All ℕ_discrete (λ e. length e.1 ≡ 32) f b km.feature_2_key_index found h in
            (ap length is_b ∙ omega (arith, length-take 32 b), subst AreSeeds (sym same) h)
        | inr (_, is_seed, grown) ↦
            let size : length r.0 ≡ 32 =
              ap length is_seed ∙ hash_size (global_secret ++ features_bytes fs) in
            (
              size,
              subst AreSeeds (sym grown)
                  (update_feature_index-AreSeeds fs r.0 km.feature_2_key_index size h),
            )
      ] in
      (r, answers, both.0, both.1)

  gen_seeds-HasSeeds :
      (reqs : List (List ℕ)) (info : ChunkInfo) (km : BasicKm)
      → All (λ fs. length fs < 2 ^ 32) reqs
      → HasSeeds km
      → (r : List Bytes × BasicKm) × (gen_seeds hash reqs info km ≡ ok r)
        × HasSeeds r.1
        × (length r.0 ≡ length reqs)
        × All (λ s. length s ≡ 32) r.0
  unfolding gen_seeds
  gen_seeds-HasSeeds [] info km small h = (([], km), refl, h, refl, tt)
  gen_seeds-HasSeeds (fs ∷ reqs) info km small h =
      let (r, answers, size, h1) = gen_seed-HasSeeds fs info km small.0 h in
      let (s, more, h2, len, sizes) = gen_seeds-HasSeeds reqs r.1 r.2 small.1 h1 in
      (
        (r.0 ∷ s.0, s.1),
        ap (λ o. o >>= λ t. gen_seeds hash reqs t.1 t.2 >>= λ rest. ok (t.0 ∷ rest.0, rest.1))
              answers
            ∙ ap (λ o. o >>= λ rest. ok (r.0 ∷ rest.0, rest.1)) more,
        h2,
        ap suc len,
        (size, sizes),
      )

  -- A request of the right type, with as many items as its head says, is answered with as many seeds of
  -- 32 bytes, and the index keeps seeds of 32 bytes.
  pub answer-HasSeeds :
      (uninit : ChunkInfo) (m : KeyBuffer (List ℕ)) (km : BasicKm)
      → HasSeeds km
      → m.msg_type ≡ client_key_gen
      → m.cur_item_num ≡ length m.items
      → All (λ fs. length fs < 2 ^ 32) m.items
      → (r : KeyBuffer Bytes × BasicKm) × (answer hash true uninit m km ≡ ok r)
        × HasSeeds r.1
        × (length r.0.items ≡ m.cur_item_num)
        × All (λ s. length s ≡ 32) r.0.items
  unfolding answer answer_as
  answer-HasSeeds uninit m km h kind len small =
      let (r, answers, h1, count, sizes) = gen_seeds-HasSeeds m.items uninit km small h in
      let all : take m.cur_item_num m.items ≡ m.items =
        take_of_length-le m.cur_item_num m.items (omega (arith, len)) in
      let send : List Bytes × BasicKm → Outcome (KeyBuffer Bytes × BasicKm) = (λ r. ok (
        record { msg_type = key_manager_key_gen_reply; cur_item_num = m.cur_item_num; items = r.0 },
        record (r.1) { total_key_gen_num = u64 (r.1.total_key_gen_num + m.cur_item_num) },
      )) in
      (
        (
          record {
            msg_type = key_manager_key_gen_reply;
            cur_item_num = m.cur_item_num;
            items = r.0;
          },
          record (r.1) { total_key_gen_num = u64 (r.1.total_key_gen_num + m.cur_item_num) },
        ),
        ap (λ k. answer_as hash true uninit k m km) kind
            ∙ ap (λ reqs. gen_seeds hash reqs uninit km >>= send) all
            ∙ ap (λ o. o >>= send) answers,
        h1,
        count ∙ sym len,
        sizes,
      )
