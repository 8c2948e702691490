-- ===== src/Client/Eviction.antt =====
-- EDRStore/src/client/cache_meta.cc: what `EvictFeature` sends and keeps.
use edrstore.Prelude.{
  not_full-lt, ℕ, ◌+◌, ◌-◌, ◌*◌, ◌/◌, ◌%◌, ◌^◌, ◌≤◌, ◌<◌, ◌≡◌, refl, sym, ap, ◌∙◌, List, [], ◌∷◌,
  ◌++◌, true, u32, leb, ◌==◌, if◌then◌else◌, Outcome, ok, ◌>>=◌, flatten, flatten-append, length,
  length-append, take, drop, length-take, take-add-append, All, All-append, Bool-cases, inl, inr,
  arith,
}
use mathlib.Core.List.{append_assoc, append-nil}
use edrstore.Client.CacheMeta.{
  EvictBuf, age, message_of, add_feature, send_features, evict_loop, evict_feature,
}

-- A feature is outdated when the backups since its last use are `last_n_para` or more.
unfoldable pub outdated : ℕ → ℕ → List (ℕ × ℕ) → List ℕ
outdated last_n_para cur [] = []
outdated last_n_para cur ((f, version) ∷ idx) =
    let rest = outdated last_n_para cur idx in
    if leb last_n_para (age cur version) then f ∷ rest else rest

unfoldable pub recent : ℕ → ℕ → List (ℕ × ℕ) → List (ℕ × ℕ)
recent last_n_para cur [] = []
recent last_n_para cur ((f, version) ∷ idx) =
    let rest = recent last_n_para cur idx in
    if leb last_n_para (age cur version) then rest else (f, version) ∷ rest

-- The features of the buffer that are not sent, and all that was given to it, sent or not.
abbrev pub waiting : EvictBuf → List ℕ
waiting b = take (b.size / 8) b.items

abbrev all_items : EvictBuf → List ℕ
all_items b = flatten b.sent ++ waiting b

module _ (batch : ℕ) (pos : 0 < batch) (fits : batch * 8 + 16 < 2 ^ 32) where
  -- The count and the size are those of the features in the buffer.
  IsFilled : EvictBuf → Type 0
  IsFilled b = (b.size ≡ 8 * b.cur_item_num) × (b.cur_item_num ≤ length b.items)

  -- They are fewer than a batch; no message is larger.
  IsBuf : EvictBuf → Type 0
  IsBuf b = IsFilled b × (b.cur_item_num < batch) × All (λ m. length m ≤ batch) b.sent

  send_features-IsBuf :
      (b : EvictBuf)
      → IsFilled b
      → b.cur_item_num ≤ batch
      → All (λ m. length m ≤ batch) b.sent
      → (b' : EvictBuf) × (send_features true b ≡ ok b')
        × IsBuf b'
        × (b'.cur_item_num ≡ 0)
        × (all_items b' ≡ all_items b)
  unfolding send_features message_of flatten IsBuf IsFilled take
  send_features-IsBuf b n l sent = (
    record { items = b.items; size = 0; cur_item_num = 0; sent = b.sent ++ waiting b ∷ [] },
    (let whole : (u32 (b.size + 16) - 16) / 8 ≡ b.size / 8 = omega (arith, n.0) in
        ap
          (λ k. ok (record {
            items = b.items;
            size = 0;
            cur_item_num = 0;
            sent = b.sent ++ take k b.items ∷ [];
          }))
          whole),
    (
      (refl, omega arith),
      pos,
      All-append (λ m. length m ≤ batch) b.sent (waiting b ∷ []) sent
          (omega (arith, n.0, length-take (b.size / 8) b.items), tt),
    ),
    refl,
    append-nil (flatten (b.sent ++ waiting b ∷ []))
        ∙ flatten-append b.sent (waiting b ∷ [])
        ∙ ap (λ t. flatten b.sent ++ t) (append-nil (waiting b)),
  )

  add_feature-IsBuf :
      (last_n_para cur f : ℕ) (b : EvictBuf)
      → IsBuf b
      → (b' : EvictBuf) × (add_feature true batch last_n_para cur f b ≡ ok b')
        × IsBuf b'
        × (all_items b' ≡ all_items b ++ f ∷ [])
  unfolding add_feature IsBuf IsFilled
  add_feature-IsBuf last_n_para cur f b ((size, n), l, sent) =
      let over = drop (b.size / 8 + 1) b.items in
      let b1 : EvictBuf = record b {
        items = waiting b ++ f ∷ over;
        size = u32 (b.size + 8);
        cur_item_num = u32 (b.cur_item_num + 1);
      } in
      let here : length (waiting b) ≡ b.cur_item_num =
        omega (arith, length-take (b.size / 8) b.items) in
      let n1 : (b1.size ≡ 8 * b1.cur_item_num) × (b1.cur_item_num ≤ length b1.items) =
        (omega arith, omega (arith, length-append (waiting b) (f ∷ over))) in
      let added : waiting b1 ≡ waiting b ++ f ∷ [] =
        let behind : u32 (b.size + 8) / 8 ≡ length (waiting b) + 1 = omega arith in
        ap (λ k. take k (waiting b ++ f ∷ over)) behind
        ∙ take-add-append 1 (length (waiting b) + 1) (waiting b) (f ∷ over) (omega arith)
        ∙ unfold take in refl in
      let all : all_items b1 ≡ all_items b ++ f ∷ [] =
        ap (λ t. flatten b.sent ++ t) added
        ∙ sym (append_assoc (flatten b.sent) (waiting b) (f ∷ [])) in
      elim (Bool-cases (b1.cur_item_num % batch == 0)) [
        | inl e ↦
            let (b', sends, is_buf, _, same) =
              send_features-IsBuf b1 n1 (let h : b1.cur_item_num ≤ batch = omega arith in h) sent in
            (b', rw (e) sends, is_buf, same ∙ all)
        | inr e ↦
            let not_full : b1.cur_item_num < batch =
              not_full-lt batch b1.cur_item_num (omega arith) e in
            (b1, rw (e) refl, (n1, not_full, sent), all)
      ]

  evict_loop-IsBuf :
      (last_n_para cur : ℕ) (idx : List (ℕ × ℕ)) (b : EvictBuf)
      → IsBuf b
      → (b' : EvictBuf) × (evict_loop true batch last_n_para cur idx b
          ≡ ok (recent last_n_para cur idx, b'))
        × IsBuf b'
        × (all_items b' ≡ all_items b ++ outdated last_n_para cur idx)
  unfolding evict_loop recent outdated
  evict_loop-IsBuf last_n_para cur [] b h = (b, refl, h, sym (append-nil (all_items b)))
  evict_loop-IsBuf last_n_para cur ((f, version) ∷ idx) b h =
      elim (Bool-cases (leb last_n_para (age cur version))) [
        | inl e ↦
            let (b1, adds, h1, all1) = add_feature-IsBuf last_n_para cur f b h in
            let (b2, loops, h2, all2) = evict_loop-IsBuf last_n_para cur idx b1 h1 in
            (
              b2,
              rw (e)
                  (ap (λ o. o >>= λ b'. evict_loop true batch last_n_para cur idx b') adds ∙ loops),
              h2,
              rw (e) (
                  all2
                  ∙ ap (λ t. t ++ outdated last_n_para cur idx) all1
                  ∙ append_assoc (all_items b) (f ∷ []) (outdated last_n_para cur idx)),
            )
        | inr e ↦
            let (b1, loops, h1, all1) = evict_loop-IsBuf last_n_para cur idx b h in
            (b1, rw (e) (ap (λ o. o >>= λ r. ok ((f, version) ∷ r.0, r.1)) loops), h1, rw (e) all1)
      ]

-- With a batch size above 0, whose message has fewer than 2^32 bytes, an empty buffer and a connection
-- that takes the messages,
-- `EvictFeature` succeeds; it keeps exactly the recent features; its messages, one after the other,
-- are the outdated ones, in the order of the map; none has more features than a batch; and the
-- buffer is left without a feature to send.
pub evict_feature-sends :
    (batch last_n_para cur : ℕ) (idx : List (ℕ × ℕ))
    → 0 < batch
    → batch * 8 + 16 < 2 ^ 32
    → (b' : EvictBuf) × (evict_feature true batch last_n_para cur idx
          (record { items = []; size = 0; cur_item_num = 0; sent = [] })
        ≡ ok (recent last_n_para cur idx, b'))
      × (flatten b'.sent ≡ outdated last_n_para cur idx)
      × All (λ m. length m ≤ batch) b'.sent
      × (b'.size ≡ 0)
      × (b'.cur_item_num ≡ 0)
unfolding evict_feature outdated flatten IsBuf IsFilled take
evict_feature-sends batch last_n_para cur idx pos fits =
    let b : EvictBuf = record { items = []; size = 0; cur_item_num = 0; sent = [] } in
    let (b1, loops, ((size, n), l, small), all) =
      evict_loop-IsBuf batch pos fits last_n_para cur idx b ((refl, omega arith), pos, tt) in
    let tail : Outcome (List (ℕ × ℕ) × EvictBuf) → Outcome (List (ℕ × ℕ) × EvictBuf) = (λ o.
      o >>= λ r.
      if r.1.cur_item_num == 0 then ok r else (send_features true r.1 >>= λ b'. ok (r.0, b'))) in
    elim (Bool-cases (b1.cur_item_num == 0)) [
      | inl e ↦
          let zero_items : b1.cur_item_num ≡ 0 = ground arith in
          let zero_size : b1.size ≡ 0 = omega arith in
          let empty : waiting b1 ≡ [] = ap (λ k. take (k / 8) b1.items) zero_size in
          (
            b1,
            ap tail loops ∙ rw (e) refl,
            sym (append-nil (flatten b1.sent)) ∙ ap (λ t. flatten b1.sent ++ t) (sym empty) ∙ all,
            small,
            zero_size,
            zero_items,
          )
      | inr e ↦
          let (b2, sends, ((size2, _), _, small2), none_left, all2) =
            send_features-IsBuf batch pos fits b1 (size, n)
              (let h : b1.cur_item_num ≤ batch = omega arith in h) small in
          let zero_size : b2.size ≡ 0 = omega arith in
          let empty : waiting b2 ≡ [] = ap (λ k. take (k / 8) b2.items) zero_size in
          (
            b2,
            ap tail loops
                ∙ rw (e) (ap (λ o. o >>= λ b'. ok (recent last_n_para cur idx, b')) sends),
            sym (append-nil (flatten b2.sent))
                ∙ ap (λ t. flatten b2.sent ++ t) (sym empty)
                ∙ all2
                ∙ all,
            small2,
            zero_size,
            none_left,
          )
    ]
