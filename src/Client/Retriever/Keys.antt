-- ===== src/Client/Retriever/Keys.antt =====
-- The key recipes: the retriever takes the keys of the file one after the other.
use edrstore.Prelude.{
  ℕ, zero, suc, ◌+◌, ◌-◌, ◌^◌, ◌≤◌, ◌<◌, List, [], ◌∷◌, ◌++◌, none, some, Bytes, u32, take, drop,
  slice, length, length-append, length-take, length-drop, get_elem?, take-append-drop,
  take-length-append, if◌then◌else◌, ◌==◌, ==_iff, Bool-cases, inl, inr, ◌≡◌, sym, ap, ap₂, ◌∙◌,
  arith, subst,
}
use edrstore.Client.Retriever.{Retriever, fetch_key_recipe, ensure_key, cur_key, push_restored}

-- The keys that are still to be used: those of the buffer, and those of the file.
pub record IsKeys (batch : ℕ) (r : Retriever) (keys : List Bytes) : Type 0 where
  pub all : slice r.cnt r.remain_recipe_num r.key_recipe_buf ++ r.key_recipe_hdl ≡ keys
  pub inside : r.cnt + r.remain_recipe_num ≤ length r.key_recipe_buf
  pub fits : length r.key_recipe_buf ≤ batch

module _ (batch : ℕ) (pos : 0 < batch) (small : batch < 2 ^ 32) where
  fetch_key_recipe-IsKeys :
      (r : Retriever) (keys : List Bytes)
      → r.remain_recipe_num ≡ 0
      → IsKeys batch r keys
      → IsKeys batch (fetch_key_recipe batch r) keys
  unfolding fetch_key_recipe slice take drop
  fetch_key_recipe-IsKeys r keys e h =
      let read = take batch r.key_recipe_hdl in
      let old = drop (length read) r.key_recipe_buf in
      let hdl : r.key_recipe_hdl ≡ keys =
        ap (λ n. take n (drop r.cnt r.key_recipe_buf) ++ r.key_recipe_hdl) (sym e) ∙ h.all in
      record {
        all =
            ap (λ xs. xs ++ drop batch r.key_recipe_hdl) (take-length-append read old)
            ∙ take-append-drop batch r.key_recipe_hdl
            ∙ hdl;
        inside = omega (arith, length-append read old);
        fits = omega (
          arith,
          length-append read old,
          length-take batch r.key_recipe_hdl,
          length-drop (length read) r.key_recipe_buf,
          h.fits,
        );
      }

  fetched_some :
      (r : Retriever) (k : Bytes) (keys : List Bytes)
      → r.remain_recipe_num ≡ 0
      → IsKeys batch r (k ∷ keys)
      → 0 < (fetch_key_recipe batch r).remain_recipe_num
  unfolding fetch_key_recipe slice take
  fetched_some r k keys e h =
      let hdl : r.key_recipe_hdl ≡ k ∷ keys =
        ap (λ n. take n (drop r.cnt r.key_recipe_buf) ++ r.key_recipe_hdl) (sym e) ∙ h.all in
      omega (arith, length-take batch r.key_recipe_hdl, ap length hdl)

  -- A key is at hand when one is needed.
  pub ensure_key-IsKeys :
      (r : Retriever) (k : Bytes) (keys : List Bytes)
      → IsKeys batch r (k ∷ keys)
      → IsKeys batch (ensure_key batch r) (k ∷ keys) × (0 < (ensure_key batch r).remain_recipe_num)
  unfolding ensure_key
  ensure_key-IsKeys r k keys h = elim (Bool-cases (r.remain_recipe_num == 0)) [
    | inl e ↦
        let none_left = (==_iff r.remain_recipe_num 0).0 e in
        subst
          (λ b.
            let r' = if b then fetch_key_recipe batch r else r in
            IsKeys batch r' (k ∷ keys) × (0 < r'.remain_recipe_num))
          (sym e)
          (fetch_key_recipe-IsKeys r (k ∷ keys) none_left h, fetched_some r k keys none_left h)
    | inr e ↦
        subst
          (λ b.
            let r' = if b then fetch_key_recipe batch r else r in
            IsKeys batch r' (k ∷ keys) × (0 < r'.remain_recipe_num))
          (sym e) (h, ground arith)
  ]

uncons :
    (xs : List Bytes) (n m : ℕ) (hdl : List Bytes) (k : Bytes) (keys : List Bytes)
    → n < length xs
    → take (suc m) (drop n xs) ++ hdl ≡ k ∷ keys
    → (get_elem? xs n ≡ some k) × (take m (drop (suc n) xs) ++ hdl ≡ keys)
unfolding take drop
uncons [] n m hdl k keys h e = absurd (omega arith)
uncons (x ∷ xs) zero m hdl k keys h e = (cc, cc)
uncons (x ∷ xs) (suc n) m hdl k keys h e = uncons xs n m hdl k keys (omega arith) e

module _ (batch : ℕ) (small : batch < 2 ^ 32) (r : Retriever) (k : Bytes) (keys : List Bytes)
    (h : IsKeys batch r (k ∷ keys)) (some_left : 0 < r.remain_recipe_num) where
  at_hand :
      (get_elem? r.key_recipe_buf r.cnt ≡ some k)
      × (take (r.remain_recipe_num - 1) (drop (suc r.cnt) r.key_recipe_buf) ++ r.key_recipe_hdl
          ≡ keys)
  unfolding slice
  at_hand =
      uncons r.key_recipe_buf r.cnt (r.remain_recipe_num - 1) r.key_recipe_hdl k keys
        (omega (arith, h.inside))
        (ap (λ n. take n (drop r.cnt r.key_recipe_buf) ++ r.key_recipe_hdl) (omega arith) ∙ h.all)

  -- The key that is used is the next one.
  pub cur_key_lem : (unread : Bytes) → cur_key unread r ≡ k
  cur_key_lem unread = ap (λ o. elim o as (λ _. Bytes) [ some k ↦ k | none ↦ unread ]) at_hand.0

  pub push_restored-IsKeys : (chunk : Bytes) → IsKeys batch (push_restored chunk r) keys
  unfolding push_restored slice
  push_restored-IsKeys chunk =
      let cnt : u32 (r.cnt + 1) ≡ suc r.cnt = omega (arith, h.inside, h.fits) in
      let left : u32 (r.remain_recipe_num + (2 ^ 32 - 1)) ≡ r.remain_recipe_num - 1 =
        omega (arith, h.inside, h.fits) in
      record {
        all =
            ap₂ (λ c n. take n (drop c r.key_recipe_buf) ++ r.key_recipe_hdl) cnt left ∙ at_hand.1;
        inside = omega (arith, cnt, left, h.inside);
        fits = h.fits;
      }
