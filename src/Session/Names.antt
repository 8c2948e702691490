-- ===== src/Session/Names.antt =====
-- The names of recipes.
use edrstore.Prelude.{
  ℕ, ◌*◌, ◌/◌, ◌%◌, ◌<◌, [], ◌∷◌, ◌++◌, Bytes, length, ◌≡◌, refl, sym, ap, ap₂, ◌∙◌, arith, All,
  take-length-append, take, drop, drop-length-append,
}
use mathlib.Core.List.{append_assoc}
use edrstore.Session.{hex_digit, hex_name, recipe_path}

hex_digit-inj : (a b : ℕ) → a < 16 → b < 16 → hex_digit a ≡ hex_digit b → a ≡ b
unfolding hex_digit
hex_digit-inj a b sa sb e = ground arith

hex_name-inj :
    (xs ys : Bytes)
    → All (λ b. b < 256) xs
    → All (λ b. b < 256) ys
    → length xs ≡ length ys
    → hex_name xs ≡ hex_name ys
    → xs ≡ ys
unfolding hex_name
hex_name-inj [] [] hx hy len e = refl
hex_name-inj [] (y ∷ ys) hx hy len e = absurd (omega arith)
hex_name-inj (x ∷ xs) [] hx hy len e = absurd (omega arith)
hex_name-inj (x ∷ xs) (y ∷ ys) hx hy len e =
    let high : hex_digit (x / 16) ≡ hex_digit (y / 16) = cc in
    let low : hex_digit (x % 16) ≡ hex_digit (y % 16) = cc in
    let rest : hex_name xs ≡ hex_name ys = cc in
    let same_high =
      hex_digit-inj (x / 16) (y / 16) (omega (arith, hx.0)) (omega (arith, hy.0)) high in
    let same_low = hex_digit-inj (x % 16) (y % 16) (omega arith) (omega arith) low in
    let same : x ≡ y = omega (arith, same_high, same_low) in
    ap₂ (λ b bs. b ∷ bs) same (hex_name-inj xs ys hx.1 hy.1 (omega arith) rest)

length-hex_name : (xs : Bytes) → length (hex_name xs) ≡ 2 * length xs
unfolding hex_name
length-hex_name [] = refl
length-hex_name (x ∷ xs) = omega (arith, length-hex_name xs)

name_at :
    (root suffix zs : Bytes) (n : ℕ)
    → n ≡ 2 * length zs
    → take n (drop (length root) (recipe_path root suffix zs)) ≡ hex_name zs
unfolding recipe_path
name_at root suffix zs n e =
    ap (λ t. take n (drop (length root) t)) (append_assoc root (hex_name zs) suffix)
    ∙ ap (take n) (drop-length-append root (hex_name zs ++ suffix))
    ∙ ap (λ k. take k (hex_name zs ++ suffix)) (e ∙ sym (length-hex_name zs))
    ∙ take-length-append (hex_name zs) suffix

-- Two hashes of one size have the same recipe only if they are equal.
pub recipe_path-inj :
    (root suffix xs ys : Bytes)
    → All (λ b. b < 256) xs
    → All (λ b. b < 256) ys
    → length xs ≡ length ys
    → recipe_path root suffix xs ≡ recipe_path root suffix ys
    → xs ≡ ys
unfolding recipe_path
recipe_path-inj root suffix xs ys hx hy len e =
    let n = 2 * length xs in
    hex_name-inj xs ys hx hy len (
      sym (name_at root suffix xs n refl)
      ∙ ap (λ p. take n (drop (length root) p)) e
      ∙ name_at root suffix ys n (ap (λ k. 2 * k) len))
