-- ===== src/Recipe/RoundTrip.antt =====
-- What was written to a recipe is what is read from it.
use edrstore.Prelude.{
  ℕ, ◌+◌, ◌*◌, ◌%◌, ◌≤◌, ◌<◌, ◌^◌, List, [], ◌∷◌, ◌++◌, Bytes, if◌then◌else◌, ◌==◌, take, length,
  All, ◌≡◌, refl, arith, flatten, length-append, Outcome, ok, ◌>>=◌,
}
use edrstore.Recipe.{Recipe, process_recipe}

-- Fingerprints of the right size.
abbrev pub AreFps : List Bytes → Type 0
AreFps = All (λ fp. length fp ≡ 32)

unfoldable pub process_recipes : ℕ → Recipe → List Bytes → Outcome Recipe
process_recipes batch r [] = ok r
process_recipes batch r (fp ∷ fps) =
    process_recipe batch r fp >>= λ r'. process_recipes batch r' fps

pub length-flatten : (fps : List Bytes) → AreFps fps → length (flatten fps) ≡ 32 * length fps
unfolding flatten
length-flatten [] h = refl
length-flatten (fp ∷ fps) h = omega (arith, length-append fp (flatten fps), length-flatten fps h.1)

-- The batch that waits: its first `cnt` fingerprints.
abbrev waiting : Recipe → Bytes
waiting r = take (r.cnt * 32) r.buf

record IsAfter (head : Bytes) (r : Recipe) (done : Bytes) : Type 0 where
  all : r.file ++ waiting r ≡ head ++ done
  filled : r.cnt * 32 ≤ length r.buf
  small : r.cnt * 32 ≤ length done

module _ (batch : ℕ) (pos : 0 < batch) (head : Bytes) (r : Recipe) (done fp : Bytes)
    (size : length fp ≡ 32) (bound : length done < 2 ^ 32) (h : IsAfter head r done) where
  abbrev buf' : Bytes
  buf' = waiting r ++ fp

  abbrev next : Recipe
  next =
      if (r.cnt + 1) % batch == 0
      then record { buf = buf'; cnt = 0; file = r.file ++ buf' }
      else record { buf = buf'; cnt = r.cnt + 1; file = r.file }
