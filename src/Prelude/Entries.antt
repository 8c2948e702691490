-- ===== src/Prelude/Entries.antt =====
-- A map as the records of a file: one after the other, each read into the same variables.
use Prim.Native.Nat.{ℕ, zero, suc}
use mathlib.Core.Path.{◌≡◌, refl, sym, ap, ◌∙◌}
use mathlib.Core.Bool.{true, false}
use mathlib.Core.List.{List, [], ◌∷◌, ◌++◌, append_assoc, append-nil}
use edrstore.Prelude.Tests.{◌==◌, not_zero-elim}
use native.Mathlib.Omega.{arith}
use edrstore.Prelude.Lists.{length, All}
use edrstore.Prelude.ByteString.{Bytes}
use edrstore.Prelude.Dict.{assign, assign_all}
use edrstore.Prelude.Stream.{Ifstream, open_stream}

-- The records of the entries, one after the other.
unfoldable pub store_entries : {K V : Type 0} → (K × V → Bytes) → List (K × V) → Bytes
store_entries entry_bytes [] = []
store_entries entry_bytes (e ∷ es) = entry_bytes e ++ store_entries entry_bytes es

module _ {K V : Type 0} (dec : Discrete K)
    (read_entry : K × V → Ifstream → (K × V) × Ifstream) where
  -- `n` rounds that read a record and assign it; `old` is what the variables hold.
  unfoldable pub load_entries : ℕ → K × V → Ifstream → List (K × V) → List (K × V) × Ifstream
  load_entries zero old s m = (m, s)
  load_entries (suc n) old s m =
      let (e, s') = read_entry old s in load_entries n e s' (assign dec e.0 e.1 m)

  -- The map that such a loop leaves, which is not run for a count of 0.
  unfoldable pub load_map : K × V → ℕ × Ifstream → List (K × V)
  unfolding load_entries
  load_map uninit (n, s) = elim (n == 0) [ true ↦ [] | false ↦ (load_entries n uninit s []).0 ]

  load_map_lem :
      (uninit : K × V) (n : ℕ) (s : Ifstream)
      → load_map uninit (n, s) ≡ (load_entries n uninit s []).0
  unfolding load_map load_entries
  load_map_lem uninit zero s = refl
  load_map_lem uninit (suc n) s =
      not_zero-elim (suc n) [] ((load_entries (suc n) uninit s []).0) (omega arith)

  -- Entries that are read back as they were written are all assigned.
  load_entries-store_entries {ℓ} :
      (entry_bytes : K × V → Bytes) (Fits : K × V → Type ℓ) (es : List (K × V)) (old : K × V)
      (r : Bytes) (m : List (K × V))
      → ((e f : K × V) (t : Bytes)
          → Fits e
          → Fits f
          → read_entry e (open_stream (entry_bytes f ++ t)) ≡ (f, open_stream t))
      → Fits old
      → All Fits es
      → load_entries (length es) old (open_stream (store_entries entry_bytes es ++ r)) m
        ≡ (assign_all dec es m, open_stream r)
  unfolding load_entries store_entries assign_all
  load_entries-store_entries entry_bytes Fits [] old r m back o fits = refl
  load_entries-store_entries entry_bytes Fits (e ∷ es) old r m back o fits =
      ap (λ s. load_entries (length (e ∷ es)) old (open_stream s) m)
        (append_assoc (entry_bytes e) (store_entries entry_bytes es) r)
      ∙ ap (λ t. load_entries (length es) t.0 t.1 (assign dec t.0.0 t.0.1 m))
          (back old e (store_entries entry_bytes es ++ r) o fits.0)
      ∙ load_entries-store_entries entry_bytes Fits es e r (assign dec e.0 e.1 m) back fits.0 fits.1

  pub load_map-store_entries {ℓ} :
      (entry_bytes : K × V → Bytes) (Fits : K × V → Type ℓ) (es : List (K × V)) (old : K × V)
      → ((e f : K × V) (t : Bytes)
          → Fits e
          → Fits f
          → read_entry e (open_stream (entry_bytes f ++ t)) ≡ (f, open_stream t))
      → Fits old
      → All Fits es
      → load_map old (length es, open_stream (store_entries entry_bytes es)) ≡ assign_all dec es []
  load_map-store_entries entry_bytes Fits es old back o fits =
      load_map_lem old (length es) (open_stream (store_entries entry_bytes es))
      ∙ ap (λ file. (load_entries (length es) old (open_stream file) []).0)
          (sym (append-nil (store_entries entry_bytes es)))
      ∙ ap (λ t. t.0) (load_entries-store_entries entry_bytes Fits es old [] [] back o fits)
