-- ===== src/Database.antt =====
-- EDRStore/src/database/in_mem_db.cc: the index in memory. The read-write lock makes each call
-- one step. A fixed-size object that is cast to a string of its bytes is used as it is.
pub mod File
pub mod Persistence
pub mod Refines
use edrstore.Prelude.{List, Option, none, some, Bool, true, false, find, assign, erase}

-- What a query leaves: the value assigned, if any, and the answer.
pub record Answer {ℓ} (V : Type ℓ) : Type ℓ where
  pub value : Option V
  pub ret : Bool

module _ {ℓ} {K V : Type ℓ} (dec : Discrete K) where
  unfoldable pub query : List (K × V) → K → Answer V
  query index_obj key = elim (find dec key index_obj) [
    | some v ↦ record { value = some v; ret = true }
    | none ↦ record { value = none; ret = false }
  ]

  unfoldable pub insert : List (K × V) → K → V → List (K × V) × Bool
  insert index_obj key value = (assign dec key value index_obj, true)

  unfoldable pub delete : List (K × V) → K → List (K × V)
  delete index_obj key = erase dec key index_obj
