-- ===== src/Session/Lock.antt =====
-- EDRStore/src/server/server_opt_thd.cc: the locks that keep the sessions of one client apart, as
-- steps of any number of sessions in any order. `client_idx_lck_` makes each access of the index one
-- step.
use edrstore.Prelude.{
  ℕ, List, [], none, some, Bool, true, false, ℕ_discrete, find, assign, ite, ◌≡◌,
}

-- `client_lck_idx_`: the mutex of each client, which is `true` when it is locked.
abbrev pub LockIndex : Type 0
LockIndex = List (ℕ × Bool)

-- `LockClientID` up to the call of `lock`: a client that has no mutex gets one.
unfoldable pub find_lock : ℕ → LockIndex → LockIndex
find_lock client_id idx = elim (find ℕ_discrete client_id idx) [
  | some _ ↦ idx
  | none ↦ assign ℕ_discrete client_id false idx
]

-- `lock` when it goes through, and `unlock`.
unfoldable pub set_lock : Bool → ℕ → LockIndex → LockIndex
set_lock locked client_id idx = assign ℕ_discrete client_id locked idx

-- Where a session stands: before its login, before the index is accessed, before the mutex is locked,
-- and between `LockClientID` and `UnlockClientID`.
pub data Stage : Type 0 where
  idle : Stage
  arrived trying holding : ℕ → Stage

pub record Server : Type 0 where
  pub client_lck_idx : LockIndex
  pub stage : ℕ → Stage

-- The stage of one session changes.
unfoldable pub update : (ℕ → Stage) → ℕ → Stage → ℕ → Stage
update stage i p j = ite (ℕ_discrete j i) p (stage j)

pub data Step (s : Server) : Server → Type 0 where
  log_in :
      (i client_id : ℕ)
      → s.stage i ≡ idle
      → Step s (record s { stage = update s.stage i (arrived client_id) })
  look_up :
      (i client_id : ℕ)
      → s.stage i ≡ arrived client_id
      → Step s (record {
        client_lck_idx = find_lock client_id s.client_lck_idx;
        stage = update s.stage i (trying client_id);
      })
  lock :
      (i client_id : ℕ)
      → s.stage i ≡ trying client_id
      → find ℕ_discrete client_id s.client_lck_idx ≡ some false
      → Step s (record {
        client_lck_idx = set_lock true client_id s.client_lck_idx;
        stage = update s.stage i (holding client_id);
      })
  unlock :
      (i client_id : ℕ)
      → s.stage i ≡ holding client_id
      → Step s (record {
        client_lck_idx = set_lock false client_id s.client_lck_idx;
        stage = update s.stage i idle;
      })

-- The server has just started.
abbrev pub start : Server
start = record { client_lck_idx = []; stage = λ _. idle }

pub data Reach : Server → Type 0 where
  here : Reach start
  next : {s t : Server} → Reach s → Step s t → Reach t
