-- ===== src/Session/Exclusion.antt =====
-- What the locks of clients guarantee in every state that the server can reach.
use edrstore.Prelude.{
  ℕ, none, some, Bool, true, false, ℕ_discrete, find, assign, find-assign_self, find-assign_ne,
  if_pos, if_neg, Option-cases, ◌≡◌, ◌≢◌, ◌⊎◌, inl, inr, refl, sym, ap, ◌∙◌, arith, subst,
}
use edrstore.Session.Lock.{
  LockIndex, find_lock, set_lock, Stage, idle, arrived, trying, holding, Server, update, Step,
  log_in, look_up, lock, unlock, Reach, here, next,
}

-- A mutex is locked while a session holds it, by that session only, and unlocked when none holds it.
pub record IsExclusive (s : Server) : Type 0 where
  pub locked : (i c : ℕ) → s.stage i ≡ holding c → find ℕ_discrete c s.client_lck_idx ≡ some true
  pub only : (i j c : ℕ) → s.stage i ≡ holding c → s.stage j ≡ holding c → i ≡ j
  pub held :
      (c : ℕ) → find ℕ_discrete c s.client_lck_idx ≡ some true → (i : ℕ) × (s.stage i ≡ holding c)
  pub known : (i c : ℕ) → s.stage i ≡ trying c → find ℕ_discrete c s.client_lck_idx ≢ none

module _ (stage : ℕ → Stage) (i : ℕ) (p : Stage) where
  update_self : update stage i p i ≡ p
  unfolding update
  update_self = if_pos (ℕ_discrete i i) refl p (stage i)

  update_ne : (j : ℕ) → j ≢ i → update stage i p j ≡ stage j
  unfolding update
  update_ne j n = if_neg (ℕ_discrete j i) n p (stage j)

find-find_lock :
    (c k : ℕ) (b : Bool) (idx : LockIndex)
    → find ℕ_discrete k idx ≡ some b
    → find ℕ_discrete k (find_lock c idx) ≡ some b
unfolding find_lock
find-find_lock c k b idx e = ground (arith, find-assign_ne ℕ_discrete c k false idx)

find_lock-find :
    (c k : ℕ) (idx : LockIndex)
    → find ℕ_discrete k (find_lock c idx) ≡ some true
    → find ℕ_discrete k idx ≡ some true
unfolding find_lock
find_lock-find c k idx e = elim (ℕ_discrete k c) [
  | yes p ↦ ground (arith, find-assign_self ℕ_discrete c false idx)
  | no n ↦ ground (arith, find-assign_ne ℕ_discrete c k false idx)
]

find_lock-known : (c : ℕ) (idx : LockIndex) → find ℕ_discrete c (find_lock c idx) ≢ none
unfolding find_lock
find_lock-known c idx e = ground (arith, find-assign_self ℕ_discrete c false idx)

find_lock-keeps :
    (c k : ℕ) (idx : LockIndex)
    → find ℕ_discrete k idx ≢ none
    → find ℕ_discrete k (find_lock c idx) ≢ none
find_lock-keeps c k idx h e = elim (Option-cases (find ℕ_discrete k idx)) [
  | inl absent ↦ h absent
  | inr (b, present) ↦ ground (arith, find-find_lock c k b idx present)
]

update-cases :
    (stage : ℕ → Stage) (i : ℕ) (p : Stage) (j : ℕ) (q : Stage)
    → update stage i p j ≡ q
    → ((j ≡ i) × (p ≡ q)) ⊎ ((j ≢ i) × (stage j ≡ q))
unfolding update
update-cases stage i p j q e = elim (ℕ_discrete j i) [
  | yes same ↦ inl (same, sym (if_pos (ℕ_discrete j i) same p (stage j)) ∙ e)
  | no other ↦ inr (other, sym (if_neg (ℕ_discrete j i) other p (stage j)) ∙ e)
]

-- A session that goes on without the lock.
module _ (s : Server) (i : ℕ) (p : Stage) (idx : LockIndex) (h : IsExclusive s)
    (was_free : (c : ℕ) → s.stage i ≢ holding c) (is_free : (c : ℕ) → p ≢ holding c)
    (kept : (c : ℕ) (b : Bool)
      → find ℕ_discrete c s.client_lck_idx ≡ some b
      → find ℕ_discrete c idx ≡ some b)
    (no_more : (c : ℕ)
      → find ℕ_discrete c idx ≡ some true
      → find ℕ_discrete c s.client_lck_idx ≡ some true)
    (tried : (c : ℕ) → p ≡ trying c → find ℕ_discrete c idx ≢ none) where
  abbrev moved : Server
  moved = record { client_lck_idx = idx; stage = update s.stage i p }

  before : (j c : ℕ) → moved.stage j ≡ holding c → s.stage j ≡ holding c
  before j c e = elim (update-cases s.stage i p j (holding c) e) [
    | inl (_, q) ↦ absurd (is_free c q)
    | inr (_, q) ↦ q
  ]

  moved-IsExclusive : IsExclusive moved
  moved-IsExclusive = record {
    locked = λ j c e. kept c true (h.locked j c (before j c e));
    only = λ j k c e f. h.only j k c (before j c e) (before k c f);
    held = λ c e.
        let (j, q) = h.held c (no_more c e) in
        (
          j,
          update_ne s.stage i p j (λ same. was_free c (subst (λ k. s.stage k ≡ holding c) same q))
              ∙ q,
        );
    known = λ j c e. elim (update-cases s.stage i p j (trying c) e) [
      | inl (_, q) ↦ tried c q
      | inr (_, q) ↦ λ absent. elim (Option-cases (find ℕ_discrete c s.client_lck_idx)) [
        | inl none_there ↦ h.known j c q none_there
        | inr (b, there) ↦ let there' = kept c b there in ground arith
      ]
    ];
  }

-- A mutex that is assigned stays known, and so do the others.
assign-known :
    (k c : ℕ) (b : Bool) (idx : LockIndex)
    → find ℕ_discrete k idx ≢ none
    → find ℕ_discrete k (assign ℕ_discrete c b idx) ≢ none
assign-known k c b idx h e = elim (ℕ_discrete k c) [
  | yes p ↦
      let self =
        subst (λ i. find ℕ_discrete i (assign ℕ_discrete c b idx) ≡ some b) (sym p)
          (find-assign_self ℕ_discrete c b idx) in
      ground arith
  | no n ↦ h (sym (find-assign_ne ℕ_discrete c k b idx n) ∙ e)
]

module _ (s : Server) (i client_id : ℕ) (h : IsExclusive s) where
  module _ (e : s.stage i ≡ trying client_id)
      (free : find ℕ_discrete client_id s.client_lck_idx ≡ some false) where
    abbrev owned : Server
    owned = record {
      client_lck_idx = set_lock true client_id s.client_lck_idx;
      stage = update s.stage i (holding client_id);
    }

    none_holds : (j c : ℕ) → s.stage j ≡ holding c → c ≢ client_id
    none_holds j c q same =
        let taken = h.locked j c q in
        let free' = subst (λ k. find ℕ_discrete k s.client_lck_idx ≡ some false) (sym same) free in
        ground arith

    owned-IsExclusive : IsExclusive owned
    unfolding set_lock
    owned-IsExclusive = record {
      locked = λ j c q. elim (update-cases s.stage i (holding client_id) j (holding c) q) [
        | inl (_, same) ↦
            subst
              (λ k.
                find ℕ_discrete k (assign ℕ_discrete client_id true s.client_lck_idx) ≡ some true)
              (ground arith) (find-assign_self ℕ_discrete client_id true s.client_lck_idx)
        | inr (_, old) ↦
            find-assign_ne ℕ_discrete client_id c true s.client_lck_idx (none_holds j c old)
            ∙ h.locked j c old
      ];
      only = λ j k c q r. elim (update-cases s.stage i (holding client_id) j (holding c) q) [
        | inl (at_j, same) ↦ elim (update-cases s.stage i (holding client_id) k (holding c) r) [
          | inl (at_k, _) ↦ at_j ∙ sym at_k
          | inr (_, old) ↦ absurd (none_holds k c old (ground arith))
        ]
        | inr (_, old_j) ↦ elim (update-cases s.stage i (holding client_id) k (holding c) r) [
          | inl (_, same) ↦ absurd (none_holds j c old_j (ground arith))
          | inr (_, old_k) ↦ h.only j k c old_j old_k
        ]
      ];
      held = λ c q. elim (ℕ_discrete c client_id) [
        | yes p ↦ (i, update_self s.stage i (holding client_id) ∙ ap holding (sym p))
        | no n ↦
            let (j, old) =
              h.held c (sym (find-assign_ne ℕ_discrete client_id c true s.client_lck_idx n) ∙ q) in
            (
              j,
              update_ne s.stage i (holding client_id) j
                    (λ same. let at_i = subst (λ k. s.stage k ≡ holding c) same old in ground arith)
                  ∙ old,
            )
      ];
      known = λ j c q. elim (update-cases s.stage i (holding client_id) j (trying c) q) [
        | inl (_, same) ↦ absurd (ground arith)
        | inr (_, old) ↦ assign-known c client_id true s.client_lck_idx (h.known j c old)
      ];
    }

  module _ (e : s.stage i ≡ holding client_id) where
    abbrev released : Server
    released = record {
      client_lck_idx = set_lock false client_id s.client_lck_idx;
      stage = update s.stage i idle;
    }

    -- What another session holds is another client's.
    others : (j c : ℕ) → j ≢ i → s.stage j ≡ holding c → c ≢ client_id
    others j c other q same = other (h.only j i c q (e ∙ ap holding (sym same)))

    still_holds :
        (j c : ℕ) → update s.stage i idle j ≡ holding c → (j ≢ i) × (s.stage j ≡ holding c)
    still_holds j c q = elim (update-cases s.stage i idle j (holding c) q) [
      | inl (_, same) ↦ absurd (ground arith)
      | inr r ↦ r
    ]

    released-IsExclusive : IsExclusive released
    unfolding set_lock
    released-IsExclusive = record {
      locked = λ j c q.
          let (other, old) = still_holds j c q in
          find-assign_ne ℕ_discrete client_id c false s.client_lck_idx (others j c other old)
          ∙ h.locked j c old;
      only = λ j k c q r. h.only j k c ((still_holds j c q).1) ((still_holds k c r).1);
      held = λ c q. elim (ℕ_discrete c client_id) [
        | yes p ↦
            let self =
              subst
                (λ k.
                  find ℕ_discrete k (assign ℕ_discrete client_id false s.client_lck_idx)
                  ≡ some false)
                (sym p) (find-assign_self ℕ_discrete client_id false s.client_lck_idx) in
            absurd (ground arith)
        | no n ↦
            let (j, old) =
              h.held c (sym (find-assign_ne ℕ_discrete client_id c false s.client_lck_idx n) ∙ q) in
            (
              j,
              update_ne s.stage i idle j (λ same.
                    let at_i = subst (λ k. s.stage k ≡ holding c) same old in n (ground arith))
                  ∙ old,
            )
      ];
      known = λ j c q. elim (update-cases s.stage i idle j (trying c) q) [
        | inl (_, same) ↦ absurd (ground arith)
        | inr (_, old) ↦ assign-known c client_id false s.client_lck_idx (h.known j c old)
      ];
    }

Step-IsExclusive : {s t : Server} → Step s t → IsExclusive s → IsExclusive t
Step-IsExclusive {s} (log_in i client_id e) h =
    moved-IsExclusive s i (arrived client_id) s.client_lck_idx h (λ c f. ground arith)
      (λ c f. ground arith) (λ c b f. f) (λ c f. f) (λ c f. ground arith)
Step-IsExclusive {s} (look_up i client_id e) h =
    moved-IsExclusive s i (trying client_id) (find_lock client_id s.client_lck_idx) h
      (λ c f. ground arith) (λ c f. ground arith)
      (λ c b f. find-find_lock client_id c b s.client_lck_idx f)
      (λ c f. find_lock-find client_id c s.client_lck_idx f)
      (λ c f.
        subst (λ k. find ℕ_discrete k (find_lock client_id s.client_lck_idx) ≢ none) (ground arith)
          (find_lock-known client_id s.client_lck_idx))
Step-IsExclusive {s} (lock i client_id e free) h = owned-IsExclusive s i client_id h e free
Step-IsExclusive {s} (unlock i client_id e) h = released-IsExclusive s i client_id h e

Reach-IsExclusive : {s : Server} → Reach s → IsExclusive s
unfolding find
Reach-IsExclusive here = record {
  locked = λ i c e. ground arith;
  only = λ i j c e f. ground arith;
  held = λ c e. ground arith;
  known = λ i c e. ground arith;
}
Reach-IsExclusive (next r step) = Step-IsExclusive step (Reach-IsExclusive r)

-- In every state that the server can reach, two sessions that are between the lock and the unlock of one
-- client are the same session.
pub Reach-holding_one :
    {s : Server}
    → Reach s
    → (i j client_id : ℕ) → s.stage i ≡ holding client_id
    → s.stage j ≡ holding client_id
    → i ≡ j
Reach-holding_one r i j client_id = (Reach-IsExclusive r).only i j client_id

-- In every state that the server can reach, a session that waits for a client's lock either gets it with
-- the next step, or another session holds that lock, and its unlock sets the lock free.
pub Reach-trying_goes_on :
    {s : Server}
    → Reach s
    → (i client_id : ℕ) → s.stage i ≡ trying client_id
    → ((t : Server) × Step s t × (t.stage i ≡ holding client_id))
      ⊎ ((j : ℕ) × (t : Server) × (s.stage j ≡ holding client_id)
          × Step s t
          × (t.stage i ≡ trying client_id)
          × (find ℕ_discrete client_id t.client_lck_idx ≡ some false))
unfolding set_lock
Reach-trying_goes_on {s} r i client_id e =
    let h = Reach-IsExclusive r in
    elim (Option-cases (find ℕ_discrete client_id s.client_lck_idx)) [
      | inl absent ↦ absurd (h.known i client_id e absent)
      | inr (false, free) ↦ inl (
        owned s i client_id h e free,
        lock i client_id e free,
        update_self s.stage i (holding client_id),
      )
      | inr (true, taken) ↦
          let (j, holds) = h.held client_id taken in
          inr (
            j,
            released s j client_id h holds,
            holds,
            unlock j client_id holds,
            update_ne s.stage j idle i (λ same.
                  let at_j = subst (λ k. s.stage k ≡ trying client_id) same e in ground arith)
                ∙ e,
            find-assign_self ℕ_discrete client_id false s.client_lck_idx,
          )
    ]
