-- ===== src/Tests/Stores.antt =====
-- A key-value store and an LRU cache of one entry, which keep the laws that the models rely on.
use edrstore.Prelude.{
  ℕ, ◌+◌, ◌≤◌, ◌≡◌, ◌≢◌, refl, sym, ap, ◌∙◌, List, [], Option, none, some, true, false, Bytes,
  bytes_discrete, find, assign, erase, find-assign_self, find-assign_ne, find-erase_self,
  find-erase_ne, ite, if_pos, if_neg, arith,
}
use edrstore.Cache.{KvStore}
use edrstore.Storage.Lru.{LruCache}

abbrev pub list_store : KvStore (List (Bytes × Bytes))
list_store = record {
  get = λ s k. find bytes_discrete k s;
  put = λ s k v. assign bytes_discrete k v s;
  delete = λ s k. erase bytes_discrete k s;
  get-put_self = λ s k v. find-assign_self bytes_discrete k v s;
  get-put_ne = λ s k j v n. find-assign_ne bytes_discrete k j v s n;
  get-delete_self = λ s k. find-erase_self bytes_discrete k s;
  get-delete_ne = λ s k j n. find-erase_ne bytes_discrete k j s n;
}

-- The one entry.
abbrev pub Slot : Type 0
Slot = Option (Bytes × ℕ)

abbrev pub peek_slot : Slot → Bytes → Option ℕ
peek_slot none k = none
peek_slot (some (j, i)) k = ite (bytes_discrete j k) (some i) none

abbrev pub size_slot : Slot → ℕ
size_slot none = 0
size_slot (some _) = 1

abbrev pub victim_slot : Slot → Bytes
victim_slot none = []
victim_slot (some (j, _)) = j

abbrev pub value_slot : Slot → Option ℕ
value_slot none = none
value_slot (some (_, i)) = some i

pub peek_slot_self : (k : Bytes) (i : ℕ) → peek_slot (some (k, i)) k ≡ some i
peek_slot_self k i = if_pos (bytes_discrete k k) refl _ _

peek_slot_ne : (k j : Bytes) (i : ℕ) → j ≢ k → peek_slot (some (k, i)) j ≡ none
peek_slot_ne k j i n = if_neg (bytes_discrete k j) (λ e. n (sym e)) _ _

pub size_slot-le : (s : Slot) → size_slot s ≤ 1
size_slot-le none = omega arith
size_slot-le (some _) = omega arith

pub peek_room :
    (s : Slot) (k j : Bytes) (i : ℕ)
    → size_slot s + 1 ≤ 1
    → j ≢ k
    → peek_slot (some (k, i)) j ≡ peek_slot s j
peek_room none k j i l n = peek_slot_ne k j i n
peek_room (some _) k j i l n = absurd (omega arith)

pub size_room : (s : Slot) → size_slot s + 1 ≤ 1 → 1 ≡ size_slot s + 1
size_room none l = omega arith
size_room (some _) l = absurd (omega arith)

pub peek_full :
    (s : Slot) (k j : Bytes) (i : ℕ)
    → size_slot s ≡ 1
    → j ≢ k
    → j ≢ victim_slot s
    → peek_slot (some (k, i)) j ≡ peek_slot s j
peek_full none k j i e n m = absurd (omega arith)
peek_full (some (v, w)) k j i e n m = peek_slot_ne k j i n ∙ sym (peek_slot_ne v j w m)

pub peek_victim :
    (s : Slot) (k : Bytes) (i : ℕ)
    → peek_slot s k ≡ none
    → size_slot s ≡ 1
    → peek_slot (some (k, i)) (victim_slot s) ≡ none
peek_victim none k i e f = absurd (omega arith)
peek_victim (some (v, w)) k i e f = peek_slot_ne k v i (λ p.
    let held : peek_slot (some (v, w)) k ≡ some w =
      ap (peek_slot (some (v, w))) (sym p) ∙ peek_slot_self v w in
    let clash : none ≡ some w = sym e ∙ held in ground arith)

pub prune_slot :
    (s : Slot)
    → size_slot s ≡ 1
    → (i : ℕ) × (value_slot s ≡ some i) × (peek_slot s (victim_slot s) ≡ some i)
prune_slot none e = absurd (omega arith)
prune_slot (some (v, w)) e = (w, refl, peek_slot_self v w)

abbrev pub one_slot : LruCache 1 Slot
one_slot = record {
  IsLru = λ s. Unit;
  peek = peek_slot;
  victim = victim_slot;
  size = size_slot;
  contains = λ s k. elim (peek_slot s k) [ some i ↦ true | none ↦ false ];
  get = λ s k. (peek_slot s k, s);
  insert = λ s k i. some (k, i);
  prune_value = value_slot;
  contains_lem = λ s k. refl;
  get_lem = λ s k. refl;
  peek-get = λ s k j. refl;
  size-get = λ s k. refl;
  get-IsLru = λ s k h. tt;
  size-le = λ s h. size_slot-le s;
  insert-IsLru = λ s k i h n. tt;
  peek-insert_self = λ s k i h n. peek_slot_self k i;
  peek-insert_room = λ s k j i h n l m. peek_room s k j i l m;
  size-insert_room = λ s k i h n l. size_room s l;
  peek-insert_full = λ s k j i h n e m v. peek_full s k j i e m v;
  peek-insert_victim = λ s k i h n e. peek_victim s k i n e;
  size-insert_full = λ s k i h n e. sym e;
  prune_value_lem = λ s h e. prune_slot s e;
}
