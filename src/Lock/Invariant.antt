-- ===== src/Lock/Invariant.antt =====
-- The lock table after each operation, entry by entry, and the invariant that they all keep.
use key_v_db.Common.{
  ℕ, ◌≡◌, refl, Bool, true, Option, none, some, List, [], ◌∷◌, ◌++◌, arith, ◌==◌, nat_eq, Eq, ◌||◌,
  ◌&&◌, not, Bool-cases, inl, inr, Eq-cases, if◌then◌else◌,
}
use key_v_db.Common.Assoc.{find, put, contains, insert, erase, find-put, find-remove}
use key_v_db.Common.Bytes.{Bytes, bytes_eq}
use key_v_db.Lock.{
  LockManager, LockState, LockMode, shared, exclusive, can_grant, or_fresh, or_empty, state_of,
  keys_of, record_grant, try_lock, prune, give_up, fresh_state, is_idle,
}

-- The entry that a granted request leaves.
unfoldable pub granted_state : LockState → ℕ → LockMode → LockState
granted_state ls t shared =
    if ls.exclusive_holder == t
    then ls
    else record ls { shared_holders = insert t ls.shared_holders }
granted_state ls t exclusive = record {
  shared_holders = erase t ls.shared_holders;
  exclusive_holder = t;
}

or_fresh-put :
    (k j : Bytes) (ls : LockState) (table : List (Bytes × LockState))
    → or_fresh (find j (put k ls table)) ≡ (if k == j then ls else or_fresh (find j table))
or_fresh-put k j ls table = rw (find-put k j ls table) (ground arith)

pub state_of-record_grant :
    (lm : LockManager) (t : ℕ) (k j : Bytes) (mode : LockMode)
    → state_of (record_grant lm t k mode) j
      ≡ (if k == j then granted_state (state_of lm k) t mode else state_of lm j)
unfolding state_of record_grant granted_state
state_of-record_grant lm t k j shared =
    elim (Bool-cases ((or_fresh (find k lm.lock_table)).exclusive_holder == t)) [
      | inl held ↦ rw held (or_fresh-put k j _ lm.lock_table)
      | inr free ↦ rw free (or_fresh-put k j _ lm.lock_table)
    ]
state_of-record_grant lm t k j exclusive = or_fresh-put k j _ lm.lock_table

pub state_of-try_lock :
    (lm : LockManager) (t : ℕ) (k j : Bytes) (mode : LockMode)
    → state_of (try_lock lm t k mode).0 j ≡ (
        if k == j
        then (if can_grant (state_of lm k) t mode
            then granted_state (state_of lm k) t mode
            else state_of lm k)
        else state_of lm j)
unfolding try_lock
state_of-try_lock lm t k j mode = elim (Bool-cases (can_grant (state_of lm k) t mode)) [
  | inl yes' ↦ rw yes' (state_of-record_grant lm t k j mode)
  | inr no' ↦ rw no' (unfold state_of in or_fresh-put k j _ lm.lock_table)
]

pub idle-fresh : (ls : LockState) → is_idle ls ≡ true → ls ≡ fresh_state
idle-fresh ls h = ground arith

state_of-prune :
    (k j : Bytes) (o : Option LockState) (table : List (Bytes × LockState))
    → find k table ≡ o
    → or_fresh (find j (prune k o table)) ≡ or_fresh (find j table)
unfolding prune
state_of-prune k j none table e = refl
state_of-prune k j (some ls) table e = elim (Bool-cases (is_idle ls)) [
  | inr busy ↦ rw busy refl
  | inl idle ↦
      rw (idle, find-remove k j table)
        (elim (Eq-cases k j) [
          | inr other ↦ rw other.1 refl
          | inl same ↦
              let found : find j table ≡ some fresh_state = cc (e, idle-fresh ls idle, same.0) in
              rw (same.1, found) refl
        ])
]

-- A timeout changes no holder.
pub state_of-give_up : (lm : LockManager) (k j : Bytes) → state_of (give_up lm k) j ≡ state_of lm j
unfolding state_of give_up
state_of-give_up lm k j = state_of-prune k j (find k lm.lock_table) lm.lock_table refl

pub contains-append_one {ℓ} :
    {A : Type ℓ} ⦃e : Eq A⦄ (a b : A) (xs : List A)
    → contains b (xs ++ a ∷ []) ≡ (contains b xs || a == b)
unfolding contains
contains-append_one ⦃e⦄ a b [] = ground arith
contains-append_one ⦃e⦄ a b (x ∷ xs) = ground (arith, contains-append_one ⦃e = e⦄ a b xs)

or_empty-put :
    (t u : ℕ) (keys : List Bytes) (locks : List (ℕ × List Bytes))
    → or_empty (find u (put t keys locks)) ≡ (if t == u then keys else or_empty (find u locks))
or_empty-put t u keys locks = rw (find-put t u keys locks) (ground arith)

-- The request was granted and needed a new lock.
unfoldable pub takes : LockState → ℕ → LockMode → Bool
takes ls t shared = not (ls.exclusive_holder == t)
takes ls t exclusive = true

pub keys_of-record_grant :
    (lm : LockManager) (t u : ℕ) (k : Bytes) (mode : LockMode)
    → keys_of (record_grant lm t k mode) u
      ≡ (if takes (state_of lm k) t mode && t == u then keys_of lm t ++ k ∷ [] else keys_of lm u)
unfolding keys_of record_grant takes
keys_of-record_grant lm t u k shared = elim (Bool-cases ((state_of lm k).exclusive_holder == t)) [
  | inl held ↦ rw held refl
  | inr free ↦ rw free (or_empty-put t u _ lm.txn_locks)
]
keys_of-record_grant lm t u k exclusive = or_empty-put t u _ lm.txn_locks

pub keys_of-try_lock :
    (lm : LockManager) (t u : ℕ) (k : Bytes) (mode : LockMode)
    → keys_of (try_lock lm t k mode).0 u ≡ (
        if can_grant (state_of lm k) t mode && (takes (state_of lm k) t mode && t == u)
        then keys_of lm t ++ k ∷ []
        else keys_of lm u)
unfolding try_lock
keys_of-try_lock lm t u k mode = elim (Bool-cases (can_grant (state_of lm k) t mode)) [
  | inl yes' ↦ rw yes' (keys_of-record_grant lm t u k mode)
  | inr no' ↦ rw no' (unfold keys_of in refl)
]
