-- ===== src/Lock/Release.antt =====
-- `release_all`, entry by entry.
use key_v_db.Common.{
  ℕ, ◌≡◌, refl, Option, none, some, List, [], ◌∷◌, arith, ◌==◌, nat_eq, Bool-cases, Option-cases,
  inl, inr, Eq-cases, nat_beq_iff, if◌then◌else◌,
}
use key_v_db.Common.Assoc.{find, contains, erase, find-put, find-remove}
use key_v_db.Common.Bytes.{Bytes, bytes_eq}
use key_v_db.Lock.{
  LockManager, LockState, or_fresh, state_of, keys_of, fresh_state, is_idle, drop_holder,
  release_found, release_key, release_keys, release_all,
}
use key_v_db.Lock.Invariant.{idle-fresh}

abbrev Table : Type 0
Table = List (Bytes × LockState)

erase-erase : (t : ℕ) (xs : List ℕ) → erase t (erase t xs) ≡ erase t xs
unfolding erase
erase-erase t [] = refl
erase-erase t (x ∷ xs) = ground (arith, erase-erase t xs, nat_beq_iff x t)

drop_twice : (t : ℕ) (ls : LockState) → drop_holder t (drop_holder t ls) ≡ drop_holder t ls
drop_twice t ls = ground (arith, erase-erase t ls.shared_holders)

drop-fresh : (t : ℕ) → drop_holder t fresh_state ≡ fresh_state
unfolding erase
drop-fresh t = ground arith

module _ (t : ℕ) where
  found-eq :
      (k j : Bytes) (o : Option LockState) (table : Table)
      → find k table ≡ o
      → or_fresh (find j (release_found t k o table))
        ≡ (if k == j then drop_holder t (or_fresh o) else or_fresh (find j table))
  unfolding release_found
  found-eq k j none table e = elim (Eq-cases k j) [
    | inr other ↦ rw other.1 refl
    | inl same ↦
        let missing : find j table ≡ none = cc (same.0) in rw (same.1, missing, drop-fresh t) refl
  ]
  found-eq k j (some ls) table e = elim (Bool-cases (is_idle (drop_holder t ls))) [
    | inl idle ↦ rw (idle, find-remove k j table, idle-fresh (drop_holder t ls) idle) (ground arith)
    | inr busy ↦ rw (busy, find-put k j (drop_holder t ls) table) (ground arith)
  ]

  key-eq :
      (k j : Bytes) (table : Table)
      → or_fresh (find j (release_key t table k))
        ≡ (if k == j then drop_holder t (or_fresh (find j table)) else or_fresh (find j table))
  unfolding release_key
  key-eq k j table = elim (Eq-cases k j) [
    | inl same ↦ rw (found-eq k j (find k table) table refl, same.1, same.0) refl
    | inr other ↦ rw (found-eq k j (find k table) table refl, other.1) refl
  ]

  keys-eq :
      (keys : List Bytes) (j : Bytes) (table : Table)
      → or_fresh (find j (release_keys t keys table)) ≡ (
          if contains j keys
          then drop_holder t (or_fresh (find j table))
          else or_fresh (find j table))
  unfolding release_keys contains
  keys-eq [] j table = refl
  keys-eq (k ∷ keys) j table = elim (Bool-cases (k == j)) [
    | inl same ↦
        rw (keys-eq keys j (release_key t table k), key-eq k j table, same)
          (ground (arith, drop_twice t (or_fresh (find j table))))
    | inr other ↦ rw (keys-eq keys j (release_key t table k), key-eq k j table, other) refl
  ]

  -- Only the entries on the transaction's list lose it as a holder; no other entry changes.
  pub state_of-release_all :
      (lm : LockManager) (j : Bytes)
      → state_of (release_all lm t) j
        ≡ (if contains j (keys_of lm t) then drop_holder t (state_of lm j) else state_of lm j)
  unfolding state_of release_all keys_of
  state_of-release_all lm j = elim (Option-cases (find t lm.txn_locks)) [
    | inl nothing ↦ rw (nothing, release_all, keys_of, state_of) (unfold contains in refl)
    | inr (keys, e) ↦ rw (e, release_all, keys_of, state_of) (keys-eq keys j lm.lock_table)
  ]

  pub keys_of-release_all :
      (lm : LockManager) (u : ℕ)
      → keys_of (release_all lm t) u ≡ (if t == u then [] else keys_of lm u)
  unfolding release_all keys_of
  keys_of-release_all lm u = elim (Option-cases (find t lm.txn_locks)) [
    | inl nothing ↦ rw (nothing, release_all, keys_of) (ground (arith, nat_beq_iff t u))
    | inr (keys, e) ↦ rw (e, release_all, keys_of, find-remove t u lm.txn_locks) (ground arith)
  ]
