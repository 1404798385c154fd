-- ===== src/Lock/Holders.antt =====
-- Who holds a key before and after a grant and a release: the table's entries one at a time.
use key_v_db.Common.{
  ℕ, ◌≡◌, ◌≢◌, ◌↔◌, refl, sym, true, false, List, [], ◌∷◌, arith, ◌==◌, nat_eq, Bool-cases, inl,
  inr, Eq-cases, nat_beq_iff, if◌then◌else◌, ◌&&◌, is_empty, length,
}
use key_v_db.Common.Assoc.{
  contains, insert, erase, contains-insert, contains-erase, insert-Distinct, erase-Distinct,
}
use key_v_db.Common.Bytes.{bytes_eq}
use key_v_db.Lock.{LockState, LockMode, shared, exclusive, invalid_txn_id, can_grant, drop_holder}
use key_v_db.Lock.Grant.{Holds, IsSound, IsFree}
use key_v_db.Lock.Invariant.{granted_state}

pub erase_nil : (t : ℕ) → erase t [] ≡ []
unfolding erase
erase_nil t = refl

insert_nobody :
    (t : ℕ) (xs : List ℕ)
    → t ≢ invalid_txn_id
    → contains invalid_txn_id xs ≡ false
    → contains invalid_txn_id (insert t xs) ≡ false
insert_nobody t xs real h =
    rw (contains-insert t invalid_txn_id xs) (ground (arith, nat_beq_iff t invalid_txn_id))

erase_nobody : (t u : ℕ) (xs : List ℕ) → contains u xs ≡ false → contains u (erase t xs) ≡ false
erase_nobody t u xs h = rw (contains-erase t u xs) (ground arith)

erase_sole :
    (t : ℕ) (xs : List ℕ)
    → (if is_empty xs then true else length xs == 1 && contains t xs) ≡ true
    → erase t xs ≡ []
unfolding contains erase
erase_sole t [] h = refl
erase_sole t (x ∷ []) h = ground arith
erase_sole t (x ∷ y ∷ xs) h = absurd (ground arith)

erase_granted :
    (ls : LockState) (t : ℕ)
    → IsSound ls
    → can_grant ls t exclusive ≡ true
    → erase t ls.shared_holders ≡ []
unfolding can_grant
erase_granted ls t s g = elim (Eq-cases ls.exclusive_holder invalid_txn_id) [
  | inl free ↦ erase_sole t ls.shared_holders (ground (arith, free))
  | inr held ↦ rw (s.alone held.0) (erase_nil t)
]

-- What a grant leaves is a sound entry.
pub granted-IsSound :
    (ls : LockState) (t : ℕ) (mode : LockMode)
    → t ≢ invalid_txn_id
    → IsSound ls
    → can_grant ls t mode ≡ true
    → IsSound (granted_state ls t mode)
unfolding granted_state
granted-IsSound ls t shared real s g = elim (Bool-cases (ls.exclusive_holder == t)) [
  | inl held ↦ rw held s
  | inr free ↦ rw free (record {
    distinct = insert-Distinct t ls.shared_holders s.distinct;
    valid = insert_nobody t ls.shared_holders real s.valid;
    alone = λ h. unfold can_grant in ground arith;
  })
]
granted-IsSound ls t exclusive real s g = record {
  distinct = erase-Distinct t ls.shared_holders s.distinct;
  valid = erase_nobody t invalid_txn_id ls.shared_holders s.valid;
  alone = λ _. erase_granted ls t s g;
}

pub drop-IsSound : (ls : LockState) (t : ℕ) → IsSound ls → IsSound (drop_holder t ls)
drop-IsSound ls t s = record {
  distinct = erase-Distinct t ls.shared_holders s.distinct;
  valid = erase_nobody t invalid_txn_id ls.shared_holders s.valid;
  alone = λ h. ground (arith, erase_nil t, s.alone);
}

pub drop-Holds :
    (ls : LockState) (t u : ℕ) (mode : LockMode)
    → t ≢ u
    → t ≢ invalid_txn_id
    → u ≢ invalid_txn_id
    → Holds (drop_holder t ls) u mode ↔ Holds ls u mode
drop-Holds ls t u shared ne rt ru =
    ground (arith, contains-erase t u ls.shared_holders, nat_beq_iff t u)
drop-Holds ls t u exclusive ne rt ru = ground arith

pub drop-gone :
    (ls : LockState) (t : ℕ) (mode : LockMode)
    → t ≢ invalid_txn_id
    → ¬ Holds (drop_holder t ls) t mode
drop-gone ls t shared rt h = ground (arith, contains-erase t t ls.shared_holders)
drop-gone ls t exclusive rt h = ground arith

pub grant-Holds :
    (ls : LockState) (t u : ℕ) (mode held : LockMode)
    → t ≢ u
    → u ≢ invalid_txn_id
    → IsFree ls t mode
    → Holds (granted_state ls t mode) u held ↔ Holds ls u held
unfolding granted_state
grant-Holds ls t u shared shared ne ru f = ground (arith, contains-insert t u ls.shared_holders)
grant-Holds ls t u shared exclusive ne ru f = ground arith
grant-Holds ls t u exclusive shared ne ru f = ground (arith, contains-erase t u ls.shared_holders)
grant-Holds ls t u exclusive exclusive ne ru f =
    (λ e. absurd (ne e), λ e. absurd (f u (λ q. ne (sym q)) ru exclusive e))
