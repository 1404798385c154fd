-- ===== src/Lock/Safety.antt =====
-- What the lock manager guarantees: exclusion, two-phase locking, exact grants.
use key_v_db.Common.{
  ℕ, ◌≡◌, ◌≢◌, ◌⊎◌, refl, sym, true, List, [], nat_eq, ap, Bool-cases, inl, inr, Eq-cases, beq_refl,
  subst, ◌∙◌,
}
use key_v_db.Common.Assoc.{contains, contains-insert}
use key_v_db.Common.Bytes.{Bytes, bytes_eq}
use key_v_db.Lock.{
  LockManager, LockState, LockMode, shared, exclusive, invalid_txn_id, can_grant, state_of,
  try_lock, release_all,
}
use key_v_db.Lock.Grant.{Holds, IsSound, Compatible, nobody}
use key_v_db.Lock.Invariant.{granted_state, state_of-try_lock, state_of-give_up}
use key_v_db.Lock.Steps.{
  IsValid, Step, request, time_out, release, Reach, Reach-IsValid, release_all_holders,
  try_lock_others,
}

-- The transaction has the mode or the stronger one.
abbrev pub AtLeast : LockState → ℕ → LockMode → Type 0
AtLeast ls t shared = Holds ls t shared ⊎ Holds ls t exclusive
AtLeast ls t exclusive = Holds ls t exclusive

-- A grant gives the mode that was asked for and no more; a transaction that had the stronger mode
-- keeps it.
abbrev pub Gives : LockState → LockState → ℕ → LockMode → Type 0
Gives ls ls' t shared =
    (Holds ls' t shared × (¬ Holds ls' t exclusive))
    ⊎ (Holds ls t exclusive × Holds ls' t exclusive)
Gives ls ls' t exclusive = Holds ls' t exclusive

granted-Gives :
    (ls : LockState) (t : ℕ) (mode : LockMode) → Gives ls (granted_state ls t mode) t mode
unfolding granted_state
granted-Gives ls t shared = elim (Eq-cases ls.exclusive_holder t) [
  | inl same ↦ rw same.1 (inr (same.0, same.0))
  | inr other ↦
      rw other.1 (inl (rw (contains-insert t t ls.shared_holders, beq_refl t) refl, other.0))
]
granted-Gives ls t exclusive = refl

writer_alone :
    (ls : LockState) (t u : ℕ)
    → IsSound ls
    → u ≢ invalid_txn_id
    → Holds ls t shared
    → ¬ Holds ls u exclusive
writer_alone ls t u s ru h g =
    let empty : ls.shared_holders ≡ [] = s.alone (λ e. ru (sym g ∙ e)) in
    cc (nobody t, subst (λ (xs : List ℕ). contains t xs ≡ true) empty h)

-- In every reachable state, two transactions that hold one key hold it in compatible modes: two
-- readers at most, never a writer beside anybody.
pub mutual_exclusion :
    {lm : LockManager}
    → Reach lm
    → (k : Bytes) (t u : ℕ) (mode held : LockMode) → t ≢ u
    → t ≢ invalid_txn_id
    → u ≢ invalid_txn_id
    → Holds (state_of lm k) t mode
    → Holds (state_of lm k) u held
    → Compatible held mode
mutual_exclusion {lm} r k t u shared shared ne rt ru h g = tt
mutual_exclusion {lm} r k t u shared exclusive ne rt ru h g =
    writer_alone (state_of lm k) t u ((Reach-IsValid r).sound k) ru h g
mutual_exclusion {lm} r k t u exclusive shared ne rt ru h g =
    writer_alone (state_of lm k) u t ((Reach-IsValid r).sound k) rt g h
mutual_exclusion {lm} r k t u exclusive exclusive ne rt ru h g = ne (cc (h, g))

granted_keeps :
    (ls : LockState) (t : ℕ) (mode held : LockMode)
    → AtLeast ls t held
    → AtLeast (granted_state ls t mode) t held
unfolding granted_state
granted_keeps ls t exclusive shared h = inr refl
granted_keeps ls t exclusive exclusive h = refl
granted_keeps ls t shared shared h = elim (granted-Gives ls t shared) [
  | inl s ↦ inl s.0
  | inr e ↦ inr e.1
]
granted_keeps ls t shared exclusive h = elim (Eq-cases ls.exclusive_holder t) [
  | inl same ↦ rw same.1 h
  | inr other ↦ absurd (other.0 h)
]

module _ {lm : LockManager} (v : IsValid lm) where
  released :
      (t u : ℕ) (j : Bytes) (held : LockMode)
      → t ≢ invalid_txn_id
      → u ≢ invalid_txn_id
      → t ≢ u
      → AtLeast (state_of lm j) u held
      → AtLeast (state_of (release_all lm t) j) u held
  released t u j shared rt ru ne (inl s) =
      inl ((release_all_holders v t u j shared rt ru).1 (λ e. ne (sym e), s))
  released t u j shared rt ru ne (inr e) =
      inr ((release_all_holders v t u j exclusive rt ru).1 (λ q. ne (sym q), e))
  released t u j exclusive rt ru ne e =
      (release_all_holders v t u j exclusive rt ru).1 (λ q. ne (sym q), e)

  own_kept :
      (t : ℕ) (k j : Bytes) (mode held : LockMode)
      → AtLeast (state_of lm j) t held
      → AtLeast (state_of (try_lock lm t k mode).0 j) t held
  own_kept t k j mode held h = rw (state_of-try_lock lm t k j mode) (elim (Eq-cases k j) [
    | inr other ↦ rw other.1 h
    | inl same ↦
        rw (same.1, same.0)
          (elim (Bool-cases (can_grant (state_of lm j) t mode)) [
            | inl yes' ↦ rw yes' (granted_keeps (state_of lm j) t mode held h)
            | inr no' ↦ rw no' h
          ])
  ])

  others_kept :
      (t u : ℕ) (k j : Bytes) (mode held : LockMode)
      → t ≢ invalid_txn_id
      → u ≢ invalid_txn_id
      → t ≢ u
      → AtLeast (state_of lm j) u held
      → AtLeast (state_of (try_lock lm t k mode).0 j) u held
  others_kept t u k j mode shared rt ru ne (inl s) =
      inl ((try_lock_others v t u k j mode shared rt ru ne).1 s)
  others_kept t u k j mode shared rt ru ne (inr e) =
      inr ((try_lock_others v t u k j mode exclusive rt ru ne).1 e)
  others_kept t u k j mode exclusive rt ru ne e =
      (try_lock_others v t u k j mode exclusive rt ru ne).1 e

  requested :
      (t u : ℕ) (k j : Bytes) (mode held : LockMode)
      → t ≢ invalid_txn_id
      → u ≢ invalid_txn_id
      → AtLeast (state_of lm j) u held
      → AtLeast (state_of (try_lock lm t k mode).0 j) u held
  requested t u k j mode held rt ru h = elim (Eq-cases t u) [
    | inl same ↦
        subst
          (λ w.
            AtLeast (state_of lm j) w held → AtLeast (state_of (try_lock lm t k mode).0 j) w held)
          same.0 (own_kept t k j mode held) h
    | inr other ↦ others_kept t u k j mode held rt ru other.0 h
  ]

-- Two-phase locking: whatever step is made, a transaction keeps each lock until its own release, in
-- the mode in which it has it or, after an upgrade, in the exclusive one.
pub two_phase :
    {lm lm' : LockManager}
    → IsValid lm
    → Step lm lm'
    → (u : ℕ) (j : Bytes) (held : LockMode) → u ≢ invalid_txn_id
    → AtLeast (state_of lm j) u held
    → AtLeast (state_of lm' j) u held ⊎ (lm' ≡ release_all lm u)
two_phase v (time_out lm k) u j held ru h = inl (rw (state_of-give_up lm k j) h)
two_phase v (release lm t real) u j held ru h = elim (Eq-cases t u) [
  | inl same ↦ inr (ap (release_all lm) same.0)
  | inr other ↦ inl (released v t u j held real ru other.0 h)
]
two_phase v (request lm t k mode real) u j held ru h = inl (requested v t u k j mode held real ru h)
