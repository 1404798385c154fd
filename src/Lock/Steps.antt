-- ===== src/Lock/Steps.antt =====
-- Interleavings of requests, timeouts and releases, and what holds in every state they reach.
use key_v_db.Common.{
  ℕ, ◌≡◌, ◌≢◌, ◌↔◌, ◌⊎◌, refl, sym, true, false, arith, ◌==◌, nat_eq, Bool-cases, inl, inr,
  Eq-cases, nat_beq_iff, beq_refl, subst, beq_ne,
}
use key_v_db.Common.Assoc.{find, contains}
use key_v_db.Common.Bytes.{Bytes, bytes_eq}
use key_v_db.Lock.{
  LockManager, LockState, LockMode, shared, exclusive, invalid_txn_id, can_grant, state_of, keys_of,
  try_lock, give_up, release_all, drop_holder, init, fresh_state,
}
use key_v_db.Lock.Grant.{Holds, IsSound, can_grant_iff}
use key_v_db.Lock.Invariant.{
  granted_state, takes, state_of-try_lock, state_of-give_up, keys_of-try_lock, contains-append_one,
}
use key_v_db.Lock.Release.{state_of-release_all, keys_of-release_all}
use key_v_db.Lock.Holders.{granted-IsSound, drop-IsSound, drop-Holds, drop-gone, grant-Holds}

-- Every entry is sound, and every lock that a transaction holds is on its list in `txn_locks_`.
pub record IsValid (lm : LockManager) : Type 0 where
  pub sound : (k : Bytes) → IsSound (state_of lm k)
  pub recorded :
      (k : Bytes) (t : ℕ) (mode : LockMode)
      → t ≢ invalid_txn_id
      → Holds (state_of lm k) t mode
      → contains k (keys_of lm t) ≡ true

pub data Step : LockManager → LockManager → Type 0 where
  request :
      (lm : LockManager) (t : ℕ) (k : Bytes) (mode : LockMode)
      → t ≢ invalid_txn_id
      → Step lm (try_lock lm t k mode).0
  time_out : (lm : LockManager) (k : Bytes) → Step lm (give_up lm k)
  release : (lm : LockManager) (t : ℕ) → t ≢ invalid_txn_id → Step lm (release_all lm t)

pub data Reach : LockManager → Type 0 where
  start : Reach init
  next : {lm lm' : LockManager} → Reach lm → Step lm lm' → Reach lm'

init_free : (t : ℕ) (mode : LockMode) → t ≢ invalid_txn_id → ¬ Holds fresh_state t mode
unfolding contains
init_free t shared real h = cc
init_free t exclusive real h = real (sym h)

init-IsValid : IsValid init
unfolding state_of find contains
init-IsValid = record {
  sound = λ k. record { distinct = tt; valid = refl; alone = λ h. absurd (h refl) };
  recorded = λ k t mode real h. absurd (init_free t mode real h);
}

module _ {lm : LockManager} (v : IsValid lm) where
  try_lock-IsSound :
      (t : ℕ) (k : Bytes) (mode : LockMode)
      → t ≢ invalid_txn_id
      → (j : Bytes) → IsSound (state_of (try_lock lm t k mode).0 j)
  try_lock-IsSound t k mode real j =
      rw (state_of-try_lock lm t k j mode) (elim (Bool-cases (k == j)) [
        | inr other ↦ rw other (v.sound j)
        | inl same ↦ rw same (elim (Bool-cases (can_grant (state_of lm k) t mode)) [
          | inl yes' ↦ rw yes' (granted-IsSound (state_of lm k) t mode real (v.sound k) yes')
          | inr no' ↦ rw no' (v.sound k)
        ])
      ])

  release_all-IsSound : (t : ℕ) (j : Bytes) → IsSound (state_of (release_all lm t) j)
  release_all-IsSound t j =
      rw (state_of-release_all t lm j) (elim (Bool-cases (contains j (keys_of lm t))) [
        | inl yes' ↦ rw yes' (drop-IsSound (state_of lm j) t (v.sound j))
        | inr no' ↦ rw no' (v.sound j)
      ])

  -- `release_all` takes every lock from its transaction, and none from any other.
  pub release_all_holders :
      (t u : ℕ) (j : Bytes) (mode : LockMode)
      → t ≢ invalid_txn_id
      → u ≢ invalid_txn_id
      → Holds (state_of (release_all lm t) j) u mode ↔ ((u ≢ t) × Holds (state_of lm j) u mode)
  release_all_holders t u j mode rt ru =
      rw (state_of-release_all t lm j) (elim (Bool-cases (contains j (keys_of lm t))) [
        | inl listed ↦ rw listed (elim (Eq-cases t u) [
          | inl same ↦ (
            λ h. absurd (
                drop-gone (state_of lm j) t mode rt
                  (subst (λ w. Holds (drop_holder t (state_of lm j)) w mode) (sym same.0) h)),
            λ h. absurd (h.0 (sym same.0)),
          )
          | inr other ↦
              let both = drop-Holds (state_of lm j) t u mode other.0 rt ru in
              (λ h. (λ e. other.0 (sym e), both.0 h), λ h. both.1 h.1)
        ])
        | inr absent ↦ rw absent (
          λ h. (λ e. unlisted (subst (λ w. Holds (state_of lm j) w mode) e h) absent, h),
          λ h. h.1,
        )
      ])
    where
      unlisted : Holds (state_of lm j) t mode → contains j (keys_of lm t) ≡ false → ⊥
      unlisted h absent = cc (v.recorded j t mode rt h)

  -- In a valid table, a request of one transaction changes no other transaction's locks, granted or
  -- not.
  pub try_lock_others :
      (t u : ℕ) (k j : Bytes) (mode held : LockMode)
      → t ≢ invalid_txn_id
      → u ≢ invalid_txn_id
      → t ≢ u
      → Holds (state_of (try_lock lm t k mode).0 j) u held ↔ Holds (state_of lm j) u held
  try_lock_others t u k j mode held rt ru ne =
      rw (state_of-try_lock lm t k j mode) (elim (Eq-cases k j) [
        | inr other ↦ rw other.1 (λ h. h, λ h. h)
        | inl same ↦
            rw (same.1, ← same.0)
              (elim (Bool-cases (can_grant (state_of lm k) t mode)) [
                | inl yes' ↦ rw yes' (
                    grant-Holds (state_of lm k) t u mode held ne ru
                      ((can_grant_iff (state_of lm k) t (v.sound k) rt mode).0 yes'))
                | inr no' ↦ rw no' (λ h. h, λ h. h)
              ])
      ])

-- A lock that the granted transaction now has is new, or it had one before.
granted_back :
    (ls : LockState) (t : ℕ) (mode held : LockMode)
    → Holds (granted_state ls t mode) t held
    → (takes ls t mode ≡ true) ⊎ Holds ls t held
unfolding granted_state takes
granted_back ls t shared held h = elim (Bool-cases (ls.exclusive_holder == t)) [
  | inl old ↦ inr (rw (old) at h)
  | inr new ↦ inl (rw new refl)
]
granted_back ls t exclusive held h = inl refl

module _ {lm : LockManager} (v : IsValid lm) (t : ℕ) (real : t ≢ invalid_txn_id) where
  keys_kept :
      (k j : Bytes) (u : ℕ) (mode : LockMode)
      → contains j (keys_of lm u) ≡ true
      → contains j (keys_of (try_lock lm t k mode).0 u) ≡ true
  keys_kept k j u mode h =
      rw (keys_of-try_lock lm t u k mode)
        (ground (arith, contains-append_one k j (keys_of lm t), nat_beq_iff t u))

  new_key :
      (k j : Bytes) (mode : LockMode)
      → (k == j) ≡ true
      → can_grant (state_of lm k) t mode ≡ true
      → takes (state_of lm k) t mode ≡ true
      → contains j (keys_of (try_lock lm t k mode).0 t) ≡ true
  new_key k j mode same granted new =
      rw
        (
          keys_of-try_lock lm t t k mode,
          granted,
          new,
          beq_refl t,
          contains-append_one k j (keys_of lm t),
        )
        (ground arith)

  own_recorded :
      (k j : Bytes) (mode held : LockMode)
      → Holds (state_of (try_lock lm t k mode).0 j) t held
      → contains j (keys_of (try_lock lm t k mode).0 t) ≡ true
  own_recorded k j mode held h = elim (Eq-cases k j) [
    | inr other ↦ old (rw (state_of-try_lock lm t k j mode, other.1) at h)
    | inl same ↦ elim (Bool-cases (can_grant (state_of lm k) t mode)) [
      | inr no' ↦ old (
          subst (λ i. Holds (state_of lm i) t held) same.0
            (rw (state_of-try_lock lm t k j mode, same.1, no') at h))
      | inl yes' ↦
          elim (granted_back (state_of lm k) t mode held
            (rw (state_of-try_lock lm t k j mode, same.1, yes') at h)) [
              | inl new ↦ new_key k j mode same.1 yes' new
              | inr before ↦ old (subst (λ i. Holds (state_of lm i) t held) same.0 before)
            ]
    ]
  ]
    where
      old : Holds (state_of lm j) t held → contains j (keys_of (try_lock lm t k mode).0 t) ≡ true
      old b = keys_kept k j t mode (v.recorded j t held real b)

  try_lock-recorded :
      (k j : Bytes) (u : ℕ) (mode held : LockMode)
      → u ≢ invalid_txn_id
      → Holds (state_of (try_lock lm t k mode).0 j) u held
      → contains j (keys_of (try_lock lm t k mode).0 u) ≡ true
  try_lock-recorded k j u mode held ru h = elim (Eq-cases t u) [
    | inr other ↦
        keys_kept k j u mode
          (v.recorded j u held ru ((try_lock_others v t u k j mode held real ru other.0).0 h))
    | inl same ↦
        subst
          (λ w.
            Holds (state_of (try_lock lm t k mode).0 j) w held
            → contains j (keys_of (try_lock lm t k mode).0 w) ≡ true)
          same.0 (own_recorded k j mode held) h
  ]

  release_all-recorded :
      (j : Bytes) (u : ℕ) (held : LockMode)
      → u ≢ invalid_txn_id
      → Holds (state_of (release_all lm t) j) u held
      → contains j (keys_of (release_all lm t) u) ≡ true
  release_all-recorded j u held ru h =
      let before = (release_all_holders v t u j held real ru).0 h in
      rw (keys_of-release_all t lm u, beq_ne t u (λ e. before.0 (sym e)))
        (v.recorded j u held ru before.1)

-- Requests, timeouts and releases keep the lock table valid.
pub Step-IsValid : {lm lm' : LockManager} → Step lm lm' → IsValid lm → IsValid lm'
unfolding give_up keys_of
Step-IsValid (request lm t k mode real) v = record {
  sound = try_lock-IsSound v t k mode real;
  recorded = λ j u held ru h. try_lock-recorded v t real k j u mode held ru h;
}
Step-IsValid (time_out lm k) v = record {
  sound = λ j. rw (state_of-give_up lm k j) (v.sound j);
  recorded = λ j u held ru h. v.recorded j u held ru (rw (state_of-give_up lm k j) at h);
}
Step-IsValid (release lm t real) v = record {
  sound = release_all-IsSound v t;
  recorded = λ j u held ru h. release_all-recorded v t real j u held ru h;
}

-- In every reachable state the entries of the table are sound, and each lock that a transaction holds
-- is on its list.
pub Reach-IsValid : {lm : LockManager} → Reach lm → IsValid lm
Reach-IsValid start = init-IsValid
Reach-IsValid (next r st) = Step-IsValid st (Reach-IsValid r)
