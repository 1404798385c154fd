-- ===== src/Lock/Grant.antt =====
-- `can_grant` against the compatibility matrix at the head of lock_manager.h.
use key_v_db.Common.{
  ℕ, ◌≡◌, ◌≢◌, ◌↔◌, refl, true, false, List, [], ◌∷◌, arith, length, ◌==◌, nat_eq, Bool-cases, inl,
  inr, Eq-cases, nat_beq_iff, is_empty, if◌then◌else◌, ◌&&◌, ap,
}
use key_v_db.Common.Assoc.{contains, Distinct}
use key_v_db.Lock.{LockState, LockMode, shared, exclusive, invalid_txn_id, can_grant}

-- The transaction has the key in this mode.
abbrev pub Holds : LockState → ℕ → LockMode → Type 0
Holds ls u shared = contains u ls.shared_holders ≡ true
Holds ls u exclusive = ls.exclusive_holder ≡ u

-- The matrix: only shared goes with shared.
abbrev pub Compatible : LockMode → LockMode → Type 0
Compatible shared shared = Unit {0}
Compatible _ _ = ⊥

-- What every entry of the table satisfies: a set of real transactions, which is empty beside a
-- writer.
pub record IsSound (ls : LockState) : Type 0 where
  pub distinct : Distinct ls.shared_holders
  pub valid : contains invalid_txn_id ls.shared_holders ≡ false
  pub alone : ls.exclusive_holder ≢ invalid_txn_id → ls.shared_holders ≡ []

-- No other transaction holds the key in a mode that the request conflicts with.
abbrev pub IsFree : LockState → ℕ → LockMode → Type 0
IsFree ls t mode =
    (u : ℕ)
    → u ≢ t
    → u ≢ invalid_txn_id
    → (held : LockMode) → Holds ls u held
    → Compatible held mode

only_member :
    (t u : ℕ) (xs : List ℕ) → length xs ≡ 1 → contains t xs ≡ true → contains u xs ≡ true → u ≡ t
unfolding contains
only_member t u [] n p q = cc
only_member t u (x ∷ []) n p q = ground (arith, nat_beq_iff x t, nat_beq_iff x u)
only_member t u (x ∷ y ∷ xs) n p q = absurd (omega arith)

-- The last two tests of `can_grant` pass only if nobody else shares the key.
shared_test :
    (t u : ℕ) (xs : List ℕ)
    → (if is_empty xs then true else length xs == 1 && contains t xs) ≡ true
    → contains u xs ≡ true
    → u ≡ t
shared_test t u [] g q = unfold contains in cc
shared_test t u (x ∷ xs) g q = only_member t u (x ∷ xs) (ground arith) (ground arith) q

shared_test_sole :
    (t : ℕ) (xs : List ℕ)
    → (xs ≢ [] → (length xs ≡ 1) × (contains t xs ≡ true))
    → (if is_empty xs then true else length xs == 1 && contains t xs) ≡ true
shared_test_sole t [] h = refl
shared_test_sole t (x ∷ xs) h = ground (arith, h (λ e. cc))

nobody_else :
    (t : ℕ) (xs : List ℕ)
    → ((u : ℕ) → u ≢ t → contains u xs ≡ true → ⊥)
    → (u : ℕ) → u ≢ t
    → contains u xs ≡ false
nobody_else t xs h u ne = elim (Bool-cases (contains u xs)) [
  | inl yes' ↦ absurd (h u ne yes')
  | inr no' ↦ no'
]

pub nobody : (u : ℕ) → contains u [] ≡ false
unfolding contains
nobody u = refl

-- A set whose only member can be `t` is empty or the singleton that `can_grant` tests for.
sole_set :
    (t : ℕ) (xs : List ℕ)
    → Distinct xs
    → ((u : ℕ) → u ≢ t → contains u xs ≡ false)
    → xs ≢ []
    → (length xs ≡ 1) × (contains t xs ≡ true)
unfolding contains
sole_set t [] d h ne = absurd (ne refl)
sole_set t (x ∷ []) d h ne = elim (Eq-cases x t) [
  | inl same ↦ (refl, ground arith)
  | inr other ↦ absurd (ground (arith, h x other.0, nat_beq_iff x x))
]
sole_set t (x ∷ y ∷ xs) d h ne = elim (Eq-cases x t) [
  | inl same ↦ absurd (ground (arith, h y, nat_beq_iff y y, nat_beq_iff y x, same.0))
  | inr other ↦ absurd (ground (arith, h x other.0, nat_beq_iff x x))
]

module _ (ls : LockState) (t : ℕ) (sound : IsSound ls) (real : t ≢ invalid_txn_id) where
  valid_member : (u : ℕ) → contains u ls.shared_holders ≡ true → u ≢ invalid_txn_id
  valid_member u h e =
      let clash = sound.valid in cc (ap (λ (v : ℕ). contains v ls.shared_holders) e)

  granted-IsFree : (mode : LockMode) → can_grant ls t mode ≡ true → IsFree ls t mode
  unfolding can_grant
  granted-IsFree shared g u ne v shared h = tt
  granted-IsFree shared g u ne v exclusive h = ne (ground arith)
  granted-IsFree exclusive g u ne v shared h = elim (Eq-cases ls.exclusive_holder invalid_txn_id) [
    | inl none ↦ ne (shared_test t u ls.shared_holders (ground (arith, none)) h)
    | inr some ↦ ground (arith, nobody u, sound.alone some.0)
  ]
  granted-IsFree exclusive g u ne v exclusive h = ne (ground arith)

  free-can_grant : (mode : LockMode) → IsFree ls t mode → can_grant ls t mode ≡ true
  unfolding can_grant
  free-can_grant shared f = elim (Eq-cases ls.exclusive_holder t) [
    | inl same ↦ ground (arith, same)
    | inr other ↦ elim (Eq-cases ls.exclusive_holder invalid_txn_id) [
      | inl none ↦ ground (arith, none)
      | inr some ↦ absurd (f ls.exclusive_holder other.0 some.0 exclusive refl)
    ]
  ]
  free-can_grant exclusive f = elim (Eq-cases ls.exclusive_holder invalid_txn_id) [
    | inl none ↦ rw none.1 (
        shared_test_sole t ls.shared_holders (
          sole_set t ls.shared_holders sound.distinct
            (nobody_else t ls.shared_holders (λ u ne h. f u ne (valid_member u h) shared h))))
    | inr some ↦ elim (Eq-cases ls.exclusive_holder t) [
      | inl same ↦ rw (some.1, same.1)
      | inr other ↦ absurd (f ls.exclusive_holder other.0 some.0 exclusive refl)
    ]
  ]

  -- A request is granted exactly when no other transaction holds the key in a conflicting mode.
  pub can_grant_iff : (mode : LockMode) → (can_grant ls t mode ≡ true) ↔ IsFree ls t mode
  can_grant_iff mode = (granted-IsFree mode, free-can_grant mode)
