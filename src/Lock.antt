-- ===== src/Lock.antt =====
-- src/txn/lock_manager.h and lock_manager.cpp: the key-level two-phase locks.
-- A transaction id is the bit pattern of its `int64_t`. `mu_` makes every stretch of code between
-- two waits atomic, so one round of the loop in `lock` is one function.
pub mod Grant
pub mod Invariant
pub mod Release
pub mod Holders
pub mod Steps
pub mod Safety
mod Tests
use key_v_db.Common.{
  ℕ, ◌≡◌, Bool, true, false, ◌||◌, ◌&&◌, not, Option, none, some, List, [], ◌∷◌, ◌++◌,
  if◌then◌else◌, ◌==◌, length, is_empty, nat_eq,
}
use key_v_db.Common.Assoc.{find, put, remove, contains, insert, erase}
use key_v_db.Common.Bytes.{Bytes, bytes_eq}

-- -1 as an `int64_t`
abbrev pub invalid_txn_id : ℕ
invalid_txn_id = 0xffff_ffff_ffff_ffff

pub data LockMode : Type 0 where
  shared exclusive : LockMode

pub record LockState : Type 0 where
  pub shared_holders : List ℕ
  pub exclusive_holder : ℕ

abbrev pub fresh_state : LockState
fresh_state = record { shared_holders = []; exclusive_holder = invalid_txn_id }

pub record LockManager : Type 0 where
  pub lock_table : List (Bytes × LockState)
  pub txn_locks : List (ℕ × List Bytes)

abbrev pub init : LockManager
init = record { lock_table = []; txn_locks = [] }

unfoldable pub can_grant : LockState → ℕ → LockMode → Bool
can_grant ls txn_id shared =
    if ls.exclusive_holder == invalid_txn_id then true else ls.exclusive_holder == txn_id
can_grant ls txn_id exclusive =
    if not (ls.exclusive_holder == invalid_txn_id)
    then ls.exclusive_holder == txn_id
    else if is_empty ls.shared_holders
    then true
    else length ls.shared_holders == 1 && contains txn_id ls.shared_holders

-- The state that `lock_table_[key]` refers to, made on the spot if there is none.
abbrev pub or_fresh : Option LockState → LockState
or_fresh none = fresh_state
or_fresh (some ls) = ls

abbrev pub or_empty : Option (List Bytes) → List Bytes
or_empty none = []
or_empty (some keys) = keys

unfoldable pub state_of : LockManager → Bytes → LockState
state_of lm key = or_fresh (find key lm.lock_table)

unfoldable pub keys_of : LockManager → ℕ → List Bytes
keys_of lm txn_id = or_empty (find txn_id lm.txn_locks)

-- The end of `lock`, once the request is granted.
unfoldable pub record_grant : LockManager → ℕ → Bytes → LockMode → LockManager
record_grant lm txn_id key shared =
    let ls = state_of lm key in
    if ls.exclusive_holder == txn_id
    then record lm { lock_table = put key ls lm.lock_table }
    else record {
      lock_table =
          put key (record ls { shared_holders = insert txn_id ls.shared_holders }) lm.lock_table;
      txn_locks = put txn_id (keys_of lm txn_id ++ key ∷ []) lm.txn_locks;
    }
record_grant lm txn_id key exclusive =
    let ls = state_of lm key in
    record {
      lock_table =
          put key
            (record { shared_holders = erase txn_id ls.shared_holders; exclusive_holder = txn_id })
            lm.lock_table;
      txn_locks = put txn_id (keys_of lm txn_id ++ key ∷ []) lm.txn_locks;
    }

-- One round of the loop: `operator[]` makes the entry, then the request is granted or waits.
unfoldable pub try_lock : LockManager → ℕ → Bytes → LockMode → LockManager × Bool
try_lock lm txn_id key mode =
    let ls = state_of lm key in
    if can_grant ls txn_id mode
    then (record_grant lm txn_id key mode, true)
    else (record lm { lock_table = put key ls lm.lock_table }, false)

abbrev pub is_idle : LockState → Bool
is_idle ls = is_empty ls.shared_holders && ls.exclusive_holder == invalid_txn_id

-- An entry that nobody holds is erased.
unfoldable pub prune :
    Bytes → Option LockState → List (Bytes × LockState) → List (Bytes × LockState)
prune key none table = table
prune key (some ls) table = if is_idle ls then remove key table else table

-- What a request does on its timeout, before it throws `DeadlockException`.
unfoldable pub give_up : LockManager → Bytes → LockManager
give_up lm key = record lm { lock_table = prune key (find key lm.lock_table) lm.lock_table }

-- How a call of `lock` ends. `waiting`: it has not ended yet.
pub data LockOutcome : Type 0 where
  granted timed_out waiting : LockOutcome

-- `lock`, given how each of its waits ends: the state that the other transactions have left by
-- then, and whether `wait_until` reports the deadline.
unfoldable pub lock :
    ℕ → Bytes → LockMode → LockManager → List (LockManager × Bool) → LockOutcome × LockManager
lock txn_id key mode lm [] =
    let (lm', got) = try_lock lm txn_id key mode in if got then (granted, lm') else (waiting, lm')
lock txn_id key mode lm ((woken, late) ∷ waits) =
    let (lm', got) = try_lock lm txn_id key mode in
    let again = lock txn_id key mode woken waits in
    if got then (granted, lm') else if late then (timed_out, give_up woken key) else again

abbrev pub drop_holder : ℕ → LockState → LockState
drop_holder txn_id ls = record {
  shared_holders = erase txn_id ls.shared_holders;
  exclusive_holder = if ls.exclusive_holder == txn_id then invalid_txn_id else ls.exclusive_holder;
}

-- The body of the loop in `release_all`.
pub release_found :
    ℕ → Bytes → Option LockState → List (Bytes × LockState) → List (Bytes × LockState)
release_found txn_id key none table = table
release_found txn_id key (some ls) table =
    let ls' = drop_holder txn_id ls in if is_idle ls' then remove key table else put key ls' table

pub release_key : ℕ → List (Bytes × LockState) → Bytes → List (Bytes × LockState)
release_key txn_id table key = release_found txn_id key (find key table) table

pub release_keys : ℕ → List Bytes → List (Bytes × LockState) → List (Bytes × LockState)
release_keys txn_id [] table = table
release_keys txn_id (key ∷ keys) table = release_keys txn_id keys (release_key txn_id table key)

unfoldable pub release_all : LockManager → ℕ → LockManager
release_all lm txn_id = elim (find txn_id lm.txn_locks) [
  | none ↦ lm
  | some keys ↦ record {
    lock_table = release_keys txn_id keys lm.lock_table;
    txn_locks = remove txn_id lm.txn_locks;
  }
]

unfoldable pub holds_lock : LockManager → ℕ → Bytes → Bool
holds_lock lm txn_id key = elim (find key lm.lock_table) [
  | none ↦ false
  | some ls ↦ contains txn_id ls.shared_holders || ls.exclusive_holder == txn_id
]

unfoldable pub holds_exclusive : LockManager → ℕ → Bytes → Bool
holds_exclusive lm txn_id key = elim (find key lm.lock_table) [
  | none ↦ false
  | some ls ↦ ls.exclusive_holder == txn_id
]
