-- ===== src/Txn.antt =====
-- src/db.h and db.cpp: a transaction over the tree, the log and the locks.
-- What the operating system and the other transactions do is an argument of each call: the outcome
-- of the write to the log, and how the waits for a lock end.
pub mod Rollback
pub mod Tests
use key_v_db.Common.{ℕ, Bool, true, false, not, Option, none, some, List, [], ◌∷◌, if◌then◌else◌}
use key_v_db.Common.Assoc
use key_v_db.Common.Bytes.{Bytes, bytes_eq}
use key_v_db.Common.Result.{Result, ok, err, Io, Error, runtime_error, deadlock, system_error}
use key_v_db.Btree.{Tree}
use key_v_db.Btree
use key_v_db.Lock.{
  LockMode, shared, exclusive, LockOutcome, granted, timed_out, waiting, lock, release_all,
}
use key_v_db.Lock
use key_v_db.Wal.Log.{LogManager, append_write, append_commit, append_abort, begin_txn, truncate}

pub record WriteEntry : Type 0 where
  pub before_exists : Bool
  pub before_val : Bytes
  pub after_val : Bytes

abbrev pub WriteSet : Type 0
WriteSet = List (Bytes × WriteEntry)

-- How the environment answers a call: the lock table at the end of each wait, and the log's write.
pub record Env : Type 0 where
  pub waits : List (Lock.LockManager × Bool)
  pub io : Io

-- `pending` is a call that still waits for its lock.
pub data Outcome (A : Type 0) : Type 0 where
  returns : A → Outcome A
  throws : Error → Outcome A
  pending : Outcome A

module _ (tree : Tree) where
  -- The database as one transaction sees it. `disk` is the tree as the last flush of the buffer
  -- pool left it in the file.
  pub record Session : Type 0 where
    pub state : tree.State
    pub disk : tree.State
    pub log : LogManager
    pub locks : Lock.LockManager
    pub txn_id : ℕ
    pub finished : Bool
    pub write_set : WriteSet

  abbrev pub existing_entry : Option Bytes → Bytes → WriteEntry
  existing_entry none value = record { before_exists = false; before_val = []; after_val = value }
  existing_entry (some old) value = record {
    before_exists = true;
    before_val = old;
    after_val = value;
  }

  -- The entry that a write leaves in `write_set_`: the before-image of the first write stays.
  abbrev pub next_entry : Option WriteEntry → Option Bytes → Bytes → WriteEntry
  next_entry none existing value = existing_entry existing value
  next_entry (some entry) existing value = record entry { after_val = value }

  -- After `append_write`: the tree is changed only if the record was written.
  abbrev pub log_then : Result ℕ → Session → Result tree.State → Outcome (Unit {0}) × Session
  log_then (err e) s r = (throws e, s)
  log_then (ok n) s (err e) = (throws e, s)
  log_then (ok n) s (ok t) = (returns tt, record s { state = t })

  unfoldable pub put_locked : Io → Bytes → Bytes → Session → Outcome (Unit {0}) × Session
  put_locked io key value s =
      let entry = next_entry (Assoc.find key s.write_set) (tree.get s.state key) value in
      let (r, log) =
        append_write io s.log s.txn_id key entry.before_exists entry.before_val value in
      log_then r (record s { write_set = Assoc.put key entry s.write_set; log = log })
        (Btree.insert tree key value s.state)

  abbrev pub delete_found : Io → Bytes → Option Bytes → Session → Outcome (Unit {0}) × Session
  delete_found io key none s = (returns tt, s)
  delete_found io key (some old) s =
      let entry = next_entry (Assoc.find key s.write_set) (some old) [] in
      let (r, log) = append_write io s.log s.txn_id key entry.before_exists entry.before_val [] in
      log_then r (record s { write_set = Assoc.put key entry s.write_set; log = log })
        (ok (tree.remove key s.state))

  unfoldable pub delete_locked : Io → Bytes → Session → Outcome (Unit {0}) × Session
  delete_locked io key s = delete_found io key (tree.get s.state key) s

  -- One round of the loop in `undo_all`.
  abbrev pub undo_entry : Bytes → WriteEntry → tree.State → Result tree.State
  undo_entry key entry t =
      if not entry.before_exists
      then ok (tree.remove key t)
      else Btree.insert tree key entry.before_val t

  -- An exception leaves the tree as far as it was undone.
  unfoldable pub undo_all : WriteSet → tree.State → Result (Unit {0}) × tree.State
  undo_all [] t = (ok tt, t)
  undo_all ((key, entry) ∷ rest) t = elim (undo_entry key entry t) [
    | err e ↦ (err e, t)
    | ok t' ↦ undo_all rest t'
  ]

  -- Take the lock, then go on.
  abbrev pub locked :
      {A : Type 0}
      → LockOutcome × Lock.LockManager
      → Session
      → (Session → Outcome A × Session)
      → Outcome A × Session
  locked (granted, lm) s body = body (record s { locks = lm })
  locked (timed_out, lm) s body = (throws deadlock, record s { locks = lm })
  locked (waiting, lm) s body = (pending, record s { locks = lm })

  unfoldable pub get : Env → Bytes → Session → Outcome (Option Bytes) × Session
  get env key s =
      if s.finished
      then (throws runtime_error, s)
      else locked (lock s.txn_id key shared s.locks env.waits) s
          λ s'. (returns (tree.get s'.state key), s')

  unfoldable pub put : Env → Bytes → Bytes → Session → Outcome (Unit {0}) × Session
  put env key value s =
      if s.finished
      then (throws runtime_error, s)
      else locked (lock s.txn_id key exclusive s.locks env.waits) s (put_locked env.io key value)

  unfoldable pub delete : Env → Bytes → Session → Outcome (Unit {0}) × Session
  delete env key s =
      if s.finished
      then (throws runtime_error, s)
      else locked (lock s.txn_id key exclusive s.locks env.waits) s (delete_locked env.io key)

  -- `log_synced` and `data_synced` are the outcomes of the two `fsync` calls.
  unfoldable pub commit : Io → Bool → Bool → Session → Outcome (Unit {0}) × Session
  commit io log_synced data_synced s =
      let (r, log) = append_commit io s.log s.txn_id in
      let s1 = record s { finished = true; log = log } in
      let s2 = record s1 { disk = s.state } in
      if s.finished then (throws runtime_error, s) else elim r [
        | err e ↦ (throws e, s1)
        | ok n ↦
            if not log_synced
            then (throws system_error, s1)
            else if not data_synced
            then (throws system_error, s2)
            else (returns tt, record s2 { locks = release_all s.locks s.txn_id })
      ]

  unfoldable pub rollback : Io → Session → Outcome (Unit {0}) × Session
  rollback io s =
      let (r, t) = undo_all s.write_set s.state in
      let s1 = record s { finished = true; state = t } in
      let (n, log) = append_abort io s.log s.txn_id in
      let s2 = record s1 { log = log } in
      if s.finished then (throws runtime_error, s) else elim r [
        | err e ↦ (throws e, s1)
        | ok _ ↦ elim n [
          | err e ↦ (throws e, s2)
          | ok _ ↦ (returns tt, record s2 { locks = release_all s.locks s.txn_id })
        ]
      ]

  -- A client's calls before the transaction ends; it goes on after an exception.
  pub data Call : Type 0 where
    gets deletes : Env → Bytes → Call
    puts : Env → Bytes → Bytes → Call

  unfoldable pub run : List Call → Session → Session
  run [] s = s
  run (gets env key ∷ calls) s = run calls (get env key s).1
  run (deletes env key ∷ calls) s = run calls (delete env key s).1
  run (puts env key value ∷ calls) s = run calls (put env key value s).1
