-- ===== src/Wal/Recovery.antt =====
-- src/wal/recovery_manager.h and recovery_manager.cpp, over the tree's contract.
pub mod Values
pub mod Atomic
use key_v_db.Common.{
  ℕ, Bool, true, false, not, List, [], ◌∷◌, ◌++◌, length, ◌==◌, nat_eq, ◌||◌, ◌&&◌, if◌then◌else◌,
  is_empty,
}
use key_v_db.Common.Assoc.{contains, insert, erase}
use key_v_db.Common.Result.{Result, ok, err, ◌>>=◌}
use key_v_db.Btree.{Tree}
use key_v_db.Btree
use key_v_db.Wal.{WalRecord, begin_type, write_type, commit_type, abort_type}
use key_v_db.Wal.Log.{LogManager}
use key_v_db.Wal.Read.{read_all}

-- One step of the loop over the records.
unfoldable pub analysis_step : List ℕ → WalRecord → List ℕ
analysis_step active r =
    if r.type == begin_type
    then insert r.txn_id active
    else if r.type == commit_type || r.type == abort_type
    then erase r.txn_id active
    else active

unfoldable pub analysis_from : List ℕ → List WalRecord → List ℕ
analysis_from active [] = active
analysis_from active (r ∷ rs) = analysis_from (analysis_step active r) rs

-- The transactions that began and neither committed nor aborted.
unfoldable pub analysis : List WalRecord → List ℕ
analysis rs = analysis_from [] rs

-- The first pass of `redo`: the transactions with a record of a type.
unfoldable pub ended : ℕ → List WalRecord → List ℕ
ended type [] = []
ended type (r ∷ rs) =
    let rest = ended type rs in if r.type == type then insert r.txn_id rest else rest

module _ (tree : Tree) where
  open tree use {State, remove}

  -- The body of the second pass.
  unfoldable pub redo_step : List ℕ → WalRecord → State → Result State
  redo_step aborted r s =
      if not (r.type == write_type)
      then ok s
      else if contains r.txn_id aborted
      then ok s
      else if is_empty r.after_val
      then ok (remove r.key s)
      else Btree.insert tree r.key r.after_val s

  unfoldable pub redo_from : List ℕ → List WalRecord → State → Result State
  redo_from aborted [] s = ok s
  redo_from aborted (r ∷ rs) s = redo_step aborted r s >>= redo_from aborted rs

  unfoldable pub redo : List WalRecord → State → Result State
  redo rs s = redo_from (ended abort_type rs) rs s

  unfoldable pub undo_step : List ℕ → WalRecord → State → Result State
  undo_step losers r s =
      if not (r.type == write_type)
      then ok s
      else if not (contains r.txn_id losers)
      then ok s
      else if not r.before_exists
      then ok (remove r.key s)
      else Btree.insert tree r.key r.before_val s

  -- The reverse iteration: what stands behind a record is undone before it.
  unfoldable pub undo : List ℕ → List WalRecord → State → Result State
  undo losers [] s = ok s
  undo losers (r ∷ rs) s = undo losers rs s >>= undo_step losers r

  -- The number of transactions undone, beside the tree.
  unfoldable pub recover : LogManager → State → Result (State × ℕ)
  recover lm s = do
    records ← read_all lm
    if is_empty records then ok (s, 0) else do
      s' ← redo records s
      s'' ← undo (analysis records) records s'
      ok (s'', length (analysis records))
