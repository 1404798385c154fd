-- ===== src/Wal/Log.antt =====
-- src/wal/log_manager.h and log_manager.cpp: the state of `LogManager` and its write path. The
-- outcome of the `pwrite` (a failing `lseek` counts as a failing write) is an argument.
use key_v_db.Common.{ℕ, ◌+◌, Bool, false, [], ◌++◌, take, if◌then◌else◌}
use key_v_db.Common.Bytes.{Bytes}
use key_v_db.Common.Result.{Result, ok, err, Io, done, failed, short, system_error, runtime_error}
use key_v_db.Wal.{WalRecord, encode, begin_type, write_type, commit_type, abort_type}

-- `file` is the content of the WAL file.
pub record LogManager : Type 0 where
  pub file : Bytes
  pub next_lsn : ℕ
  pub next_txn_id : ℕ

unfoldable pub append_record : Io → LogManager → WalRecord → Result ℕ × LogManager
append_record done lm r = (
  ok lm.next_lsn,
  record lm {
    file = lm.file ++ encode (record r { lsn = lm.next_lsn });
    next_lsn = lm.next_lsn + 1;
  },
)
append_record failed lm r = (err system_error, record lm { next_lsn = lm.next_lsn + 1 })
append_record (short n) lm r = (
  err runtime_error,
  record lm {
    file = lm.file ++ take n (encode (record r { lsn = lm.next_lsn }));
    next_lsn = lm.next_lsn + 1;
  },
)

-- A default-constructed record with its transaction and type.
abbrev pub plain : ℕ → ℕ → WalRecord
plain txn_id type = record {
  lsn = 0;
  txn_id = txn_id;
  type = type;
  key = [];
  before_val = [];
  after_val = [];
  before_exists = false;
}

-- The new transaction's id, and the outcome of appending its record.
unfoldable pub begin_txn : Io → LogManager → ℕ × Result ℕ × LogManager
begin_txn io lm =
    let (r, lm') =
      append_record io (record lm { next_txn_id = lm.next_txn_id + 1 })
        (plain lm.next_txn_id begin_type) in
    (lm.next_txn_id, r, lm')

abbrev pub write_record : ℕ → Bytes → Bool → Bytes → Bytes → WalRecord
write_record txn_id key before_exists before_val after_val = record {
  lsn = 0;
  txn_id = txn_id;
  type = write_type;
  key = key;
  before_val = if before_exists then before_val else [];
  after_val = after_val;
  before_exists = before_exists;
}

unfoldable pub append_write :
    Io → LogManager → ℕ → Bytes → Bool → Bytes → Bytes → Result ℕ × LogManager
append_write io lm txn_id key before_exists before_val after_val =
    append_record io lm (write_record txn_id key before_exists before_val after_val)

unfoldable pub append_commit : Io → LogManager → ℕ → Result ℕ × LogManager
append_commit io lm txn_id = append_record io lm (plain txn_id commit_type)

unfoldable pub append_abort : Io → LogManager → ℕ → Result ℕ × LogManager
append_abort io lm txn_id = append_record io lm (plain txn_id abort_type)

unfoldable pub truncate : LogManager → LogManager
truncate lm = record { file = []; next_lsn = 1; next_txn_id = 1 }
