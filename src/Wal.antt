-- ===== src/Wal.antt =====
-- src/wal/wal_defs.h: the records of the write-ahead log and their image in the file. An `int64_t`
-- is its bit pattern, and so is the type of a record, a `uint32_t` that is read back from disk.
pub mod Codec
pub mod Log
pub mod Read
pub mod Recovery
mod Tests
use key_v_db.Common.{
  ℕ, ◌+◌, ◌<◌, ◌^◌, Bool, true, false, not, List, [], ◌∷◌, ◌++◌, length, is_empty,
}
use key_v_db.Common.Bytes.{Bytes, le_bytes}

abbrev pub invalid_type : ℕ
invalid_type = 0

abbrev pub begin_type : ℕ
begin_type = 1

abbrev pub write_type : ℕ
write_type = 2

abbrev pub commit_type : ℕ
commit_type = 3

abbrev pub abort_type : ℕ
abort_type = 4

pub record WalRecordHeader : Type 0 where
  pub lsn : ℕ
  pub txn_id : ℕ
  pub type : ℕ
  pub key_len : ℕ
  pub before_len : ℕ
  pub after_len : ℕ

abbrev pub header_size : ℕ
header_size = 32

pub record WalRecord : Type 0 where
  pub lsn : ℕ
  pub txn_id : ℕ
  pub type : ℕ
  pub key : Bytes
  pub before_val : Bytes
  pub after_val : Bytes
  pub before_exists : Bool

-- The header that `append_record_locked` fills in.
abbrev pub header_of : WalRecord → WalRecordHeader
header_of r = record {
  lsn = r.lsn;
  txn_id = r.txn_id;
  type = r.type;
  key_len = length r.key;
  before_len = length r.before_val;
  after_len = length r.after_val;
}

-- The packed struct, field by field, as a little-endian machine lays it out.
unfoldable pub header_bytes : WalRecordHeader → Bytes
header_bytes h =
    le_bytes 8 h.lsn
    ++ (le_bytes 8 h.txn_id
        ++ (le_bytes 4 h.type
            ++ (le_bytes 4 h.key_len ++ (le_bytes 4 h.before_len ++ le_bytes 4 h.after_len))))

-- The buffer of `append_record_locked`.
unfoldable pub encode : WalRecord → Bytes
encode r = header_bytes (header_of r) ++ (r.key ++ (r.before_val ++ r.after_val))

-- The values fit the fields that they are written to.
pub record InRange (r : WalRecord) : Type 0 where
  pub lsn : r.lsn < 2 ^ 64
  pub txn_id : r.txn_id < 2 ^ 64
  pub type : r.type < 2 ^ 32
  pub key : length r.key < 2 ^ 32
  pub before_val : length r.before_val < 2 ^ 32
  pub after_val : length r.after_val < 2 ^ 32
