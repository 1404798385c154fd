-- ===== src/Wal/Read.antt =====
-- src/wal/log_manager.cpp: `read_all` and `scan_for_max_ids`. Both walk the file by an offset that
-- grows by 32 at least in each round, so a fuel of one more than the length of the file is enough.
pub mod RoundTrip
pub mod Torn
pub mod Reopen
use key_v_db.Common.{
  ℕ, zero, suc, ◌+◌, ◌^◌, ◌%◌, Bool, true, false, not, Option, none, some, List, [], ◌∷◌, ◌++◌,
  length, ltb, ◌==◌, nat_eq, if◌then◌else◌, is_empty, ◌||◌,
}
use key_v_db.Common.Bytes.{Bytes}
use key_v_db.Common.Result.{Result, ok, err, runtime_error, ◌>>=◌}
use key_v_db.Wal.{WalRecord, WalRecordHeader, header_size, invalid_type}
use key_v_db.Wal.Codec.{pread, read_header}
use key_v_db.Wal.Log.{LogManager}

-- The three tests that end a walk: end of file, a header cut short, a zeroed tail.
unfoldable pub next_header : Bytes → ℕ → Option WalRecordHeader
next_header file offset =
    let b = pread file header_size offset in
    if ltb (length b) header_size
    then none
    else if (read_header b).type == invalid_type
    then none
    else some (read_header b)

-- One variable-length field of a record.
unfoldable pub read_field : Bytes → ℕ → ℕ → Result Bytes
read_field file len offset =
    let b = pread file len offset in
    if len == 0 then ok [] else if length b == len then ok b else err runtime_error

-- The body of the loop in `read_all`, after the header; also the offset of the next record.
unfoldable pub read_record : Bytes → WalRecordHeader → ℕ → Result (WalRecord × ℕ)
read_record file hdr offset = do
  key ← read_field file hdr.key_len offset
  before_val ← read_field file hdr.before_len (offset + hdr.key_len)
  after_val ← read_field file hdr.after_len (offset + hdr.key_len + hdr.before_len)
  ok (
    record {
      lsn = hdr.lsn;
      txn_id = hdr.txn_id;
      type = hdr.type;
      key = key;
      before_val = before_val;
      after_val = after_val;
      before_exists = not (hdr.before_len == 0);
    },
    offset + hdr.key_len + hdr.before_len + hdr.after_len,
  )

-- `out_records` is what the rounds so far have pushed, then the rest.
unfoldable pub read_loop : ℕ → Bytes → ℕ → Result (List WalRecord)
read_loop zero file offset = ok []
read_loop (suc fuel) file offset = elim (next_header file offset) [
  | none ↦ ok []
  | some hdr ↦ elim (read_record file hdr (offset + header_size)) [
    | err e ↦ err e
    | ok (r, next) ↦ elim (read_loop fuel file next) [ err e ↦ err e | ok rest ↦ ok (r ∷ rest) ]
  ]
]

unfoldable pub read_all : LogManager → Result (List WalRecord)
read_all lm = read_loop (suc (length lm.file)) lm.file 0

-- a < b as `int64_t`
abbrev pub signed_ltb : ℕ → ℕ → Bool
signed_ltb a b = ltb ((a + 2 ^ 63) % 2 ^ 64) ((b + 2 ^ 63) % 2 ^ 64)

abbrev pub signed_max : ℕ → ℕ → ℕ
signed_max a b = if signed_ltb a b then b else a

unfoldable pub scan_loop : ℕ → Bytes → ℕ → ℕ → ℕ → ℕ × ℕ
scan_loop zero file offset max_lsn max_txn_id = (max_lsn, max_txn_id)
scan_loop (suc fuel) file offset max_lsn max_txn_id = elim (next_header file offset) [
  | none ↦ (max_lsn, max_txn_id)
  | some hdr ↦
      scan_loop fuel file (offset + header_size + hdr.key_len + hdr.before_len + hdr.after_len)
        (signed_max max_lsn hdr.lsn) (signed_max max_txn_id hdr.txn_id)
]

-- `if (max > 0) next = max + 1`, from the initial value 1; the sum is an `int64_t` and wraps around.
abbrev pub resume : ℕ → ℕ
resume m = if signed_ltb 0 m then (m + 1) % 2 ^ 64 else 1

-- The constructor: open the file and scan it.
unfoldable pub open_log : Bytes → LogManager
open_log file =
    let (max_lsn, max_txn_id) = scan_loop (suc (length file)) file 0 0 0 in
    record { file = file; next_lsn = resume max_lsn; next_txn_id = resume max_txn_id }
