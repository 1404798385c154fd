-- ===== src/Wal/Tests.antt =====
-- A small log, and the theorems on logs and recovery at it.
use key_v_db.Common.{
  ◌^◌, inl, ◌<◌, ◌≡◌, inr, refl, true, false, Bool, none, List, [], ◌∷◌, ◌++◌, map, length, All,
  arith, ltb, ◌&&◌, nat_eq,
}
use key_v_db.Common.Assoc.{contains, insert, erase}
use key_v_db.Common.Bytes.{Bytes, bytes_beq, bytes_eq, le_bytes}
use key_v_db.Common.Result.{ok, err, runtime_error, done, failed, short}
use key_v_db.Btree.OneLeaf.Tests.{small_tree, before}
use key_v_db.Wal.{WalRecord, header_bytes, encode, begin_type, commit_type, abort_type}
use key_v_db.Wal.Log.{LogManager, append_record, plain, write_record}
use key_v_db.Wal.Read.{read_all, open_log}
use key_v_db.Wal.Read.RoundTrip.{encode_all, IsStored, as_read, read_all-encode_all}
use key_v_db.Wal.Read.Torn.{numbered, read_all-append_record, read_all-torn}
use key_v_db.Wal.Read.Reopen.{open_log-fresh}
use key_v_db.Wal.Recovery.{recover, analysis, analysis_from, analysis_step, ended}
use key_v_db.Wal.Recovery.Values.{Fits}
use key_v_db.Wal.Recovery.Atomic.{
  AreDisjoint, IsLogged, other, committed, losing, committed_value, is_redone, recover_committed,
}

abbrev key : Bytes
key = 107 ∷ []

-- Transaction 1 writes the key and commits; transaction 2 writes it and is open at the crash.
abbrev first_write : WalRecord
first_write = record (write_record 1 key false [] (10 ∷ [])) { lsn = 2 }

abbrev second_write : WalRecord
second_write = record (write_record 2 key true (10 ∷ []) (20 ∷ [])) { lsn = 5 }

abbrev records : List WalRecord
records =
    record (plain 1 begin_type) { lsn = 1 }
    ∷ first_write
    ∷ record (plain 1 commit_type) { lsn = 3 }
    ∷ record (plain 2 begin_type) { lsn = 4 }
    ∷ second_write
    ∷ []

abbrev log : LogManager
log = record { file = encode_all records; next_lsn = 6; next_txn_id = 3 }

abbrev is_small : WalRecord → Bool
is_small r =
    ltb r.lsn 10
    && ltb r.txn_id 10
    && ltb 0 r.type
    && ltb r.type 10
    && ltb (length r.key) 10
    && ltb (length r.before_val) 10
    && ltb (length r.after_val) 10

small-IsStored : (r : WalRecord) → is_small r ≡ true → IsStored r
small-IsStored r h = (
  record {
    lsn = ground (arith, h);
    txn_id = ground (arith, h);
    type = ground (arith, h);
    key = ground (arith, h);
    before_val = ground (arith, h);
    after_val = ground (arith, h);
  },
  ground (arith, h),
)

stored : All IsStored records
stored = (
  small-IsStored (record (plain 1 begin_type) { lsn = 1 }) refl,
  (
    small-IsStored first_write refl,
    (
      small-IsStored (record (plain 1 commit_type) { lsn = 3 }) refl,
      (
        small-IsStored (record (plain 2 begin_type) { lsn = 4 }) refl,
        (small-IsStored second_write refl, tt),
      ),
    ),
  ),
)

read_all-encode_all_example :
    read_all (record log { file = encode_all records ++ 7 ∷ [] }) ≡ ok records
read_all-encode_all_example =
    read_all-encode_all (record log { file = encode_all records ++ 7 ∷ [] }) records (7 ∷ []) refl
      stored (omega arith)

-- The record that commits transaction 2.
abbrev commit_record : WalRecord
commit_record = plain 2 commit_type

read_all-append_record_example :
    (read_all (append_record done log commit_record).1
      ≡ ok (map as_read (records ++ numbered log commit_record ∷ [])))
    × (read_all (append_record failed log commit_record).1 ≡ ok records)
read_all-append_record_example =
    read_all-append_record log records commit_record refl stored
      (small-IsStored (numbered log commit_record) refl)

read_all-torn_example : read_all (append_record (short 32) log first_write).1 ≡ err runtime_error
unfolding encode header_bytes le_bytes
read_all-torn_example =
    read_all-torn log records first_write refl stored
      (small-IsStored (numbered log first_write) refl) 32 (omega arith)

open_log-fresh_example :
    All
      (λ r.
        (r.lsn < (open_log (encode_all records ++ [])).next_lsn)
        × (r.txn_id < (open_log (encode_all records ++ [])).next_txn_id))
      records
    × ((open_log (encode_all records ++ [])).next_lsn < 2 ^ 63)
    × ((open_log (encode_all records ++ [])).next_txn_id < 2 ^ 63)
open_log-fresh_example =
    open_log-fresh records [] stored
      (
        (omega arith, omega arith),
        (
          (omega arith, omega arith),
          (
            (omega arith, omega arith),
            ((omega arith, omega arith), ((omega arith, omega arith), tt)),
          ),
        ),
      )
      (omega arith)

abbrev on_disk : small_tree.State
on_disk = before

fits : All (Fits small_tree) records
unfolding contains bytes_beq
fits = (inl refl, (inr (refl, refl), (inl refl, (inl refl, (inr (refl, refl), tt)))))

apart : AreDisjoint (ended commit_type records) (ended abort_type records) (analysis records)
unfolding ended analysis analysis_from analysis_step insert erase contains
apart = record {
  of_committed = λ t h. ground (arith, h);
  of_aborted = λ t h. ground (arith, h);
  of_losing = λ t h. ground (arith, h);
}

logged :
    IsLogged
      (ended commit_type records)
      (ended abort_type records)
      (analysis records)
      key
      none
      records
unfolding ended analysis analysis_from analysis_step insert erase contains bytes_beq
logged = other refl (committed refl refl (other refl (other refl (losing refl refl refl tt))))

redone : is_redone (ended abort_type records) key records ≡ true
unfolding ended contains bytes_beq
redone = refl

-- Transaction 2's write had reached the disk: recovery puts back what transaction 1 committed.
recover_committed_example :
    (s : small_tree.State) × (recover small_tree log on_disk ≡ ok (s, length (analysis records)))
    × (small_tree.get s key ≡ committed_value (ended commit_type records) key records none)
unfolding encode_all encode header_bytes le_bytes
recover_committed_example =
    recover_committed small_tree log on_disk records key none
      (read_all-encode_all log records [] refl stored (omega arith)) fits apart logged (inr redone)
