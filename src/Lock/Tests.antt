-- ===== src/Lock/Tests.antt =====
-- Runs of the lock manager, and its theorems at concrete inputs.
use key_v_db.Common.{ℕ, ◌≡◌, ◌≢◌, ◌↔◌, ◌⊎◌, refl, true, false, [], ◌∷◌, arith, inl, nat_eq}
use key_v_db.Common.Assoc.{find, put, remove, contains, insert, erase}
use key_v_db.Common.Bytes.{Bytes, bytes_beq}
use key_v_db.Lock.{
  LockManager, shared, exclusive, can_grant, state_of, try_lock, release_all, init, keys_of,
  record_grant, release_keys, release_key, release_found,
}
use key_v_db.Lock.Grant.{Holds, Compatible, IsFree, can_grant_iff}
use key_v_db.Lock.Steps.{
  IsValid, request, release, Reach, start, next, Reach-IsValid, release_all_holders,
  try_lock_others,
}
use key_v_db.Lock.Safety.{AtLeast, mutual_exclusion, two_phase}

abbrev key : Bytes
key = 107 ∷ []

-- Transactions 1 and 2 read one key.
abbrev two_readers : LockManager
two_readers = (try_lock (try_lock init 1 key shared).0 2 key shared).0

two_readers-Reach : Reach two_readers
two_readers-Reach =
    next (next start (request init 1 key shared (omega arith)))
      (request (try_lock init 1 key shared).0 2 key shared (omega arith))

reader_upgrade_waits : (try_lock two_readers 1 key exclusive).1 ≡ false
unfolding try_lock can_grant record_grant state_of keys_of find put contains insert bytes_beq
reader_upgrade_waits = refl

sole_reader_upgrades : (try_lock (release_all two_readers 2) 1 key exclusive).1 ≡ true
unfolding try_lock can_grant record_grant state_of keys_of find put contains insert bytes_beq
    release_all release_keys release_key release_found remove erase
sole_reader_upgrades = refl

mutual_exclusion_example : Compatible shared shared
unfolding try_lock can_grant record_grant state_of keys_of find put contains insert bytes_beq
mutual_exclusion_example =
    mutual_exclusion two_readers-Reach key 1 2 shared shared (omega arith) (omega arith)
      (omega arith) refl refl

two_readers-IsValid : IsValid two_readers
two_readers-IsValid = Reach-IsValid two_readers-Reach

can_grant_iff_example :
    (can_grant (state_of two_readers key) 1 exclusive ≡ true)
    ↔ IsFree (state_of two_readers key) 1 exclusive
can_grant_iff_example =
    can_grant_iff (state_of two_readers key) 1 ((Reach-IsValid two_readers-Reach).sound key)
      (omega arith) exclusive

two_phase_example :
    AtLeast (state_of (release_all two_readers 2) key) 1 shared
    ⊎ (release_all two_readers 2 ≡ release_all two_readers 1)
unfolding try_lock can_grant record_grant state_of keys_of find put contains insert bytes_beq
two_phase_example =
    two_phase (Reach-IsValid two_readers-Reach) (release two_readers 2 (omega arith)) 1 key shared
      (omega arith) (inl refl)

abbrev first : ℕ
first = 1

abbrev second : ℕ
second = 2

release_all_holders_example :
    Holds (state_of (release_all two_readers 2) key) 1 shared
    ↔ ((first ≢ second) × Holds (state_of two_readers key) 1 shared)
release_all_holders_example =
    release_all_holders (Reach-IsValid two_readers-Reach) 2 1 key shared (omega arith) (omega arith)

try_lock_others_example :
    Holds (state_of (try_lock two_readers 1 key exclusive).0 key) 2 shared
    ↔ Holds (state_of two_readers key) 2 shared
try_lock_others_example =
    try_lock_others (Reach-IsValid two_readers-Reach) 1 2 key key exclusive shared (omega arith)
      (omega arith) (omega arith)
