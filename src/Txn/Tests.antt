-- ===== src/Txn/Tests.antt =====
-- A transaction over a small tree, and its rollback.
use key_v_db.Common.{true, ◌≡◌, refl, false, some, List, [], ◌∷◌, Eq-cases, inl, inr, subst}
use key_v_db.Common.Assoc.{find, put, contains, insert}
use key_v_db.Common.Bytes.{Bytes, bytes_beq, bytes_eq}
use key_v_db.Common.Result.{done}
use key_v_db.Btree.{too_large, leaf_cell_size}
use key_v_db.Btree
use key_v_db.Btree.OneLeaf.Tests.{key, other_key, before, small_tree, before-find}
use key_v_db.Lock.{init, lock, try_lock, can_grant, record_grant, state_of, keys_of, release_all}
use key_v_db.Wal.Log.{append_write, append_record}
use key_v_db.Txn.{Session, Call, Env, puts, deletes, gets, Outcome, returns}
use key_v_db.Txn
use key_v_db.Txn.Rollback.{AllFit, AllHandled, rollback_restores}

abbrev pub session : Session small_tree
session = record {
  state = before;
  disk = before;
  log = record { file = []; next_lsn = 2; next_txn_id = 2 };
  locks = init;
  txn_id = 1;
  finished = false;
  write_set = [];
}

abbrev pub at_once : Env
at_once = record { waits = []; io = done }

-- It overwrites one key and makes another.
abbrev pub calls : List (Call small_tree)
calls = puts at_once key (30 ∷ []) ∷ puts at_once other_key (40 ∷ []) ∷ gets at_once key ∷ []

pub before-AllFit : AllFit small_tree before
unfolding find contains bytes_beq
before-AllFit k v h = elim (Eq-cases key k) [
  | inl same ↦
      let found : some (20 ∷ []) ≡ some v = rw (before-find k, same.1) at h in
      let hit : 20 ∷ [] ≡ v = cc found in
      subst (λ x. small_tree.fits k x ≡ true) hit
        (subst (λ x. small_tree.fits x (20 ∷ []) ≡ true) same.0 refl)
  | inr other ↦ absurd (cc (rw (before-find k, other.1) at h))
]

pub calls_live : (Txn.run small_tree calls session).finished ≡ false
unfolding Txn.run Txn.put Txn.put_locked Txn.get lock try_lock can_grant record_grant state_of
    keys_of find put contains insert bytes_beq append_write append_record Btree.insert too_large
    leaf_cell_size
calls_live = refl

pub calls_handled : AllHandled small_tree before calls
unfolding contains bytes_beq
calls_handled = (inr refl, (inr refl, tt))

rollback_restores_example :
    ((Txn.rollback small_tree done (Txn.run small_tree calls session)).0 ≡ returns tt)
    × ((k : Bytes)
        → small_tree.get (Txn.rollback small_tree done (Txn.run small_tree calls session)).1.state k
          ≡ small_tree.get before k)
    × ((Txn.rollback small_tree done (Txn.run small_tree calls session)).1.locks
        ≡ release_all
            (Txn.run small_tree calls session).locks
            (Txn.run small_tree calls session).txn_id)
rollback_restores_example =
    rollback_restores small_tree before before-AllFit session calls refl refl calls_handled
      calls_live
