-- ===== src/ClientHandler/Tests.antt =====
-- One connection over a small tree: an unknown transaction, a deadlock, a client that goes away.
use key_v_db.Common.{inr, ◌≡◌, ◌⊎◌, refl, true, false, some, List, [], ◌∷◌, arith}
use key_v_db.Common.Assoc.{find, put, contains, insert}
use key_v_db.Common.Bytes.{Bytes, bytes_beq, bytes_eq}
use key_v_db.Common.Result.{done, deadlock}
use key_v_db.Btree.OneLeaf.Tests.{key, other_key, before, small_tree}
use key_v_db.Btree.{too_large, leaf_cell_size}
use key_v_db.Btree
use key_v_db.Wal.Log.{append_write, append_record}
use key_v_db.Lock.{
  exclusive, init, lock, try_lock, give_up, prune, can_grant, record_grant, state_of, keys_of,
  release_all,
}
use key_v_db.Txn.{Session, Call, Env, puts, throws}
use key_v_db.Txn
use key_v_db.Txn.Tests.{session, at_once, calls, before-AllFit, calls_live, calls_handled}
use key_v_db.ClientHandler.{
  Handler, World, Reason, op_begin, no_transaction, response, status_deadlock, read_string,
  read_exact, from_be,
}
use key_v_db.ClientHandler
use key_v_db.Txn.Rollback.{AllHandled}
use key_v_db.ClientHandler.Endings.{disconnect_restores, deadlock_restores}
use key_v_db.ClientHandler.Requests.{run_ends}

abbrev no_text : Reason → Bytes
no_text reason = []

abbrev world : World
world = record { env = at_once; log_synced = true; data_synced = true; abort_io = done }

-- A GET outside of a transaction, and behind it a BEGIN.
abbrev idle : Handler small_tree no_text
idle = record {
  session = session;
  is_open = false;
  is_stopped = false;
  input = 2 ∷ 0 ∷ 0 ∷ 0 ∷ 3 ∷ 0 ∷ 1 ∷ 107 ∷ 1 ∷ 0 ∷ 0 ∷ 0 ∷ 0 ∷ [];
  sent = [];
}

abbrev busy : Handler small_tree no_text
busy = record idle { session = Txn.run small_tree calls session; is_open = true }

disconnect_restores_example :
    let h' = ClientHandler.disconnect small_tree no_text world busy in
    (h'.is_open ≡ false)
    × ((k : Bytes) → small_tree.get h'.session.state k ≡ small_tree.get before k)
    × (h'.session.locks ≡ release_all busy.session.locks busy.session.txn_id)
disconnect_restores_example =
    disconnect_restores small_tree no_text before before-AllFit session calls refl refl
      calls_handled calls_live world busy refl refl refl

run_ends_example :
    (h' : Handler small_tree no_text) × (ClientHandler.run small_tree no_text 14 (λ n. world) idle
      ≡ some h')
    × ((h'.is_stopped ≡ true) ⊎ (h'.is_open ≡ false))
run_ends_example = run_ends small_tree no_text 14 (λ n. world) idle (omega arith)

-- Transaction 9 holds the second key.
abbrev crowded : Session small_tree
crowded = record session { locks = (try_lock init 9 other_key exclusive).0 }

abbrev first_call : List (Call small_tree)
first_call = puts at_once key (30 ∷ []) ∷ []

abbrev too_late : Env
too_late = record { waits = ((Txn.run small_tree first_call crowded).locks, true) ∷ []; io = done }

abbrev both_calls : List (Call small_tree)
both_calls = puts at_once key (30 ∷ []) ∷ puts too_late other_key (40 ∷ []) ∷ []

abbrev blocked : Handler small_tree no_text
blocked = record {
  session = Txn.run small_tree first_call crowded;
  is_open = true;
  is_stopped = false;
  input = 0 ∷ 1 ∷ 108 ∷ 0 ∷ 1 ∷ 40 ∷ [];
  sent = [];
}

both_handled : AllHandled small_tree before both_calls
unfolding contains bytes_beq
both_handled = (inr refl, (inr refl, tt))

both_live : (Txn.run small_tree both_calls crowded).finished ≡ false
unfolding Txn.run Txn.put Txn.put_locked lock try_lock give_up prune can_grant record_grant state_of
    keys_of find put contains insert bytes_beq append_write append_record Btree.insert too_large
    leaf_cell_size
both_live = refl

times_out :
    Txn.put small_tree too_late other_key (40 ∷ []) blocked.session
    ≡ (throws deadlock, Txn.run small_tree both_calls crowded)
unfolding Txn.run Txn.put Txn.put_locked lock try_lock give_up prune can_grant record_grant state_of
    keys_of find put contains insert bytes_beq append_write append_record Btree.insert too_large
    leaf_cell_size
times_out = refl

deadlock_restores_example :
    let h' =
      ClientHandler.handle_put small_tree no_text (record world { env = too_late }) blocked in
    (h'.is_open ≡ false)
    × (h'.sent ≡ response status_deadlock [])
    × (h'.input ≡ [])
    × ((k : Bytes) → small_tree.get h'.session.state k ≡ small_tree.get before k)
    × (h'.session.locks
        ≡ release_all
            (Txn.run small_tree both_calls crowded).locks
            (Txn.run small_tree both_calls crowded).txn_id)
unfolding read_string read_exact from_be
deadlock_restores_example =
    deadlock_restores small_tree no_text before before-AllFit crowded both_calls refl refl
      both_handled both_live (record world { env = too_late }) blocked other_key (40 ∷ [])
      (0 ∷ 1 ∷ 40 ∷ []) [] refl refl refl times_out refl
