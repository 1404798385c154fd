-- ===== src/ClientHandler/Endings.antt =====
-- How a connection's transaction ends other than by a commit, and requests without a transaction.
use key_v_db.Common.{
  ℕ, ◌≡◌, refl, ap, ◌∙◌, Bool, true, false, some, List, [], ◌++◌, ◌==◌, nat_eq, if◌then◌else◌,
  arith, not,
}
use key_v_db.Common.Bytes.{Bytes}
use key_v_db.Common.Result.{Io, done, deadlock}
use key_v_db.Btree.{Tree}
use key_v_db.Lock.{release_all}
use key_v_db.Txn.{Session, Call, Outcome, returns, throws}
use key_v_db.Txn
use key_v_db.Txn.Rollback.{AllFit, AllHandled, rollback_restores}
use key_v_db.ClientHandler.{
  Handler, Reason, World, already_open, op_get, op_put, op_delete, op_commit, op_rollback,
  read_string, response, status_deadlock, thrown,
}
use key_v_db.ClientHandler

-- The opcodes of the requests that need a transaction.
abbrev pub needs_transaction : ℕ → Bool
needs_transaction op =
    if op == op_get
    then true
    else if op == op_put
    then true
    else if op == op_delete
    then true
    else if op == op_commit
    then true
    else if op == op_rollback
    then true
    else false

-- A rollback finishes its transaction even if it throws.
rollback-finished :
    (tree : Tree) (io : Io) (s : Session tree)
    → s.finished ≡ false
    → (Txn.rollback tree io s).1.finished ≡ true
unfolding Txn.rollback
rollback-finished tree io s live = rw live (ground arith)

if_true {ℓ} : {A : Type ℓ} (b : Bool) (x y : A) → b ≡ true → (if b then x else y) ≡ x
if_true b x y e = ap (λ c. if c then x else y) e

if_false {ℓ} : {A : Type ℓ} (b : Bool) (x y : A) → b ≡ false → (if b then x else y) ≡ y
if_false b x y e = ap (λ c. if c then x else y) e

module _ (tree : Tree) (text : Reason → Bytes) (t0 : tree.State) (fit : AllFit tree t0)
    (s : Session tree) (calls : List (Call tree)) (fresh : s.state ≡ t0)
    (unwritten : s.write_set ≡ []) (handled : AllHandled tree t0 calls)
    (live : (Txn.run tree calls s).finished ≡ false) where
  -- When the client goes away inside a transaction, whatever the transaction did is rolled back and
  -- its locks are released, as long as the abort record can be written. The tree keeps its contract
  -- and can take in its earlier cells and those that the transaction writes, or refuses the latter by
  -- their size.
  pub disconnect_restores :
      (w : World) (h : Handler tree text)
      → h.session ≡ Txn.run tree calls s
      → h.is_open ≡ true
      → w.env.io ≡ done
      → let h' = ClientHandler.disconnect tree text w h in
        (h'.is_open ≡ false)
        × ((k : Bytes) → tree.get h'.session.state k ≡ tree.get t0 k)
        × (h'.session.locks ≡ release_all h.session.locks h.session.txn_id)
  unfolding ClientHandler.disconnect ClientHandler.reset ClientHandler.destroy
  disconnect_restores w h same opened written =
      let (returned, restored, released) =
        rollback_restores tree t0 fit s calls fresh unwritten handled live in
      rw ended (refl, restored, rw same released)
    where
      ended : ClientHandler.disconnect tree text w h ≡ record h {
        session = (Txn.rollback tree done (Txn.run tree calls s)).1;
        is_open = false;
      }
      ended =
          if_true h.is_open _ h opened
          ∙ rw (same, written)
              (ap (λ x. record h { session = x; is_open = false })
                (if_true _ _ _ (rollback-finished tree done (Txn.run tree calls s) live)))

  -- When the wait of a PUT for its lock times out, the client is told of the deadlock, and
  -- everything that the transaction did before is rolled back and its locks are released. The tree
  -- is as above, and the abort record is written. Here
  -- `calls` are the transaction's calls with this one.
  pub deadlock_restores :
      (w : World) (h : Handler tree text) (key value rest rest' : Bytes)
      → h.is_open ≡ true
      → read_string h.input ≡ (some key, rest)
      → read_string rest ≡ (some value, rest')
      → Txn.put tree w.env key value h.session ≡ (throws deadlock, Txn.run tree calls s)
      → w.abort_io ≡ done
      → let h' = ClientHandler.handle_put tree text w h in
        (h'.is_open ≡ false)
        × (h'.sent ≡ h.sent ++ response status_deadlock [])
        × (h'.input ≡ rest')
        × ((k : Bytes) → tree.get h'.session.state k ≡ tree.get t0 k)
        × (h'.session.locks
            ≡ release_all (Txn.run tree calls s).locks (Txn.run tree calls s).txn_id)
  unfolding ClientHandler.handle_put ClientHandler.settle ClientHandler.reset ClientHandler.destroy
  deadlock_restores w h key value rest rest' opened k v threw written =
      let (returned, restored, released) =
        rollback_restores tree t0 fit s calls fresh unwritten handled live in
      rw ended (refl, refl, refl, restored, released)
    where
      after : Session tree → Handler tree text
      after x = record {
        session = x;
        is_open = false;
        is_stopped = h.is_stopped;
        input = rest';
        sent = h.sent ++ response status_deadlock [];
      }

      ended :
          ClientHandler.handle_put tree text w h
          ≡ after (Txn.rollback tree done (Txn.run tree calls s)).1
      ended =
          if_false (not h.is_open) _ _ (ap not opened)
          ∙ rw (k, v, threw, written) (ap after (if_false _ _ _ live))
