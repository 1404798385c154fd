-- ===== src/Txn/Rollback.antt =====
-- Rollback gives back the contents of the tree from before the transaction.
use key_v_db.Common.{
  ◌≡◌, refl, sym, ap, ◌∙◌, Bool, true, false, Option, none, some, List, [], ◌∷◌, All, ◌==◌,
  if◌then◌else◌, ◌⊎◌, Bool-cases, Option-cases, inl, inr, Eq-cases,
}
use key_v_db.Common.Assoc
use key_v_db.Common.Assoc.{find, find-put}
use key_v_db.Common.Bytes.{Bytes, bytes_eq}
use key_v_db.Common.Result.{ok, Io, done, failed, short}
use key_v_db.Btree.{Tree, too_large}
use key_v_db.Btree
use key_v_db.Lock.{release_all, LockOutcome, granted, timed_out, waiting}
use key_v_db.Lock
use key_v_db.Wal.Log.{append_abort, append_write, append_record}
use key_v_db.Txn
use key_v_db.Txn.{
  WriteEntry, WriteSet, Session, Outcome, returns, throws, pending, Env, Call, gets, puts, deletes,
  next_entry,
}

-- What the entry puts back.
abbrev pub image : WriteEntry → Option Bytes
image e = if e.before_exists then some e.before_val else none

module _ (tree : Tree) (t0 : tree.State) where
  -- Every entry holds the value from before the transaction, and a key without an entry has it.
  pub record Inv (s : Session tree) : Type 0 where
    pub entries : All (λ (p : Bytes × WriteEntry). image p.1 ≡ tree.get t0 p.0) s.write_set
    pub elsewhere : (k : Bytes) → find k s.write_set ≡ none → tree.get s.state k ≡ tree.get t0 k

  abbrev Holds0 : Bytes × WriteEntry → Type 0
  Holds0 p = image p.1 ≡ tree.get t0 p.0

  entry-put :
      (k : Bytes) (e : WriteEntry) (ws : WriteSet)
      → image e ≡ tree.get t0 k
      → All Holds0 ws
      → All Holds0 (Assoc.put k e ws)
  unfolding Assoc.put
  entry-put k e [] h all = (h, tt)
  entry-put k e ((j, f) ∷ ws) h all = elim (Bool-cases (j == k)) [
    | inl same ↦ rw same (h, all.1)
    | inr other ↦ rw other (all.0, entry-put k e ws h all.1)
  ]

  entry-find :
      (k : Bytes) (e : WriteEntry) (ws : WriteSet)
      → find k ws ≡ some e
      → All Holds0 ws
      → image e ≡ tree.get t0 k
  unfolding find
  entry-find k e [] h all = cc
  entry-find k e ((j, f) ∷ ws) h all = elim (Eq-cases j k) [
    | inl same ↦ let hit : some f ≡ some e = rw same.1 at h in cc (all.0, same.0)
    | inr other ↦ entry-find k e ws (rw other.1 at h) all.1
  ]

  -- The entry that a write leaves keeps the value from before the transaction.
  next-image :
      (k : Bytes) (value : Bytes) (s : Session tree)
      → Inv s
      → image (next_entry tree (find k s.write_set) (tree.get s.state k) value) ≡ tree.get t0 k
  next-image k value s inv = elim (Option-cases (find k s.write_set)) [
    | inr (e, hit) ↦ rw hit (entry-find k e s.write_set hit inv.entries)
    | inl new ↦ rw (new, inv.elsewhere k new) (fresh (tree.get t0 k))
  ]
    where
      fresh : (o : Option Bytes) → image (next_entry tree none o value) ≡ o
      fresh none = refl
      fresh (some old) = refl

  missing :
      (k j : Bytes) (e : WriteEntry) (ws : WriteSet)
      → find j (Assoc.put k e ws) ≡ none
      → ((k == j) ≡ false) × (find j ws ≡ none)
  missing k j e ws h = elim (Bool-cases (k == j)) [
    | inl same ↦ let hit = rw (find-put k j e ws, same) at h in cc
    | inr other ↦ (other, rw (find-put k j e ws, other) at h)
  ]

  -- A write to one key, whether or not the tree was reached.
  wrote :
      (key value : Bytes) (s s' : Session tree)
      → Inv s
      → s'.write_set
        ≡ Assoc.put key
            (next_entry tree (find key s.write_set) (tree.get s.state key) value)
            s.write_set
      → ((j : Bytes) → (key == j) ≡ false → tree.get s'.state j ≡ tree.get s.state j)
      → Inv s'
  wrote key value s s' inv e same = record {
    entries = rw e (entry-put key _ s.write_set (next-image key value s inv) inv.entries);
    elsewhere =
        λ j h. let m = missing key j _ s.write_set (rw e at h) in same j m.0 ∙ inv.elsewhere j m.1;
  }

  put-apart :
      (key value : Bytes) (t : tree.State)
      → tree.fits key value ≡ true
      → (j : Bytes) → (key == j) ≡ false
      → tree.get (tree.put key value t) j ≡ tree.get t j
  put-apart key value t fits j ne = rw (tree.get-put key j value t fits, ne) refl

  remove-apart :
      (key : Bytes) (t : tree.State)
      → (j : Bytes) → (key == j) ≡ false
      → tree.get (tree.remove key t) j ≡ tree.get t j
  remove-apart key t j ne = rw (tree.get-remove key j t, ne) refl

  -- `BTree::insert` refuses the cell by its size, or takes it in as its contract says.
  abbrev Handles : Bytes → Bytes → Type 0
  Handles key value = (too_large key value ≡ true) ⊎ (tree.fits key value ≡ true)

  put_locked-Inv :
      (io : Io) (key value : Bytes) (s : Session tree)
      → Handles key value
      → Inv s
      → Inv (Txn.put_locked tree io key value s).1
  unfolding Txn.put_locked append_write append_record Btree.insert
  put_locked-Inv done key value s (inl large) inv =
      rw large (wrote key value s _ inv refl (λ j ne. refl))
  put_locked-Inv done key value s (inr fits) inv =
      rw (tree.fits-small key value fits)
        (wrote key value s _ inv refl (put-apart key value s.state fits))
  put_locked-Inv failed key value s handled inv = wrote key value s _ inv refl (λ j ne. refl)
  put_locked-Inv (short n) key value s handled inv = wrote key value s _ inv refl (λ j ne. refl)

  delete_found-Inv :
      (io : Io) (key : Bytes) (o : Option Bytes) (s : Session tree)
      → tree.get s.state key ≡ o
      → Inv s
      → Inv (Txn.delete_found tree io key o s).1
  unfolding append_write append_record
  delete_found-Inv io key none s e inv = inv
  delete_found-Inv done key (some old) s e inv =
      wrote key [] s _ inv (rw e refl) (remove-apart key s.state)
  delete_found-Inv failed key (some old) s e inv = wrote key [] s _ inv (rw e refl) (λ j ne. refl)
  delete_found-Inv (short n) key (some old) s e inv =
      wrote key [] s _ inv (rw e refl) (λ j ne. refl)

  locks-Inv : (s : Session tree) (lm : Lock.LockManager) → Inv s → Inv (record s { locks = lm })
  locks-Inv s lm inv = record { entries = inv.entries; elsewhere = inv.elsewhere }

  locked-Inv :
      {A : Type 0} (r : LockOutcome × Lock.LockManager) (s : Session tree)
      (body : Session tree → Outcome A × Session tree)
      → Inv s
      → ((s' : Session tree) → Inv s' → Inv (body s').1)
      → Inv (Txn.locked tree r s body).1
  locked-Inv (granted, lm) s body inv keep = keep _ (locks-Inv s lm inv)
  locked-Inv (timed_out, lm) s body inv keep = locks-Inv s lm inv
  locked-Inv (waiting, lm) s body inv keep = locks-Inv s lm inv

  if-Inv :
      {A : Type 0} (b : Bool) (x y : Outcome A × Session tree)
      → Inv x.1
      → Inv y.1
      → Inv (if b then x else y).1
  if-Inv true x y h k = h
  if-Inv false x y h k = k

  get-Inv : (env : Env) (key : Bytes) (s : Session tree) → Inv s → Inv (Txn.get tree env key s).1
  unfolding Txn.get
  get-Inv env key s inv = if-Inv s.finished _ _ inv (locked-Inv _ s _ inv (λ s' inv'. inv'))

  put-Inv :
      (env : Env) (key value : Bytes) (s : Session tree)
      → Handles key value
      → Inv s
      → Inv (Txn.put tree env key value s).1
  unfolding Txn.put
  put-Inv env key value s handled inv =
      if-Inv s.finished _ _ inv
        (locked-Inv _ s _ inv (λ s' inv'. put_locked-Inv env.io key value s' handled inv'))

  delete-Inv :
      (env : Env) (key : Bytes) (s : Session tree) → Inv s → Inv (Txn.delete tree env key s).1
  unfolding Txn.delete Txn.delete_locked
  delete-Inv env key s inv = if-Inv s.finished _ _ inv (
      locked-Inv _ s _ inv
        (λ s' inv'. delete_found-Inv env.io key (tree.get s'.state key) s' refl inv'))

  -- Every value that the calls write is refused by its size or taken in.
  abbrev pub AllHandled : List (Call tree) → Type 0
  AllHandled [] = Unit {0}
  AllHandled (gets env key ∷ calls) = AllHandled calls
  AllHandled (deletes env key ∷ calls) = AllHandled calls
  AllHandled (puts env key value ∷ calls) = Handles key value × AllHandled calls

  -- No call of a client before the end breaks the invariant, however it ends.
  run-Inv :
      (calls : List (Call tree)) (s : Session tree)
      → AllHandled calls
      → Inv s
      → Inv (Txn.run tree calls s)
  unfolding Txn.run
  run-Inv [] s handled inv = inv
  run-Inv (gets env key ∷ calls) s handled inv = run-Inv calls _ handled (get-Inv env key s inv)
  run-Inv (deletes env key ∷ calls) s handled inv =
      run-Inv calls _ handled (delete-Inv env key s inv)
  run-Inv (puts env key value ∷ calls) s handled inv =
      run-Inv calls _ handled.1 (put-Inv env key value s handled.0 inv)

  -- The cells of the tree are ones that it can take in again.
  abbrev pub AllFit : Type 0
  AllFit = (k v : Bytes) → tree.get t0 k ≡ some v → tree.fits k v ≡ true

  begun : (s : Session tree) → s.state ≡ t0 → s.write_set ≡ [] → Inv s
  begun s e w = record { entries = rw w tt; elsewhere = λ k h. rw e refl }

  module _ (fit : AllFit) where
    undo_entry-get :
        (k : Bytes) (e : WriteEntry) (t : tree.State)
        → image e ≡ tree.get t0 k
        → (t' : tree.State) × (Txn.undo_entry tree k e t ≡ ok t')
          × ((j : Bytes) → tree.get t' j ≡ (if k == j then image e else tree.get t j))
    unfolding Btree.insert
    undo_entry-get k e t h = elim (Bool-cases e.before_exists) [
      | inr absent ↦ (tree.remove k t, rw absent refl, λ j. rw (absent) (tree.get-remove k j t))
      | inl there ↦
          let takes : tree.fits k e.before_val ≡ true =
            fit k e.before_val (sym h ∙ rw there refl) in
          (
            tree.put k e.before_val t,
            rw (there, tree.fits-small k e.before_val takes) refl,
            λ j. rw there (tree.get-put k j e.before_val t takes),
          )
    ]

    undo_all-restores :
        (ws : WriteSet) (t : tree.State)
        → All Holds0 ws
        → ((k : Bytes) → find k ws ≡ none → tree.get t k ≡ tree.get t0 k)
        → (t' : tree.State) × (Txn.undo_all tree ws t ≡ (ok tt, t'))
          × ((k : Bytes) → tree.get t' k ≡ tree.get t0 k)
    unfolding Txn.undo_all find
    undo_all-restores [] t all rest = (t, refl, λ k. rest k refl)
    undo_all-restores ((k, e) ∷ ws) t all rest =
        let (t1, p, at) = undo_entry-get k e t all.0 in
        let (t2, q, at') = undo_all-restores ws t1 all.1 (settled t1 at) in
        (t2, rw (p, Txn.undo_all) q, at')
      where
        settled :
            (t1 : tree.State)
            → ((j : Bytes) → tree.get t1 j ≡ (if k == j then image e else tree.get t j))
            → (j : Bytes) → find j ws ≡ none
            → tree.get t1 j ≡ tree.get t0 j
        settled t1 at j h = elim (Eq-cases k j) [
          | inl same ↦ at j ∙ rw same.1 (all.0 ∙ ap (tree.get t0) same.0)
          | inr other ↦ at j ∙ rw other.1 (rest j (rw other.1 h))
        ]

    rolled_back :
        (s : Session tree)
        → Inv s
        → s.finished ≡ false
        → ((Txn.rollback tree done s).0 ≡ returns tt)
          × ((k : Bytes) → tree.get (Txn.rollback tree done s).1.state k ≡ tree.get t0 k)
          × ((Txn.rollback tree done s).1.locks ≡ release_all s.locks s.txn_id)
    unfolding Txn.rollback append_abort append_record
    rolled_back s inv live =
        let (t', p, at) = undo_all-restores s.write_set s.state inv.entries inv.elsewhere in
        (rw (live, p) refl, λ k. rw (live, p, p) (at k), rw (live, p) refl)

    -- Over a tree that keeps its contract, whatever reads, writes and deletes a transaction makes,
    -- however each of them ends, `Rollback` returns, and leaves at every key the value from before the
    -- transaction; its locks are released. The tree can take in its earlier cells and those that the
    -- transaction writes, or refuses the latter by their size; the abort record is written.
    pub rollback_restores :
        (s : Session tree) (calls : List (Call tree))
        → s.state ≡ t0
        → s.write_set ≡ []
        → AllHandled calls
        → (Txn.run tree calls s).finished ≡ false
        → let r = Txn.rollback tree done (Txn.run tree calls s) in
          (r.0 ≡ returns tt)
          × ((k : Bytes) → tree.get r.1.state k ≡ tree.get t0 k)
          × (r.1.locks ≡ release_all (Txn.run tree calls s).locks (Txn.run tree calls s).txn_id)
    rollback_restores s calls at_start none_written handled live =
        rolled_back (Txn.run tree calls s) (run-Inv calls s handled (begun s at_start none_written))
          live
