-- ===== src/Wal/Recovery/Atomic.antt =====
-- What recovery restores: at each key the value of the last committed write.
use key_v_db.Common.{
  ℕ, ◌≡◌, ◌⊎◌, refl, ap, ◌∙◌, sym, Bool, true, false, not, ◌&&◌, ◌||◌, Option, List, [], ◌∷◌, arith,
  All, nat_eq, if◌then◌else◌, inl, inr, length,
}
use key_v_db.Common.Assoc.{contains}
use key_v_db.Common.Bytes.{Bytes}
use key_v_db.Common.Result.{ok}
use key_v_db.Btree.{Tree}
use key_v_db.Wal.{WalRecord, commit_type, abort_type}
use key_v_db.Wal.Log.{LogManager}
use key_v_db.Wal.Read.{read_all}
use key_v_db.Wal.Recovery.{ended, analysis, analysis_from, redo, recover}
use key_v_db.Wal.Recovery.Values.{
  writes, after_image, before_image, redo_value, undo_value, Fits, redo_from-Shows, undo-Shows,
}

-- The specification: the effect of the committed writes alone, in the order of the log.
abbrev pub committed_value : List ℕ → Bytes → List WalRecord → Option Bytes → Option Bytes
committed_value committed k [] v = v
committed_value committed k (r ∷ rs) v =
    committed_value committed k rs
      (if writes r k && contains r.txn_id committed then after_image r else v)

-- All later writes to the key are the same transaction's, and log the same before-image.
abbrev pub OnlyBy : ℕ → Option Bytes → Bytes → List WalRecord → Type 0
OnlyBy t v k [] = Unit {0}
OnlyBy t v k (r ∷ rs) =
    (writes r k ≡ true → (r.txn_id ≡ t) × (before_image r ≡ v)) × OnlyBy t v k rs

-- A log of one key as strict two-phase locking leaves it, `v` being the committed value so far: a
-- transaction that is still open at the end holds its exclusive lock from its first write on, and
-- logs the value that it found.
pub data IsLogged (co ab lo : List ℕ) (k : Bytes) : Option Bytes → List WalRecord → Type 0 where
  at_end : {v : Option Bytes} → IsLogged co ab lo k v []
  other :
      {v : Option Bytes} {r : WalRecord} {rs : List WalRecord}
      → writes r k ≡ false
      → IsLogged co ab lo k v rs
      → IsLogged co ab lo k v (r ∷ rs)
  committed :
      {v : Option Bytes} {r : WalRecord} {rs : List WalRecord}
      → writes r k ≡ true
      → contains r.txn_id co ≡ true
      → IsLogged co ab lo k (after_image r) rs
      → IsLogged co ab lo k v (r ∷ rs)
  aborted :
      {v : Option Bytes} {r : WalRecord} {rs : List WalRecord}
      → writes r k ≡ true
      → contains r.txn_id ab ≡ true
      → IsLogged co ab lo k v rs
      → IsLogged co ab lo k v (r ∷ rs)
  losing :
      {v : Option Bytes} {r : WalRecord} {rs : List WalRecord}
      → writes r k ≡ true
      → contains r.txn_id lo ≡ true
      → before_image r ≡ v
      → OnlyBy r.txn_id v k rs
      → IsLogged co ab lo k v (r ∷ rs)

-- A transaction ends one way at most.
pub record AreDisjoint (co ab lo : List ℕ) : Type 0 where
  pub of_committed :
      (t : ℕ) → contains t co ≡ true → (contains t ab ≡ false) × (contains t lo ≡ false)
  pub of_aborted :
      (t : ℕ) → contains t ab ≡ true → (contains t co ≡ false) × (contains t lo ≡ false)
  pub of_losing : (t : ℕ) → contains t lo ≡ true → (contains t co ≡ false) × (contains t ab ≡ false)

-- Some write to the key is redone.
abbrev pub is_redone : List ℕ → Bytes → List WalRecord → Bool
is_redone ab k [] = false
is_redone ab k (r ∷ rs) = (writes r k && not (contains r.txn_id ab)) || is_redone ab k rs

module _ (co ab lo : List ℕ) (k : Bytes) (apart : AreDisjoint co ab lo) where
  only-undo :
      (t : ℕ) (v : Option Bytes) (rs : List WalRecord)
      → contains t lo ≡ true
      → OnlyBy t v k rs
      → committed_value co k rs v ≡ v
  only-undo t v [] loses o = refl
  only-undo t v (r ∷ rs) loses o = rw (keeps) (only-undo t v rs loses o.1)
    where
      keeps : (if writes r k && contains r.txn_id co then after_image r else v) ≡ v
      keeps = ground (arith, o.0, apart.of_losing t loses)

  -- Redo and undo together give the committed value, from a disk that has it or a key that is redone.
  restored :
      {v : Option Bytes} {rs : List WalRecord}
      → IsLogged co ab lo k v rs
      → (d : Option Bytes) → (d ≡ v) ⊎ (is_redone ab k rs ≡ true)
      → undo_value lo k rs (redo_value ab k rs d) ≡ committed_value co k rs v
  restored at_end d (inl e) = e
  restored at_end d (inr h) = cc
  restored (other {r = r} no' w) d start = rw no' (restored w d (rw no' at start))
  restored (committed {r = r} yes' c w) d start =
      let off = apart.of_committed r.txn_id c in
      rw (yes', c, off.0, off.1) (restored w (after_image r) (inl refl))
  restored (aborted {r = r} yes' a w) d start =
      let off = apart.of_aborted r.txn_id a in
      rw (yes', a, off.0, off.1) (restored w d (rw (yes', a) at start))
  restored (losing {v = v} {r = r} {rs = rs} yes' l b o) d start =
      let off = apart.of_losing r.txn_id l in
      rw (yes', l, off.0) (b ∙ sym (only-undo r.txn_id v rs l o))

-- After a crash, whatever part of the work had reached the disk, recovery over a tree that keeps its
-- contract succeeds, and leaves a key as its last committed write record reads: with the after-image
-- as its value, or absent where that image is empty, as the code takes it. The writes of transactions
-- that were open are undone, and those of aborted ones are not repeated. The tree can take in the
-- images of all logged writes, no transaction has two endings, the key's records in the log are as
-- two-phase locking leaves them, and the key has a write to redo or its committed value on disk.
pub recover_committed :
    (tree : Tree) (lm : LogManager) (s : tree.State) (rs : List WalRecord) (k : Bytes)
    (v : Option Bytes)
    → read_all lm ≡ ok rs
    → All (Fits tree) rs
    → AreDisjoint (ended commit_type rs) (ended abort_type rs) (analysis rs)
    → IsLogged (ended commit_type rs) (ended abort_type rs) (analysis rs) k v rs
    → (tree.get s k ≡ v) ⊎ (is_redone (ended abort_type rs) k rs ≡ true)
    → (s' : tree.State) × (recover tree lm s ≡ ok (s', length (analysis rs)))
      × (tree.get s' k ≡ committed_value (ended commit_type rs) k rs v)
unfolding recover redo
recover_committed tree lm s [] k v e fits apart w start = (
  s,
  rw (e, recover) (unfold analysis analysis_from in refl),
  elim start [ inl same ↦ same | inr never ↦ cc ],
)
recover_committed tree lm s (r ∷ rs) k v e fits apart w start =
    let (s', p, at) = redo_from-Shows tree (ended abort_type (r ∷ rs)) (r ∷ rs) s fits in
    let (t, q, at') = undo-Shows tree (analysis (r ∷ rs)) (r ∷ rs) s' fits in
    (
      t,
      rw (e, p, q) refl,
      at' k
          ∙ ap (undo_value (analysis (r ∷ rs)) k (r ∷ rs)) (at k)
          ∙ restored _ _ _ k apart w (tree.get s k) start,
    )
