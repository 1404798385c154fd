-- ===== src/Wal/Recovery/Values.antt =====
-- Redo and undo, seen at one key.
use key_v_db.Common.{
  true, ◌⊎◌, ℕ, ◌≡◌, refl, ap, ◌∙◌, Bool, false, not, ◌&&◌, Option, none, some, List, [], ◌∷◌,
  arith, All, ◌==◌, nat_eq, if◌then◌else◌, is_empty, Bool-cases, inl, inr,
}
use key_v_db.Common.Assoc.{contains}
use key_v_db.Common.Bytes.{Bytes, bytes_eq}
use key_v_db.Common.Result.{Result, ok}
use key_v_db.Btree.{Tree, too_large}
use key_v_db.Btree
use key_v_db.Wal.{WalRecord, write_type}
use key_v_db.Wal.Recovery.{redo_step, redo_from, undo_step, undo}

-- The record is a write to the key.
abbrev pub writes : WalRecord → Bytes → Bool
writes r k = r.type == write_type && r.key == k

-- An empty after-image stands for a deletion.
abbrev pub after_image : WalRecord → Option Bytes
after_image r = if is_empty r.after_val then none else some r.after_val

abbrev pub before_image : WalRecord → Option Bytes
before_image r = if r.before_exists then some r.before_val else none

abbrev pub redo_value : List ℕ → Bytes → List WalRecord → Option Bytes → Option Bytes
redo_value aborted k [] d = d
redo_value aborted k (r ∷ rs) d =
    redo_value aborted k rs
      (if writes r k && not (contains r.txn_id aborted) then after_image r else d)

abbrev pub undo_value : List ℕ → Bytes → List WalRecord → Option Bytes → Option Bytes
undo_value losers k [] d = d
undo_value losers k (r ∷ rs) d =
    let later = undo_value losers k rs d in
    if writes r k && contains r.txn_id losers then before_image r else later

module _ (tree : Tree) where
  open tree use {State, get, put, remove, fits-small, get-put, get-remove}

  -- The tree can take in both images of the record, if it is that of a write.
  abbrev pub Fits : WalRecord → Type 0
  Fits r =
      ((r.type == write_type) ≡ false)
      ⊎ ((tree.fits r.key r.after_val ≡ true) × (tree.fits r.key r.before_val ≡ true))

  images :
      (r : WalRecord)
      → Fits r
      → (r.type == write_type) ≡ true
      → (tree.fits r.key r.after_val ≡ true) × (tree.fits r.key r.before_val ≡ true)
  images r (inl other) write = cc
  images r (inr fits) write = fits

  abbrev Shows : Result State → (Bytes → Option Bytes) → Type 0
  Shows r f = (s : State) × (r ≡ ok s) × ((k : Bytes) → get s k ≡ f k)

  redo_step-Shows :
      (ab : List ℕ) (r : WalRecord) (s : State)
      → Fits r
      → Shows
          (redo_step tree ab r s)
          (λ k. if writes r k && not (contains r.txn_id ab) then after_image r else get s k)
  unfolding redo_step Btree.insert
  redo_step-Shows ab r s fits = elim (Bool-cases (r.type == write_type)) [
    | inr other ↦ (s, rw other refl, λ k. rw other refl)
    | inl write ↦ elim (Bool-cases (contains r.txn_id ab)) [
      | inl skipped ↦ (s, rw (write, skipped) refl, λ k. rw (write, skipped) (ground arith))
      | inr kept ↦ elim (Bool-cases (is_empty r.after_val)) [
        | inl gone ↦ (
          remove r.key s,
          rw (write, kept, gone) refl,
          λ k. rw (write, kept, gone, get-remove r.key k s) (ground arith),
        )
        | inr value ↦ (
          put r.key r.after_val s,
          rw (write, kept, value, fits-small r.key r.after_val (images r fits write).0) refl,
          λ k.
              rw (write, kept, value, get-put r.key k r.after_val s (images r fits write).0)
                (ground arith),
        )
      ]
    ]
  ]

  undo_step-Shows :
      (lo : List ℕ) (r : WalRecord) (s : State)
      → Fits r
      → Shows
          (undo_step tree lo r s)
          (λ k. if writes r k && contains r.txn_id lo then before_image r else get s k)
  unfolding undo_step Btree.insert
  undo_step-Shows lo r s fits = elim (Bool-cases (r.type == write_type)) [
    | inr other ↦ (s, rw other refl, λ k. rw other refl)
    | inl write ↦ elim (Bool-cases (contains r.txn_id lo)) [
      | inr kept ↦ (s, rw (write, kept) refl, λ k. rw (write, kept) (ground arith))
      | inl undone ↦ elim (Bool-cases r.before_exists) [
        | inr gone ↦ (
          remove r.key s,
          rw (write, undone, gone) refl,
          λ k. rw (write, undone, gone, get-remove r.key k s) (ground arith),
        )
        | inl value ↦ (
          put r.key r.before_val s,
          rw (write, undone, value, fits-small r.key r.before_val (images r fits write).1) refl,
          λ k.
              rw (write, undone, value, get-put r.key k r.before_val s (images r fits write).1)
                (ground arith),
        )
      ]
    ]
  ]

  -- Over records that fit, redo returns, and leaves at each key what `redo_value` says.
  pub redo_from-Shows :
      (ab : List ℕ) (rs : List WalRecord) (s : State)
      → All Fits rs
      → Shows (redo_from tree ab rs s) (λ k. redo_value ab k rs (get s k))
  unfolding redo_from
  redo_from-Shows ab [] s fits = (s, refl, λ k. refl)
  redo_from-Shows ab (r ∷ rs) s fits =
      let (s', e, at) = redo_step-Shows ab r s fits.0 in
      let (t, e', at') = redo_from-Shows ab rs s' fits.1 in
      (t, rw e e', λ k. at' k ∙ ap (redo_value ab k rs) (at k))

  pub undo-Shows :
      (lo : List ℕ) (rs : List WalRecord) (s : State)
      → All Fits rs
      → Shows (undo tree lo rs s) (λ k. undo_value lo k rs (get s k))
  unfolding undo
  undo-Shows lo [] s fits = (s, refl, λ k. refl)
  undo-Shows lo (r ∷ rs) s fits =
      let (s', e, at) = undo-Shows lo rs s fits.1 in
      let (t, e', at') = undo_step-Shows lo r s' fits.0 in (t, rw e e', λ k. rw (at' k, at k) refl)
