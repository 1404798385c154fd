-- ===== src/Btree/Node/Append.antt =====
-- src/btree/node.cpp, the loops of `split_into` and `merge_from`: cells that are inserted one by one
-- behind those of a page, and the last cells removed.
use key_v_db.Common.{
  ℕ, zero, suc, ◌+◌, ◌<◌, ◌≤◌, ◌≡◌, refl, sym, ap, ◌∙◌, subst, Bool, true, none, List, [], ◌∷◌,
  ◌++◌, length, take, arith, append_assoc, append-nil, take_of_length-le,
}
use key_v_db.Common.Assoc.{find}
use key_v_db.Common.Bytes.{Bytes, bytes_eq}
use key_v_db.Common.Result.{Result, ok}
use key_v_db.Btree.Slotted.{Slotted, insert_at, place, remove_back, slot_of}
use key_v_db.Btree.Slotted.Capacity.{live, IsLaidOut, insert_at-length, length-remove_at}
use key_v_db.Btree.Slotted.Room.{
  placed, place-placed, placed-IsLaidOut, placed-cells, live-append, fits-snoc,
}
use key_v_db.Btree.Slotted.Ordered.{
  IsValid, slot_of-IsValid, is_at-IsValid, removed, remove_cell-removed, removed-IsValid,
}
use key_v_db.Btree.Cells.{Increasing}
use key_v_db.Btree.Cells.Runs.{Increasing-append, rank-last, find-last, take-remove_at}
use key_v_db.Btree.Node.{leaf_size, internal_size, insert_leaf_cell, insert_separator, insert_all}

module _ {V : Type 0} (cell_size : Bytes → V → ℕ) where
  -- An insertion that writes a cell of a new key where `lower_bound` says.
  abbrev pub Places : (Bytes → V → Slotted V → Result (Bool × Slotted V)) → Type 0
  Places insert =
      (key : Bytes) (v : V) (s : Slotted V)
      → IsValid cell_size s
      → find key s.cells ≡ none
      → insert key v s ≡ place cell_size (slot_of key s) key v s

  module _ (insert : Bytes → V → Slotted V → Result (Bool × Slotted V))
      (places : Places insert) where
    pub insert-last :
        (key : Bytes) (v : V) (s : Slotted V)
        → IsLaidOut cell_size s
        → Increasing (s.cells ++ ((key, v) ∷ []))
        → live cell_size (s.cells ++ ((key, v) ∷ [])) ≤ 4040
        → (s' : Slotted V) × (insert key v s ≡ ok (true, s'))
          × IsLaidOut cell_size s'
          × (s'.cells ≡ s.cells ++ ((key, v) ∷ []))
    insert-last key v s o inc le =
        let valid : IsValid cell_size s = record {
          laid_out = o;
          increasing = (Increasing-append s.cells ((key, v) ∷ []) inc).0;
        } in
        let slot : slot_of key s ≡ length s.cells =
          slot_of-IsValid cell_size key s valid ∙ rank-last s.cells [] key v inc in
        let room = fits-snoc cell_size s.cells key v le in
        (
          placed cell_size (slot_of key s) key v s o,
          places key v s valid (find-last s.cells [] key v inc)
              ∙ place-placed cell_size (slot_of key s) key v s o
              ∙ ap (λ b. ok (b, placed cell_size (slot_of key s) key v s o)) room,
          placed-IsLaidOut cell_size (slot_of key s) key v s o,
          placed-cells cell_size (slot_of key s) key v s o room
              ∙ ap (λ i. insert_at i (key, v) s.cells) slot
              ∙ insert_at-length (key, v) s.cells,
        )

    -- Cells with greater keys are appended, if they fit.
    pub insert_all-append :
        (cells : List (Bytes × V)) (s : Slotted V)
        → IsLaidOut cell_size s
        → Increasing (s.cells ++ cells)
        → live cell_size (s.cells ++ cells) ≤ 4040
        → (s' : Slotted V) × (insert_all insert cells s ≡ ok s')
          × IsLaidOut cell_size s'
          × (s'.cells ≡ s.cells ++ cells)
    unfolding insert_all
    insert_all-append [] s o inc le = (s, refl, o, sym (append-nil s.cells))
    insert_all-append ((key, v) ∷ cells) s o inc le =
        let assoc : s.cells ++ ((key, v) ∷ cells) ≡ (s.cells ++ ((key, v) ∷ [])) ++ cells =
          sym (append_assoc s.cells ((key, v) ∷ []) cells) in
        let inc' = subst Increasing assoc inc in
        let le' = subst (λ xs. live cell_size xs ≤ 4040) assoc le in
        let (s1, runs, o1, e1) =
          insert-last key v s o (Increasing-append (s.cells ++ ((key, v) ∷ [])) cells inc').0
            (omega (arith, le', live-append cell_size (s.cells ++ ((key, v) ∷ [])) cells)) in
        let behind : (s.cells ++ ((key, v) ∷ [])) ++ cells ≡ s1.cells ++ cells =
          ap (λ xs. xs ++ cells) (sym e1) in
        let (s2, runs2, o2, e2) =
          insert_all-append cells s1 o1 (subst Increasing behind inc')
            (subst (λ xs. live cell_size xs ≤ 4040) behind le') in
        (s2, rw runs runs2, o2, e2 ∙ sym behind ∙ sym assoc)

  -- The slots from `from` on are removed, the last one first.
  pub remove_back-take :
      (count from : ℕ) (s : Slotted V)
      → IsValid cell_size s
      → length s.cells ≡ from + count
      → (s' : Slotted V) × (remove_back count from s ≡ ok s')
        × IsValid cell_size s'
        × (s'.cells ≡ take from s.cells)
  unfolding remove_back
  remove_back-take zero from s v h =
      (s, refl, v, sym (take_of_length-le from s.cells (omega (arith, h))))
  remove_back-take (suc count) from s v h =
      let less : from + count < length s.cells = omega (arith, h) in
      let (s', runs, v', e) =
        remove_back-take count from (removed (from + count) s)
          (removed-IsValid cell_size (from + count) s v less)
          (omega (arith, h, length-remove_at (from + count) s.cells less)) in
      (
        s',
        rw (remove_cell-removed cell_size (from + count) s v less) runs,
        v',
        e ∙ take-remove_at from (from + count) s.cells (omega arith),
      )

pub insert_leaf_cell-Places : Places leaf_size insert_leaf_cell
unfolding insert_leaf_cell
insert_leaf_cell-Places key v s valid absent = rw (is_at-IsValid leaf_size key s valid, absent) refl

pub insert_separator-Places : Places internal_size insert_separator
unfolding insert_separator
insert_separator-Places key v s valid absent = refl
