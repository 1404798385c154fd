-- ===== src/Btree/Node/InsertLeaf.antt =====
-- src/btree/node.cpp, `Node::insert_leaf_cell`: the contents of a leaf after it.
use key_v_db.Common.{
  ◌+◌, ◌*◌, ◌≡◌, refl, sym, ap, ◌∙◌, subst, Bool, true, false, none, some, List, length, get_elem?,
  set, leb, nat_eq, if◌then◌else◌, arith, Bool-cases, inl, inr, Eq-cases, ◌==◌, length-set,
  get_elem?-lt, Option-cases, beq_refl,
}
use key_v_db.Common.Assoc.{find, remove, find-remove}
use key_v_db.Common.Bytes.{Bytes, bytes_eq}
use key_v_db.Common.Result.{ok}
use key_v_db.Btree.{leaf_cell_size}
use key_v_db.Btree.Slotted.{remove_at, cell_at}
use key_v_db.Btree.Slotted.Capacity.{content, live, packed, fits, length-remove_at}
use key_v_db.Btree.Slotted.Ordered.{
  IsValid, slot_of-IsValid, is_at-IsValid, removed, remove_cell-removed, removed-IsValid,
  place-rank, content-remove_at-get_elem?, content-set,
}
use key_v_db.Btree.Cells.{rank, is_some, get_elem?-rank}
use key_v_db.Btree.Cells.Changes.{remove_at-rank, set-Increasing, find-set, remove_absent}
use key_v_db.Btree.Node.{Leaf, leaf_size, insert_leaf_cell, overwrite}

-- The new cell fits beside the cells of the other keys.
unfoldable pub leaf_fits : Bytes → Bytes → List (Bytes × Bytes) → Bool
leaf_fits key value cells = fits leaf_size key value (remove key cells)

module _ (key value : Bytes) (s : Leaf) (v : IsValid leaf_size s) where
  -- What `insert_leaf_cell` leaves.
  pub record IsInserted (r : Bool × Leaf) : Type 0 where
    pub outcome : r.0 ≡ leaf_fits key value s.cells
    pub valid : IsValid leaf_size r.1
    pub contents :
        (j : Bytes)
        → find j r.1.cells
          ≡ (if key == j then (if r.0 then some value else none) else find j s.cells)
    pub refused : r.0 ≡ false → r.1 ≡ packed leaf_size (remove key s.cells)

  insert_new :
      find key s.cells ≡ none
      → (r : Bool × Leaf) × (insert_leaf_cell key value s ≡ ok r) × IsInserted r
  unfolding insert_leaf_cell leaf_fits
  insert_new absent =
      let (r, runs, p) = place-rank leaf_size key value s v absent in
      let rest = remove_absent key s.cells absent in
      (
        r,
        rw (is_at-IsValid leaf_size key s v, absent) runs,
        record {
          outcome = p.outcome ∙ ap (fits leaf_size key value) (sym rest);
          valid = p.valid;
          contents = p.contents;
          refused = λ h. p.refused h ∙ ap (packed leaf_size) (sym rest);
        },
      )

  module _ (old : Bytes) (present : find key s.cells ≡ some old) where
    here : get_elem? s.cells (rank key s.cells) ≡ some (key, old)
    here = get_elem?-rank key s.cells old v.increasing present

    insert_leaf_cell-overwrite :
        insert_leaf_cell key value s ≡ overwrite (rank key s.cells) key value s
    unfolding insert_leaf_cell
    insert_leaf_cell-overwrite =
        rw (is_at-IsValid leaf_size key s v, present, slot_of-IsValid leaf_size key s v) refl

    gone : remove_at (rank key s.cells) s.cells ≡ remove key s.cells
    gone = remove_at-rank key s.cells v.increasing (ap is_some present)

    abbrev overwritten : Leaf
    overwritten = record s { cells = set s.cells (rank key s.cells) (key, value) }

    same-size : length old ≡ length value → leaf_size key value ≡ leaf_size key old
    unfolding leaf_cell_size
    same-size same = omega (arith, same)

    overwritten-IsValid : length old ≡ length value → IsValid leaf_size overwritten
    overwritten-IsValid same = record {
      laid_out = record {
        slots = omega (arith, v.laid_out.slots, length-set s.cells (rank key s.cells) (key, value));
        apart = v.laid_out.apart;
        inside = omega (
          arith,
          v.laid_out.inside,
          content-set leaf_size (rank key s.cells) s.cells key old value here (same-size same),
        );
      };
      increasing = set-Increasing key value s.cells v.increasing (ap is_some present);
    }

    room : length old ≡ length value → leaf_fits key value s.cells ≡ true
    unfolding leaf_fits fits live
    room same =
        let less = get_elem?-lt s.cells (rank key s.cells) (key, old) here in
        let bytes = content-remove_at-get_elem? leaf_size (rank key s.cells) s.cells key old here in
        subst
          (λ cells.
            leb (content leaf_size cells + 2 * length cells + (2 + leaf_size key value)) 4040
            ≡ true)
          gone
          (ground (
            arith,
            v.laid_out.slots,
            v.laid_out.apart,
            v.laid_out.inside,
            bytes,
            length-remove_at (rank key s.cells) s.cells less,
            same-size same,
          ))

    insert_same :
        length old ≡ length value
        → (r : Bool × Leaf) × (overwrite (rank key s.cells) key value s ≡ ok r) × IsInserted r
    unfolding cell_at
    insert_same same = (
      (true, overwritten),
      rw (here, same, beq_refl (length value)) refl,
      record {
        outcome = sym (room same);
        valid = overwritten-IsValid same;
        contents = λ j. find-set key j value s.cells v.increasing (ap is_some present);
        refused = λ h. cc;
      },
    )

    insert_other :
        (length old == length value) ≡ false
        → (r : Bool × Leaf) × (overwrite (rank key s.cells) key value s ≡ ok r) × IsInserted r
    unfolding cell_at leaf_fits
    insert_other other =
        let s1 = removed (rank key s.cells) s in
        let less = get_elem?-lt s.cells (rank key s.cells) (key, old) here in
        let v1 = removed-IsValid leaf_size (rank key s.cells) s v less in
        let others : (j : Bytes) → find j s1.cells ≡ (if key == j then none else find j s.cells) =
          λ j. ap (find j) gone ∙ find-remove key j s.cells in
        let absent : find key s1.cells ≡ none = others key ∙ rw (beq_refl key) refl in
        let (r, runs, p) = place-rank leaf_size key value s1 v1 absent in
        (
          r,
          rw (here, other, remove_cell-removed leaf_size (rank key s.cells) s v less) runs,
          record {
            outcome = p.outcome ∙ ap (fits leaf_size key value) gone;
            valid = p.valid;
            contents = λ j. p.contents j ∙ elim (Bool-cases (key == j)) [
              | inl same ↦ rw same refl
              | inr differs ↦ rw differs (others j ∙ rw differs refl)
            ];
            refused = λ h. p.refused h ∙ ap (packed leaf_size) gone;
          },
        )

  insert_present :
      (old : Bytes)
      → find key s.cells ≡ some old
      → (r : Bool × Leaf) × (insert_leaf_cell key value s ≡ ok r) × IsInserted r
  insert_present old present =
      rw (insert_leaf_cell-overwrite old present) (elim (Eq-cases (length old) (length value)) [
        | inl same ↦ insert_same old present same.0
        | inr other ↦ insert_other old present other.1
      ])

  -- `insert_leaf_cell` on a valid leaf never fails an assertion. It succeeds exactly if the new cell
  -- fits beside the cells of the other keys, also where removed cells still take bytes; then the key
  -- has the value, and else it is gone and the leaf is packed. No other key changes its value, and
  -- the leaf stays valid.
  pub insert_leaf_cell_lem :
      (r : Bool × Leaf) × (insert_leaf_cell key value s ≡ ok r) × IsInserted r
  insert_leaf_cell_lem = elim (Option-cases (find key s.cells)) [
    | inl absent ↦ insert_new absent
    | inr present ↦ insert_present present.0 present.1
  ]
