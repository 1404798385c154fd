-- ===== src/Btree/Node/Split.antt =====
-- src/btree/node.cpp, `Node::split_into`: the two halves of the cells.
use key_v_db.Common.{
  ℕ, suc, ◌+◌, ◌-◌, ◌<◌, ◌≤◌, ◌≡◌, refl, sym, ap, ap₂, ◌∙◌, subst, true, some, ◌∷◌, ◌++◌, length,
  take, drop, get_elem?, arith, leb, length-drop, length-take, nat_eq,
}
use key_v_db.Common.Bytes.{Bytes}
use key_v_db.Common.Result.{ok}
use key_v_db.Btree.Slotted.{cell_at, half_index, remove_back, blank, key_at, key_of}
use key_v_db.Btree.Slotted.Capacity.{live, blank-IsLaidOut, live-le}
use key_v_db.Btree.Slotted.Room.{live-append, live-cons}
use key_v_db.Btree.Slotted.Ordered.{IsValid}
use key_v_db.Btree.Cells.{Increasing}
use key_v_db.Btree.Cells.Runs.{Increasing-append, take-append_drop, drop-get_elem?, get_elem?-some}
use key_v_db.Btree.Node.{
  Leaf, Internal, leaf_size, internal_size, insert_leaf_cell, insert_separator, insert_all,
  split_leaf, split_internal, clamp,
}
use key_v_db.Btree.Node.Append.{
  insert_all-append, remove_back-take, insert_leaf_cell-Places, insert_separator-Places,
}
use key_v_db.Btree.Slotted.Half.{IsPacked, half_index-inside}

-- The two halves of a leaf.
pub record IsLeafSplit (s : Leaf) (sep : Bytes) (left right : Leaf) : Type 0 where
  pub left_valid : IsValid leaf_size left
  pub right_valid : IsValid leaf_size right
  pub whole : left.cells ++ right.cells ≡ s.cells
  pub left_some : 0 < length left.cells
  pub first : key_at right 0 ≡ sep
  pub right_some : 0 < length right.cells
  pub cut : left.cells ≡ take (half_index leaf_size s) s.cells

module _ (s : Leaf) (v : IsValid leaf_size s) (packed : IsPacked leaf_size s)
    (two : 2 ≤ length s.cells) where
  -- A packed leaf with two cells is split into two valid leaves, neither of them empty, whose cells
  -- are the old ones in their order; the separator is the first key on the right.
  pub split_leaf_lem :
      (sep : Bytes) × (left : Leaf) × (right : Leaf) × (split_leaf s blank ≡ ok (sep, left, right))
      × IsLeafSplit s sep left right
  unfolding split_leaf cell_at blank
  split_leaf_lem =
      let idx = half_index leaf_size s in
      let enough : leb 2 (length s.cells) ≡ true = ground (arith, two) in
      let (low, high) = half_index-inside leaf_size s v.laid_out packed two in
      let ((key, value), here) = get_elem?-some idx s.cells high in
      let whole = take-append_drop idx s.cells in
      let cut = ap (live leaf_size) whole in
      let inc =
        (Increasing-append (take idx s.cells) (drop idx s.cells)
          (subst Increasing (sym whole) v.increasing)).1 in
      let (right, right_runs, right_o, right_e) =
        insert_all-append leaf_size insert_leaf_cell insert_leaf_cell-Places (drop idx s.cells)
          blank (blank-IsLaidOut leaf_size) inc
          (omega (
            arith,
            live-le leaf_size v.laid_out,
            cut,
            live-append leaf_size (take idx s.cells) (drop idx s.cells),
          )) in
      let (left, left_runs, left_v, left_e) =
        remove_back-take leaf_size (length s.cells - idx) idx s v (omega (arith, high)) in
      (
        key,
        left,
        right,
        rw (enough, here, right_runs, left_runs) refl,
        record {
          left_valid = left_v;
          right_valid = record {
            laid_out = right_o;
            increasing = subst Increasing (sym right_e) inc;
          };
          whole = ap₂ ◌++◌ left_e right_e ∙ whole;
          left_some = omega (arith, low, high, ap length left_e, length-take idx s.cells);
          first =
              ap (λ xs. key_of (get_elem? xs 0))
                (right_e ∙ drop-get_elem? idx s.cells (key, value) here);
          right_some = omega (arith, high, ap length right_e, length-drop idx s.cells);
          cut = left_e;
        },
      )

-- The two halves of an internal node around the promoted cell.
pub record IsInternalSplit (s : Internal) (sep : Bytes) (child : ℕ) (left right : Internal)
    : Type 0 where
  pub left_valid : IsValid internal_size left
  pub right_valid : IsValid internal_size right
  pub whole : left.cells ++ ((sep, child) ∷ right.cells) ≡ s.cells
  pub left_some : 0 < length left.cells
  pub cut : left.cells ≡ take (half_index internal_size s) s.cells

clamp-inside : (n mid : ℕ) → 0 < mid → mid < n → clamp n mid ≡ mid
clamp-inside n mid pos less = ground (arith, pos, less)

split_internal-runs :
    (s left right : Internal) (mid : ℕ) (key : Bytes) (child : ℕ)
    → leb 2 (length s.cells) ≡ true
    → clamp (length s.cells) (half_index internal_size s) ≡ mid
    → get_elem? s.cells mid ≡ some (key, child)
    → insert_all insert_separator (drop (mid + 1) s.cells) blank ≡ ok right
    → remove_back (length s.cells - mid) mid s ≡ ok left
    → split_internal s blank ≡ ok (key, child, left, right)
unfolding split_internal cell_at blank
split_internal-runs s left right mid key child enough inside here right_runs left_runs =
    rw (enough, inside) (rw (here, right_runs, left_runs) refl)

module _ (s : Internal) (v : IsValid internal_size s) (packed : IsPacked internal_size s)
    (two : 2 ≤ length s.cells) where
  -- A packed internal node with two cells is split into two valid ones around the promoted cell: its
  -- key is the separator, and its child comes first on the right. The cells are the old ones in their
  -- order.
  pub split_internal_lem :
      (sep : Bytes) × (child : ℕ) × (left : Internal) × (right : Internal) × (split_internal s blank
        ≡ ok (sep, child, left, right))
      × IsInternalSplit s sep child left right
  unfolding blank
  split_internal_lem =
      let idx = half_index internal_size s in
      let enough : leb 2 (length s.cells) ≡ true = ground (arith, two) in
      let (low, high) = half_index-inside internal_size s v.laid_out packed two in
      let inside = clamp-inside (length s.cells) idx low high in
      let ((key, child), here) = get_elem?-some idx s.cells high in
      let next : idx + 1 ≡ suc idx = omega arith in
      let whole : take idx s.cells ++ ((key, child) ∷ drop (idx + 1) s.cells) ≡ s.cells =
        ap (λ n. take idx s.cells ++ ((key, child) ∷ drop n s.cells)) next
        ∙ ap (◌++◌ (take idx s.cells)) (sym (drop-get_elem? idx s.cells (key, child) here))
        ∙ take-append_drop idx s.cells in
      let cut = ap (live internal_size) whole in
      let inc =
        (Increasing-append (take idx s.cells) ((key, child) ∷ drop (idx + 1) s.cells)
          (subst Increasing (sym whole) v.increasing)).1.1 in
      let (right, right_runs, right_o, right_e) =
        insert_all-append internal_size insert_separator insert_separator-Places
          (drop (idx + 1) s.cells) blank (blank-IsLaidOut internal_size) inc
          (omega (
            arith,
            live-le internal_size v.laid_out,
            cut,
            live-append internal_size (take idx s.cells) ((key, child) ∷ drop (idx + 1) s.cells),
            live-cons internal_size key child (drop (idx + 1) s.cells),
          )) in
      let (left, left_runs, left_v, left_e) =
        remove_back-take internal_size (length s.cells - idx) idx s v (omega (arith, high)) in
      (
        key,
        child,
        left,
        right,
        split_internal-runs s left right idx key child enough inside here right_runs left_runs,
        record {
          left_valid = left_v;
          right_valid = record {
            laid_out = right_o;
            increasing = subst Increasing (sym right_e) inc;
          };
          whole = ap₂ (λ xs ys. xs ++ ((key, child) ∷ ys)) left_e right_e ∙ whole;
          left_some = omega (arith, low, high, ap length left_e, length-take idx s.cells);
          cut = left_e;
        },
      )
