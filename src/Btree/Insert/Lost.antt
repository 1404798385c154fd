-- ===== src/Btree/Insert/Lost.antt =====
-- src/btree/btree.cpp, `BTree::insert` behind a split: the second insertion, whose result is not
-- looked at, may have no room either.
use key_v_db.Common.{
  ℕ, zero, ◌+◌, ◌<◌, ◌≤◌, ◌≡◌, refl, sym, ap, ◌∙◌, subst, Bool, false, none, some, List, [], ◌∷◌,
  All, arith, nat_eq, Bool-cases, inl, inr, beq_refl, length,
}
use key_v_db.Common.Assoc.{find, remove, find-remove}
use key_v_db.Common.Bytes.{Bytes, bytes_eq}
use key_v_db.Common.Result.{ok}
use key_v_db.Btree.{too_large}
use key_v_db.Btree.Search.{bytes_ltb}
use key_v_db.Btree.Slotted.{blank}
use key_v_db.Btree.Slotted.Capacity.{live, packed, fits, live-le}
use key_v_db.Btree.Slotted.Half.{IsPacked}
use key_v_db.Btree.Slotted.Ordered.{IsValid}
use key_v_db.Btree.Cells.{Increasing}
use key_v_db.Btree.Node.{
  Leaf, leaf_size, internal_size, leaf_of, with_leaf, insert_leaf_cell, split_leaf,
}
use key_v_db.Btree.Node.InsertLeaf.{leaf_fits, insert_leaf_cell_lem}
use key_v_db.Btree.Node.Split.{IsLeafSplit, split_leaf_lem}
use key_v_db.Btree.Store.{Store, done, fetch}
use key_v_db.Btree.Store.Steps.{IsStore}
use key_v_db.Btree.Descent
use key_v_db.Btree.Descent.{find_leaf}
use key_v_db.Btree.Insert.{insert, insert_in, split_leaf_page}
use key_v_db.Btree.Insert.SplitPage.{split_left, split_right}
use key_v_db.Btree.Insert.LeafHalves.{All-remove, All-parts, sep_in, left_range, right_range, whole}
use key_v_db.Btree.Shape.{From, Before}
use key_v_db.Btree.Shape.Get.{reach_leaf, trail, find_leaf-trail}
use key_v_db.Btree.Shape.Save.{IsTree}
use key_v_db.Btree.Insert.Absent.{absent_parts, no_room, no_room_beside, lost_above}

module _ (key value : Bytes) (id : ℕ) (cells : List (Bytes × Bytes)) (s : Store) (v : IsStore s)
    (tree : IsTree zero (id, cells) s) (two : 2 ≤ length (remove key cells))
    (small : All (λ (c : Bytes × Bytes). 2 + internal_size c.0 0 ≤ 1012) cells)
    (alone : All
      (λ (c : Bytes × Bytes). leaf_fits key value (c ∷ []) ≡ false)
      (remove key cells)) where
  abbrev body : Leaf
  body = tree.holds.body

  abbrev rest : Leaf
  rest = packed leaf_size (remove key body.cells)

  same : rest.cells ≡ remove key cells
  same = ap (remove key) tree.holds.same

  body-IsValid : IsValid leaf_size body
  body-IsValid = record {
    laid_out = tree.holds.laid_out;
    increasing = subst Increasing (sym tree.holds.same) tree.ordered.0;
  }

  full : leaf_fits key value body.cells ≡ false
  unfolding leaf_fits
  full =
      ap (λ xs. fits leaf_size key value (remove key xs)) tree.holds.same
      ∙ no_room_beside key value (remove key cells) (omega (arith, two)) alone

  rest-IsValid : IsValid leaf_size rest
  rest-IsValid =
      let (r, runs, p) = insert_leaf_cell_lem key value body body-IsValid in
      subst (IsValid leaf_size) (p.refused (p.outcome ∙ full)) p.valid

  rest-IsPacked : IsPacked leaf_size rest
  unfolding live
  rest-IsPacked = omega (arith, live-le leaf_size rest-IsValid.laid_out)

  halves :
      (sep : Bytes) × (left : Leaf) × (right : Leaf) × (split_leaf rest blank
        ≡ ok (sep, left, right))
      × IsLeafSplit rest sep left right
  halves =
      split_leaf_lem rest rest-IsValid rest-IsPacked (subst (λ xs. 2 ≤ length xs) (sym same) two)

  module _ (sep : Bytes) (left right : Leaf)
      (splits : split_leaf rest blank ≡ ok (sep, left, right))
      (p : IsLeafSplit rest sep left right) where
    absent : (find key left.cells ≡ none) × (find key right.cells ≡ none)
    absent = absent_parts key left.cells right.cells (
        ap (find key) (whole key value none none cells tree.ordered.1 rest same sep left right p)
        ∙ find-remove key key cells
        ∙ rw (beq_refl key) refl)

    refused_parts :
        All (λ (c : Bytes × Bytes). leaf_fits key value (c ∷ []) ≡ false) left.cells
        × All (λ (c : Bytes × Bytes). leaf_fits key value (c ∷ []) ≡ false) right.cells
    refused_parts =
        All-parts (λ (c : Bytes × Bytes). leaf_fits key value (c ∷ []) ≡ false) left.cells
          right.cells
          (subst (All (λ (c : Bytes × Bytes). leaf_fits key value (c ∷ []) ≡ false))
            (sym (whole key value none none cells tree.ordered.1 rest same sep left right p)) alone)

    sep-small : 2 + internal_size sep 0 ≤ 1012
    sep-small =
        (sep_in key value none none cells tree.ordered.1 rest same sep left right p
          (λ c. 2 + internal_size c.0 0 ≤ 1012) small).1

    ranges :
        All (λ (c : Bytes × Bytes). From none c.0 × Before (some sep) c.0) left.cells
        × All (λ (c : Bytes × Bytes). From (some sep) c.0 × Before none c.0) right.cells
    ranges = (
      left_range key value none none cells tree.ordered.1 rest same sep left right p
          rest-IsValid.increasing,
      right_range key value none none cells tree.ordered.1 rest same sep left right p,
    )

    -- What the refused insertion leaves of a half.
    refused :
        (half : Leaf)
        → IsValid leaf_size half
        → 0 < length half.cells
        → All (λ (c : Bytes × Bytes). leaf_fits key value (c ∷ []) ≡ false) half.cells
        → (l : Leaf) × (flag : Bool) × (insert_leaf_cell key value half ≡ ok (flag, l))
          × IsValid leaf_size l
          × (l.cells ≡ remove key half.cells)
    refused half valid some' all =
        let ((flag, l), runs, q) = insert_leaf_cell_lem key value half valid in
        let no = q.outcome ∙ no_room key value half.cells some' all in
        (l, flag, runs, q.valid, ap (λ x. x.cells) (q.refused no))

    erased : (xs : List (Bytes × Bytes)) → find key (remove key xs) ≡ none
    erased xs = find-remove key key xs ∙ rw (beq_refl key) refl

    lost_split :
        (s' : Store) × (split_leaf_page id (with_leaf tree.holds.node rest) [] key value s ≡ ok s')
        × (Descent.get 2 key s' ≡ done none)
    lost_split = elim (Bool-cases (bytes_ltb key sep)) [
      | inl before ↦
          let (l, flag, runs, valid, cells') =
            refused left p.left_valid p.left_some refused_parts.0 in
          let (s', up, page) =
            split_left s v id tree.holds.node tree.holds.here rest key value sep left right l splits
              [] before runs in
          let (s'', ends, gone) =
            lost_above key id _ s s' sep l right page valid p.right_valid
              (subst (All (λ (c : Bytes × Bytes). From none c.0 × Before (some sep) c.0))
                (sym cells')
                (All-remove (λ c. From none c.0 × Before (some sep) c.0) key left.cells ranges.0))
              ranges.1 sep-small (ap (find key) cells' ∙ erased left.cells) absent.1 in
          (s'', up ∙ ends, gone)
      | inr from ↦
          let (l, flag, runs, valid, cells') =
            refused right p.right_valid p.right_some refused_parts.1 in
          let (s', up, page) =
            split_right s v id tree.holds.node tree.holds.here rest key value sep left right l
              splits [] from runs in
          let (s'', ends, gone) =
            lost_above key id _ s s' sep left l page p.left_valid valid ranges.0
              (subst (All (λ (c : Bytes × Bytes). From (some sep) c.0 × Before none c.0))
                (sym cells')
                (All-remove (λ c. From (some sep) c.0 × Before none c.0) key right.cells ranges.1))
              sep-small absent.0 (ap (find key) cells' ∙ erased right.cells) in
          (s'', up ∙ ends, gone)
    ]

  -- Where the tree is one leaf, and a cell that passes the size test fits beside none of the other
  -- cells, not even alone with it, `insert` with fuel for one level ends as if it had gone well, and
  -- `get` does not find the key afterwards. The leaf has two other cells or more, and its keys fit an
  -- internal cell of 1012 bytes.
  pub insert_loses :
      too_large key value ≡ false
      → (s' : Store) × (insert 1 key value s ≡ done s') × (Descent.get 2 key s' ≡ done none)
  unfolding insert fetch leaf_of reach_leaf trail
  insert_loses fine =
      let ((flag, l), runs, q) = insert_leaf_cell_lem key value body body-IsValid in
      let no = q.outcome ∙ full in
      let packed' = q.refused no in
      let (sep, left, right, splits, p) = halves in
      let (s', ends, gone) = lost_split sep left right splits p in
      let found =
        ap (λ n. find_leaf 1 key s n []) tree.root
        ∙ find_leaf-trail s key zero none none (id, cells) [] tree.holds tree.ordered in
      let first : insert_in key value (id, []) s
          ≡ split_leaf_page id (with_leaf tree.holds.node rest) [] key value s =
        rw (tree.holds.here, tree.holds.kind, runs, no)
          (ap (λ x. split_leaf_page id (with_leaf tree.holds.node x) [] key value s) packed') in
      (s', rw (fine, found, first ∙ ends) refl, gone)
