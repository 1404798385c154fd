-- ===== src/Btree/Node/Merge.antt =====
-- src/btree/node.cpp, `Node::merge_from`: the cells of two siblings in one node.
use key_v_db.Common.{
  ℕ, ◌≤◌, ◌≡◌, refl, sym, ap, ◌∙◌, subst, [], ◌∷◌, ◌++◌, length, arith, append_assoc,
}
use key_v_db.Common.Bytes.{Bytes}
use key_v_db.Common.Result.{ok}
use key_v_db.Btree.Slotted.Capacity.{live, live-le}
use key_v_db.Btree.Slotted.Room.{live-append}
use key_v_db.Btree.Slotted.Ordered.{IsValid}
use key_v_db.Btree.Slotted.Half.{IsPacked}
use key_v_db.Btree.Cells.{Increasing}
use key_v_db.Btree.Cells.Runs.{Increasing-append}
use key_v_db.Btree.Node.{
  Node, Leaf, Internal, leaf, internal, leaf_size, internal_size, insert_leaf_cell,
  insert_separator, merge_cells, split_into, init_leaf, leaf_of, internal_of,
}
use key_v_db.Btree.Node.Append.{
  insert_all-append, insert-last, insert_leaf_cell-Places, insert_separator-Places,
}
use key_v_db.Btree.Node.Split.{split_leaf_lem}

-- Two leaves that fit into one, the keys of the right one greater: the left one gets all cells in
-- their order and the right sibling of the right one.
pub merge_leaf_lem :
    (n right : Node) (s r : Leaf) (sep : Bytes)
    → n.body ≡ leaf s
    → right.body ≡ leaf r
    → IsValid leaf_size s
    → Increasing (s.cells ++ r.cells)
    → live leaf_size (s.cells ++ r.cells) ≤ 4040
    → (m : Leaf) × (merge_cells n right sep
        ≡ ok (record n { right_sibling = right.right_sibling; body = leaf m }))
      × IsValid leaf_size m
      × (m.cells ≡ s.cells ++ r.cells)
unfolding merge_cells leaf_of
merge_leaf_lem n right s r sep here there v inc le =
    let (m, runs, o, e) =
      insert_all-append leaf_size insert_leaf_cell insert_leaf_cell-Places r.cells s v.laid_out inc
        le in
    (
      m,
      rw (here, there, runs) refl,
      record { laid_out = o; increasing = subst Increasing (sym e) inc },
      e,
    )

-- Two internal nodes that fit into one with the separator between them, whose child is the first one
-- of the right node: the left one gets all cells in their order.
pub merge_internal_lem :
    (n right : Node) (s r : Internal) (sep : Bytes)
    → n.body ≡ internal s
    → right.body ≡ internal r
    → IsValid internal_size s
    → Increasing (s.cells ++ ((sep, right.first_child) ∷ r.cells))
    → live internal_size (s.cells ++ ((sep, right.first_child) ∷ r.cells)) ≤ 4040
    → (m : Internal) × (merge_cells n right sep ≡ ok (record n { body = internal m }))
      × IsValid internal_size m
      × (m.cells ≡ s.cells ++ ((sep, right.first_child) ∷ r.cells))
unfolding merge_cells internal_of
merge_internal_lem n right s r sep here there v inc le =
    let middle = (sep, right.first_child) ∷ [] in
    let assoc : s.cells ++ ((sep, right.first_child) ∷ r.cells) ≡ (s.cells ++ middle) ++ r.cells =
      sym (append_assoc s.cells middle r.cells) in
    let inc' = subst Increasing assoc inc in
    let le' = subst (λ xs. live internal_size xs ≤ 4040) assoc le in
    let (s1, runs1, o1, e1) =
      insert-last internal_size insert_separator insert_separator-Places sep right.first_child s
        v.laid_out (Increasing-append (s.cells ++ middle) r.cells inc').0
        (omega (arith, le', live-append internal_size (s.cells ++ middle) r.cells)) in
    let behind = ap (λ xs. xs ++ r.cells) (sym e1) in
    let (m, runs, o, e) =
      insert_all-append internal_size insert_separator insert_separator-Places r.cells s1 o1
        (subst Increasing behind inc') (subst (λ xs. live internal_size xs ≤ 4040) behind le') in
    let cells = e ∙ sym behind ∙ sym assoc in
    (
      m,
      rw (here, there, runs1) (rw runs refl),
      record { laid_out = o; increasing = subst Increasing (sym cells) inc },
      cells,
    )

-- The node that a leaf is when its halves are merged again.
pub record IsRejoined (n : Node) (s : Leaf) (right : Node) : Type 0 where
  pub separator : Bytes
  pub n1 : Node
  pub right1 : Node
  pub m : Leaf
  pub splits : split_into n right ≡ ok (separator, n1, right1)
  pub merges : merge_cells n1 right1 separator ≡ ok (record n { body = leaf m })
  pub cells : m.cells ≡ s.cells

-- A packed leaf with two cells that is split and merged again has its old cells and links.
pub merge_cells-split_into :
    (n : Node) (s : Leaf) (right_id : ℕ)
    → n.body ≡ leaf s
    → IsValid leaf_size s
    → IsPacked leaf_size s
    → 2 ≤ length s.cells
    → IsRejoined n s (init_leaf right_id n.parent_id)
unfolding split_into leaf_of init_leaf
merge_cells-split_into n s right_id here v packed two =
    let (sep, left, right, runs, p) = split_leaf_lem s v packed two in
    let n1 = record n { right_sibling = right_id; body = leaf left } in
    let right1 = record (init_leaf right_id n.parent_id) {
      parent_id = n.parent_id;
      right_sibling = n.right_sibling;
      left_sibling = n.page_id;
      body = leaf right;
    } in
    let (m, joins, valid, e) =
      merge_leaf_lem n1 right1 left right sep refl refl p.left_valid
        (subst Increasing (sym p.whole) v.increasing)
        (subst (λ xs. live leaf_size xs ≤ 4040) (sym p.whole) (live-le leaf_size v.laid_out)) in
    record {
      separator = sep;
      n1 = n1;
      right1 = right1;
      m = m;
      splits = rw (here, runs) refl;
      merges = joins;
      cells = e ∙ p.whole;
    }
