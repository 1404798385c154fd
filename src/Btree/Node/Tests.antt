-- ===== src/Btree/Node/Tests.antt =====
-- Nodes of two cells, and a leaf that is full to the last byte.
use key_v_db.Common.{ℕ, ◌+◌, ◌≡◌, refl, Bool, true, false, [], ◌∷◌, ◌++◌, arith, if◌then◌else◌}
use key_v_db.Common.Assoc.{find, remove}
use key_v_db.Common.Bytes.{Bytes, bytes_beq, bytes_eq}
use key_v_db.Common.Result.{ok}
use key_v_db.Storage.Page.{zeros, length-zeros}
use key_v_db.Btree.{leaf_cell_size, internal_cell_size}
use key_v_db.Btree.Search.{bytes_ltb}
use key_v_db.Btree.Slotted.{blank, compact}
use key_v_db.Btree.Slotted.Capacity.{content, live, fits, packed}
use key_v_db.Btree.Slotted.Room.{compact-packed}
use key_v_db.Btree.Slotted.Ordered.{IsValid}
use key_v_db.Btree.Node.{
  Node, Leaf, Internal, leaf, internal, leaf_size, internal_size, insert_leaf_cell, split_leaf,
  split_internal, merge_cells, init_leaf,
}
use key_v_db.Btree.Node.InsertLeaf.{leaf_fits, IsInserted, insert_leaf_cell_lem}
use key_v_db.Btree.Node.Split.{IsLeafSplit, IsInternalSplit, split_leaf_lem, split_internal_lem}
use key_v_db.Btree.Node.SplitRoom.{split-insert}
use key_v_db.Btree.Node.Merge.{IsRejoined, merge_cells-split_into, merge_internal_lem}
use key_v_db.Btree.Descent.{lookup}
use key_v_db.Btree.Descent.Lookup.{lookup-find}

-- Ten bytes of a removed cell are left in the page.
abbrev two_leaf : Leaf
two_leaf = record {
  cells = (1 ∷ [], 10 ∷ []) ∷ (3 ∷ [], 30 ∷ []) ∷ [];
  free_end = 36;
  cell_end = 4050;
}

two_leaf-IsValid : IsValid leaf_size two_leaf
unfolding content leaf_cell_size bytes_ltb
two_leaf-IsValid = record {
  laid_out = record { slots = refl; apart = omega arith; inside = omega arith };
  increasing = ((refl, tt), (tt, tt));
}

compact-packed_example : compact leaf_size two_leaf ≡ ok (packed leaf_size two_leaf.cells)
compact-packed_example = compact-packed leaf_size two_leaf two_leaf-IsValid.laid_out

insert_leaf_cell_lem_example :
    (r : Bool × Leaf) × (insert_leaf_cell (3 ∷ []) (31 ∷ 32 ∷ []) two_leaf ≡ ok r)
    × IsInserted (3 ∷ []) (31 ∷ 32 ∷ []) two_leaf two_leaf-IsValid r
insert_leaf_cell_lem_example =
    insert_leaf_cell_lem (3 ∷ []) (31 ∷ 32 ∷ []) two_leaf two_leaf-IsValid

lookup-find_example : lookup (3 ∷ []) two_leaf ≡ ok (find (3 ∷ []) two_leaf.cells)
lookup-find_example = lookup-find (3 ∷ []) two_leaf two_leaf-IsValid

abbrev packed_leaf : Leaf
packed_leaf = record two_leaf { cell_end = 4060 }

packed_leaf-IsValid : IsValid leaf_size packed_leaf
unfolding content leaf_cell_size
packed_leaf-IsValid = record {
  laid_out = record { slots = refl; apart = omega arith; inside = omega arith };
  increasing = two_leaf-IsValid.increasing;
}

packed_leaf-size : content leaf_size packed_leaf.cells + packed_leaf.cell_end ≡ 4072
unfolding content leaf_cell_size
packed_leaf-size = refl

split_leaf_lem_example :
    (sep : Bytes) × (left : Leaf) × (right : Leaf) × (split_leaf packed_leaf blank
      ≡ ok (sep, left, right))
    × IsLeafSplit packed_leaf sep left right
split_leaf_lem_example =
    split_leaf_lem packed_leaf packed_leaf-IsValid packed_leaf-size (omega arith)

abbrev leaf_node : Node
leaf_node = record (init_leaf 7 2) { body = leaf packed_leaf }

merge_cells-split_into_example : IsRejoined leaf_node packed_leaf (init_leaf 8 leaf_node.parent_id)
merge_cells-split_into_example =
    merge_cells-split_into leaf_node packed_leaf 8 refl packed_leaf-IsValid packed_leaf-size
      (omega arith)

abbrev two_internal : Internal
two_internal = record { cells = (3 ∷ [], 5) ∷ (7 ∷ [], 6) ∷ []; free_end = 36; cell_end = 4058 }

two_internal-IsValid : IsValid internal_size two_internal
unfolding content internal_cell_size bytes_ltb
two_internal-IsValid = record {
  laid_out = record { slots = refl; apart = omega arith; inside = omega arith };
  increasing = ((refl, tt), (tt, tt));
}

two_internal-size : content internal_size two_internal.cells + two_internal.cell_end ≡ 4072
unfolding content internal_cell_size
two_internal-size = refl

split_internal_lem_example :
    (sep : Bytes) × (child : ℕ) × (left : Internal) × (right : Internal) × (split_internal
        two_internal blank
      ≡ ok (sep, child, left, right))
    × IsInternalSplit two_internal sep child left right
split_internal_lem_example =
    split_internal_lem two_internal two_internal-IsValid two_internal-size (omega arith)

abbrev other_internal : Internal
other_internal = record { cells = (12 ∷ [], 9) ∷ []; free_end = 34; cell_end = 4065 }

abbrev internal_node : Node
internal_node = record (init_leaf 2 1) { first_child = 4; body = internal two_internal }

abbrev other_node : Node
other_node = record (init_leaf 3 1) { first_child = 8; body = internal other_internal }

merge_internal_lem_example :
    (m : Internal) × (merge_cells internal_node other_node (10 ∷ [])
      ≡ ok (record internal_node { body = internal m }))
    × IsValid internal_size m
    × (m.cells ≡ two_internal.cells ++ ((10 ∷ [], other_node.first_child) ∷ other_internal.cells))
unfolding live content internal_cell_size bytes_ltb
merge_internal_lem_example =
    merge_internal_lem internal_node other_node two_internal other_internal (10 ∷ []) refl refl
      two_internal-IsValid
      ((refl, (refl, (refl, tt))), ((refl, (refl, tt)), ((refl, tt), (tt, tt)))) (omega arith)

-- Four cells of 1010 bytes, slots included, and no byte is left.
abbrev full_leaf : Leaf
full_leaf = record {
  cells =
      (1 ∷ [], zeros 1003)
      ∷ (3 ∷ [], zeros 1003)
      ∷ (5 ∷ [], zeros 1003)
      ∷ (7 ∷ [], zeros 1003)
      ∷ [];
  free_end = 40;
  cell_end = 40;
}

size-zeros : (key : ℕ) → leaf_size (key ∷ []) (zeros 1003) ≡ 1008
unfolding leaf_cell_size
size-zeros key = omega (arith, length-zeros 1003)

full_leaf-IsValid : IsValid leaf_size full_leaf
unfolding content bytes_ltb
full_leaf-IsValid = record {
  laid_out = record {
    slots = refl;
    apart = omega arith;
    inside = omega (arith, size-zeros 1, size-zeros 3, size-zeros 5, size-zeros 7);
  };
  increasing = ((refl, (refl, (refl, tt))), ((refl, (refl, tt)), ((refl, tt), (tt, tt))));
}

full_leaf-full : leaf_fits (4 ∷ []) (zeros 1003) full_leaf.cells ≡ false
unfolding leaf_fits fits live content remove bytes_beq
full_leaf-full =
    ground (arith, size-zeros 1, size-zeros 3, size-zeros 4, size-zeros 5, size-zeros 7)

split-insert_example :
    (sep : Bytes) × (left : Leaf) × (right : Leaf) × (l' : Leaf) × (split_leaf
        (packed leaf_size (remove (4 ∷ []) full_leaf.cells))
        blank
      ≡ ok (sep, left, right))
    × (insert_leaf_cell (4 ∷ []) (zeros 1003) (if bytes_ltb (4 ∷ []) sep then left else right)
        ≡ ok (true, l'))
split-insert_example =
    split-insert (4 ∷ []) (zeros 1003) full_leaf full_leaf-IsValid full_leaf-full
      (
        omega (arith, size-zeros 1),
        (
          omega (arith, size-zeros 3),
          (omega (arith, size-zeros 5), (omega (arith, size-zeros 7), tt)),
        ),
      )
      (omega (arith, size-zeros 4))
