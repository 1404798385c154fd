-- ===== src/Btree/Shape/Tests.antt =====
-- A tree of a root and two leaves, the left one more than half full.
use key_v_db.Common.{
  ℕ, ◌≡◌, refl, true, false, [], ◌∷◌, arith, Option, none, some, if◌then◌else◌, ◌==◌, nat_eq,
}
use key_v_db.Common.Assoc.{find, remove, contains}
use key_v_db.Common.Bytes.{bytes_beq, bytes_eq}
use key_v_db.Storage.Page.{zeros, length-zeros, invalid_page_id}
use key_v_db.Btree.{leaf_cell_size, internal_cell_size, too_large}
use key_v_db.Btree.Search.{bytes_ltb}
use key_v_db.Btree.Slotted.Capacity.{content, live, fits}
use key_v_db.Btree.Cells.{is_some}
use key_v_db.Btree.Node.{Node, Leaf, Internal, leaf, internal, init_leaf, init_internal}
use key_v_db.Btree.Node.InsertLeaf.{leaf_fits}
use key_v_db.Btree.Store.{Store, done}
use key_v_db.Btree.Descent.{get}
use key_v_db.Btree.Insert.{insert}
use key_v_db.Btree.Insert.Room.{IsInsertedTree, insert_lem}
use key_v_db.Btree.Remove
use key_v_db.Btree.Remove.Room.{IsRemovedTree, stays, remove_lem}
use key_v_db.Btree.Shape.{Shape, flatten, ids, pick, concat_map}
use key_v_db.Btree.Shape.Get.{reach_leaf, get-find}
use key_v_db.Btree.Shape.Save.{IsTree}

abbrev left_leaf : Leaf
left_leaf = record {
  cells = (1 ∷ [], 10 ∷ []) ∷ (3 ∷ [], zeros 2100) ∷ [];
  free_end = 36;
  cell_end = 1961;
}

abbrev right_leaf : Leaf
right_leaf = record {
  cells = (5 ∷ [], 50 ∷ []) ∷ (7 ∷ [], 70 ∷ []) ∷ [];
  free_end = 36;
  cell_end = 4060;
}

abbrev root_node : Internal
root_node = record { cells = (5 ∷ [], 3) ∷ []; free_end = 34; cell_end = 4065 }

abbrev nodes : ℕ → Option Node
nodes id =
    if id == 1
    then some
        (record (init_internal 1 invalid_page_id) { first_child = 2; body = internal root_node })
    else if id == 2
    then some (record (init_leaf 2 1) { right_sibling = 3; body = leaf left_leaf })
    else if id == 3
    then some (record (init_leaf 3 1) { left_sibling = 2; body = leaf right_leaf })
    else none

abbrev store : Store
store = record { nodes = nodes; free_pages = []; num_pages = 4; root = 1; saved_root = 1 }

abbrev tree : Shape 1
tree = (1, (2, left_leaf.cells), (5 ∷ [], (3, right_leaf.cells)) ∷ [])

tree-IsTree : IsTree 1 tree store
unfolding init_leaf init_internal content leaf_cell_size internal_cell_size bytes_ltb ids concat_map
    contains
tree-IsTree = record {
  holds = (
    record {
      node = record (init_internal 1 invalid_page_id) {
        first_child = 2;
        body = internal root_node;
      };
      body = root_node;
      here = refl;
      kind = refl;
      first = refl;
      laid_out = record { slots = refl; apart = omega arith; inside = omega arith };
      same = refl;
    },
    record {
      node = record (init_leaf 2 1) { right_sibling = 3; body = leaf left_leaf };
      body = left_leaf;
      here = refl;
      kind = refl;
      laid_out = record {
        slots = refl;
        apart = omega arith;
        inside = omega (arith, length-zeros 2100);
      };
      same = refl;
    },
    (
      record {
        node = record (init_leaf 3 1) { left_sibling = 2; body = leaf right_leaf };
        body = right_leaf;
        here = refl;
        kind = refl;
        laid_out = record { slots = refl; apart = omega arith; inside = omega arith };
        same = refl;
      },
      tt,
    ),
  );
  ordered = (
    (((refl, tt), (tt, tt)), ((tt, refl), ((tt, refl), tt))),
    tt,
    tt,
    (((refl, tt), (tt, tt)), ((refl, tt), ((refl, tt), tt))),
  );
  distinct = (refl, (refl, (refl, tt)));
  root = refl;
}

get-find_example : get 2 (7 ∷ []) store ≡ done (find (7 ∷ []) (flatten 1 tree))
get-find_example =
    get-find store (7 ∷ []) 1 tree tree-IsTree.holds tree-IsTree.ordered tree-IsTree.root

finds_value : find (7 ∷ []) (flatten 1 tree) ≡ some (70 ∷ [])
unfolding flatten concat_map find bytes_beq
finds_value = refl

small_cell : too_large (2 ∷ []) (20 ∷ []) ≡ false
unfolding too_large leaf_cell_size
small_cell = refl

has_room : leaf_fits (2 ∷ []) (20 ∷ []) (reach_leaf 1 (2 ∷ []) tree).1 ≡ true
unfolding leaf_fits fits live content remove bytes_beq reach_leaf pick bytes_ltb leaf_cell_size
has_room = ground (arith, length-zeros 2100)

insert_lem_example :
    (s' : Store) × (t' : Shape 1) × (insert 2 (2 ∷ []) (20 ∷ []) store ≡ done s')
    × IsInsertedTree (2 ∷ []) (20 ∷ []) store 1 tree t' s'
insert_lem_example = insert_lem (2 ∷ []) (20 ∷ []) store 1 tree tree-IsTree small_cell has_room

stays_full : stays 1 (1 ∷ []) tree ≡ true
unfolding stays live content remove bytes_beq reach_leaf pick bytes_ltb leaf_cell_size
stays_full = ground (arith, length-zeros 2100)

remove_lem_example :
    (s' : Store) × (t' : Shape 1) × (Remove.remove 2 (1 ∷ []) store
      ≡ done (is_some (find (1 ∷ []) (flatten 1 tree)), s'))
    × IsRemovedTree (1 ∷ []) store 1 tree t' s'
remove_lem_example = remove_lem (1 ∷ []) store 1 tree tree-IsTree stays_full
