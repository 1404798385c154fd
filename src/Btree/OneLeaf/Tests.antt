-- ===== src/Btree/OneLeaf/Tests.antt =====
-- A store that is one leaf with one cell, and the tree of the cells of two keys on it.
use key_v_db.Common.{
  All, zero, ◌≤◌, ◌≡◌, refl, none, some, List, [], ◌∷◌, arith, ◌==◌, nat_eq, if◌then◌else◌,
}
use key_v_db.Common.Assoc.{contains, find}
use key_v_db.Common.Bytes.{Bytes, bytes_beq, bytes_eq}
use key_v_db.Storage.Page.{invalid_page_id}
use key_v_db.Btree.{Tree, leaf_cell_size}
use key_v_db.Btree.Slotted.Capacity.{content}
use key_v_db.Btree.Node.{Node, leaf, init_leaf}
use key_v_db.Btree.Store.{Store}
use key_v_db.Btree.Shape.{ids}
use key_v_db.Btree.Shape.Save.{IsTree}
use key_v_db.Btree.OneLeaf.{get-leaf, one_leaf_tree}
use key_v_db.Btree.OneLeaf.Budget.{budget, Within}

abbrev pub key : Bytes
key = 107 ∷ []

abbrev pub other_key : Bytes
other_key = 108 ∷ []

abbrev pub keys : List Bytes
keys = key ∷ other_key ∷ []

abbrev pub cells : List (Bytes × Bytes)
cells = (key, 20 ∷ []) ∷ []

abbrev pub root : Node
root = record (init_leaf 1 invalid_page_id) {
  body = leaf (record { cells = cells; free_end = 34; cell_end = 4066 });
}

abbrev pub store : Store
store = record {
  nodes = λ id. if 1 == id then some root else none;
  free_pages = [];
  num_pages = 2;
  root = 1;
  saved_root = 1;
}

pub tree : IsTree zero (1, cells) store
unfolding ids contains init_leaf content leaf_cell_size
tree = record {
  holds = record {
    node = root;
    body = record { cells = cells; free_end = 34; cell_end = 4066 };
    here = refl;
    kind = refl;
    laid_out = record { slots = refl; apart = omega arith; inside = omega arith };
    same = refl;
  };
  ordered = ((tt, tt), ((tt, tt), tt));
  distinct = (refl, tt);
  root = refl;
}

pub enough : budget 100 keys ≤ 4040
unfolding budget leaf_cell_size
enough = omega arith

abbrev pub small_tree : Tree
small_tree = one_leaf_tree 100 keys enough

pub cells-Within : All (λ (c : Bytes × Bytes). Within 100 keys c.0 c.1) cells
unfolding contains bytes_beq
cells-Within = ((refl, omega arith), tt)

abbrev pub before : small_tree.State
before = record { store = store; leaf = (1, cells); tree = tree; within = cells-Within }

pub before-find : (k : Bytes) → small_tree.get before k ≡ find k cells
before-find k = get-leaf 100 keys before k
