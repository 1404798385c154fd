-- ===== src/Btree/Insert/Tests.antt =====
-- A tree that is one leaf, full to the last byte.
use key_v_db.Common.{
  All, length, ◌≤◌, ◌+◌, ℕ, zero, ◌≡◌, refl, subst, false, none, some, List, [], ◌∷◌, arith, ◌==◌,
  nat_eq, if◌then◌else◌, Eq-cases, inl, inr,
}
use key_v_db.Common.Assoc.{remove, contains}
use key_v_db.Common.Bytes.{Bytes, bytes_beq, bytes_eq}
use key_v_db.Storage.Page.{zeros, length-zeros, invalid_page_id}
use key_v_db.Btree.{leaf_cell_size, internal_cell_size, too_large}
use key_v_db.Btree.Search.{bytes_ltb}
use key_v_db.Btree.Slotted.Capacity.{content, live, fits}
use key_v_db.Btree.Node.{internal_size, Node, leaf, leaf_size, init_leaf}
use key_v_db.Btree.Node.InsertLeaf.{leaf_fits}
use key_v_db.Btree.Store.{Store, done}
use key_v_db.Btree.Store.Steps.{IsStore, Linked}
use key_v_db.Btree.Insert.{insert, insert_in, insert_into_parent}
use key_v_db.Btree.Insert.RootSplit.{insert_splits_root}
use key_v_db.Btree.Insert.Lost.{insert_loses}
use key_v_db.Btree.Descent
use key_v_db.Btree.Insert.Outcome.{IsDivided}
use key_v_db.Btree.Insert.LeafSplit.{split_leaf_page-IsDivided}
use key_v_db.Btree.Shape.{Shape, HoldsLeaf, Ordered, ids, flatten}
use key_v_db.Btree.Shape.Contents.{Updates}
use key_v_db.Btree.Shape.Save.{IsTree}

-- Four cells of 1010 bytes, slots included.
abbrev cells : List (Bytes × Bytes)
cells =
    (1 ∷ [], zeros 1003) ∷ (3 ∷ [], zeros 1003) ∷ (5 ∷ [], zeros 1003) ∷ (7 ∷ [], zeros 1003) ∷ []

abbrev root : Node
root = record (init_leaf 1 invalid_page_id) {
  body = leaf (record { cells = cells; free_end = 40; cell_end = 40 });
}

abbrev store : Store
store = record {
  nodes = λ id. if 1 == id then some root else none;
  free_pages = [];
  num_pages = 2;
  root = 1;
  saved_root = 1;
}

store-Linked : (id : ℕ) (n : Node) → store.nodes id ≡ some n → Linked store n.right_sibling
unfolding init_leaf
store-Linked id n e = elim (Eq-cases 1 id) [
  | inl same ↦
      let eq : some root ≡ some n = rw same.1 at e in
      let eq' : root ≡ n = cc eq in subst (λ x. Linked store x.right_sibling) eq' refl
  | inr other ↦ cc (rw other.1 at e)
]

store-IsStore : IsStore store
unfolding contains
store-IsStore = record {
  linked = store-Linked;
  free = λ id h. cc;
  beyond = λ id h. ground (arith, h);
  inside = λ id h. cc;
  distinct = tt;
}

cell_bytes : (key : ℕ) → leaf_size (key ∷ []) (zeros 1003) ≡ 1008
unfolding leaf_cell_size
cell_bytes key = omega (arith, length-zeros 1003)

holds : HoldsLeaf 1 cells store
unfolding init_leaf content
holds = record {
  node = root;
  body = record { cells = cells; free_end = 40; cell_end = 40 };
  here = refl;
  kind = refl;
  laid_out = record {
    slots = refl;
    apart = omega arith;
    inside = omega (arith, cell_bytes 1, cell_bytes 3, cell_bytes 5, cell_bytes 7);
  };
  same = refl;
}

cells-Ordered : Ordered zero none none (1, cells)
unfolding bytes_ltb
cells-Ordered = (
  ((refl, (refl, (refl, tt))), ((refl, (refl, tt)), ((refl, tt), (tt, tt)))),
  ((tt, tt), ((tt, tt), ((tt, tt), ((tt, tt), tt)))),
)

no_room : leaf_fits (4 ∷ []) (zeros 1003) cells ≡ false
unfolding leaf_fits fits live content remove bytes_beq
no_room = ground (arith, cell_bytes 1, cell_bytes 3, cell_bytes 4, cell_bytes 5, cell_bytes 7)

split_leaf_page-IsDivided_example :
    IsDivided
      (4 ∷ [])
      (zeros 1003)
      zero
      none
      none
      (1, cells)
      store
      (insert_in (4 ∷ []) (zeros 1003) (1, []) store)
      (insert_into_parent [])
split_leaf_page-IsDivided_example =
    split_leaf_page-IsDivided (4 ∷ []) (zeros 1003) none none 1 cells store store-IsStore holds
      cells-Ordered tt tt
      (
        omega (arith, cell_bytes 1),
        (
          omega (arith, cell_bytes 3),
          (omega (arith, cell_bytes 5), (omega (arith, cell_bytes 7), tt)),
        ),
      )
      (omega (arith, cell_bytes 4)) [] no_room

tree : IsTree zero (1, cells) store
unfolding ids contains
tree = record { holds = holds; ordered = cells-Ordered; distinct = (refl, tt); root = refl }

insert_splits_root_example :
    (s' : Store) × (t' : Shape 1) × (insert 1 (4 ∷ []) (zeros 1003) store ≡ done s')
    × IsTree 1 t' s'
    × IsStore s'
    × Updates (4 ∷ []) (some (zeros 1003)) cells (flatten 1 t')
insert_splits_root_example =
    insert_splits_root (4 ∷ []) (zeros 1003) 1 cells store store-IsStore tree
      (
        omega (arith, cell_bytes 1),
        (
          omega (arith, cell_bytes 3),
          (omega (arith, cell_bytes 5), (omega (arith, cell_bytes 7), tt)),
        ),
      )
      (omega (arith, cell_bytes 4)) no_room

-- Two cells that leave less than 200 bytes of the page, so that a third of 3107 bytes fits beside
-- neither of them.
abbrev large_cells : List (Bytes × Bytes)
large_cells = (1 ∷ [], zeros 1003) ∷ (3 ∷ [], zeros 2900) ∷ []

abbrev large_root : Node
large_root = record (init_leaf 1 invalid_page_id) {
  body = leaf (record { cells = large_cells; free_end = 36; cell_end = 159 });
}

abbrev large_store : Store
large_store = record store { nodes = λ id. if 1 == id then some large_root else none }

large_store-Linked :
    (id : ℕ) (n : Node) → large_store.nodes id ≡ some n → Linked large_store n.right_sibling
unfolding init_leaf
large_store-Linked id n e = elim (Eq-cases 1 id) [
  | inl same ↦
      let eq : some large_root ≡ some n = rw same.1 at e in
      let eq' : large_root ≡ n = cc eq in subst (λ x. Linked large_store x.right_sibling) eq' refl
  | inr other ↦ cc (rw other.1 at e)
]

large_store-IsStore : IsStore large_store
unfolding contains
large_store-IsStore = record {
  linked = large_store-Linked;
  free = λ id h. cc;
  beyond = λ id h. ground (arith, h);
  inside = λ id h. cc;
  distinct = tt;
}

large_tree : IsTree zero (1, large_cells) large_store
unfolding init_leaf content leaf_cell_size bytes_ltb ids contains
large_tree = record {
  holds = record {
    node = large_root;
    body = record { cells = large_cells; free_end = 36; cell_end = 159 };
    here = refl;
    kind = refl;
    laid_out = record {
      slots = refl;
      apart = omega arith;
      inside = omega (arith, length-zeros 1003, length-zeros 2900);
    };
    same = refl;
  };
  ordered = (((refl, tt), (tt, tt)), ((tt, tt), ((tt, tt), tt)));
  distinct = (refl, tt);
  root = refl;
}

large_two : 2 ≤ length (remove (2 ∷ []) large_cells)
unfolding remove bytes_beq
large_two = omega arith

large_keys : All (λ (c : Bytes × Bytes). 2 + internal_size c.0 0 ≤ 1012) large_cells
unfolding internal_cell_size
large_keys = (omega arith, (omega arith, tt))

large_alone :
    All
      (λ (c : Bytes × Bytes). leaf_fits (2 ∷ []) (zeros 3100) (c ∷ []) ≡ false)
      (remove (2 ∷ []) large_cells)
unfolding leaf_fits fits live content remove bytes_beq leaf_cell_size
large_alone = (
  ground (arith, length-zeros 1003, length-zeros 3100),
  (ground (arith, length-zeros 2900, length-zeros 3100), tt),
)

large_fine : too_large (2 ∷ []) (zeros 3100) ≡ false
unfolding too_large leaf_cell_size
large_fine = ground (arith, length-zeros 3100)

insert_loses_example :
    (s' : Store) × (insert 1 (2 ∷ []) (zeros 3100) large_store ≡ done s')
    × (Descent.get 2 (2 ∷ []) s' ≡ done none)
insert_loses_example =
    insert_loses (2 ∷ []) (zeros 3100) 1 large_cells large_store large_store-IsStore large_tree
      large_two large_keys large_alone large_fine
