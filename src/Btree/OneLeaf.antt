-- ===== src/Btree/OneLeaf.antt =====
-- src/btree/btree.cpp: `get`, `insert` and `remove` while all cells fit into one leaf, the root. The
-- keys are of a given list and the values of a given length at most, so that `BTree` never splits a
-- node. As far as that, it keeps the contract `Tree`.
pub mod Budget
pub mod Tests
use key_v_db.Common.{
  ℕ, zero, suc, ◌+◌, ◌≤◌, ◌≡◌, refl, sym, ap, ◌∙◌, subst, Bool, true, false, Option, none, some,
  List, [], ◌∷◌, arith, ◌==◌, nat_eq, ◌&&◌, ◌⊎◌, if◌then◌else◌, Bool-cases, Eq-cases, inl, inr, All,
  length, leb,
}
use key_v_db.Common.Assoc.{find, contains}
use key_v_db.Common.Bytes.{Bytes, bytes_eq}
use key_v_db.Btree.{Tree, too_large, leaf_cell_size}
use key_v_db.Btree.OneLeaf.Budget.{budget, budget-erase, Within, put-budget}
use key_v_db.Btree.Slotted.Capacity.{fits}
use key_v_db.Btree.Cells.{Increasing, is_some}
use key_v_db.Btree.Node.{leaf_size}
use key_v_db.Btree.Node.InsertLeaf.{leaf_fits}
use key_v_db.Btree.Store.{Store, Run, done, throws, out_of_fuel}
use key_v_db.Btree.Descent
use key_v_db.Btree.Insert
use key_v_db.Btree.Insert.LeafGrow.{All-Updates, All-both, find_self, find-cell}
use key_v_db.Btree.Insert.Room.{insert_lem}
use key_v_db.Btree.Remove
use key_v_db.Btree.Remove.Room.{stays, remove_lem}
use key_v_db.Btree.Shape.{Shape, flatten}
use key_v_db.Btree.Shape.Get.{reach_leaf, get-find}
use key_v_db.Btree.Shape.Contents.{Updates}
use key_v_db.Btree.Shape.Save.{IsTree}

abbrev result : Run (Option Bytes) → Option Bytes
result (done o) = o
result (throws e) = none
result out_of_fuel = none

All-erased :
    (Q : Bytes → Bytes → Type 0) (key : Bytes) (xs ys : List (Bytes × Bytes))
    → All (λ (c : Bytes × Bytes). Q c.0 c.1) xs
    → Increasing ys
    → Updates key none xs ys
    → All (λ (c : Bytes × Bytes). Q c.0 c.1) ys
All-erased Q key xs ys all inc up =
    All-both (λ c. find c.0 ys ≡ some c.1) (λ c. find c.0 ys ≡ some c.1) (λ c. Q c.0 c.1) ys
      (λ c here again. elim (Bool-cases (key == c.0)) [
        | inl same ↦ let e : none ≡ some c.1 = sym (up c.0 ∙ rw same refl) ∙ here in cc
        | inr other ↦ find-cell Q xs c.0 c.1 all (sym (up c.0 ∙ rw other refl) ∙ here)
      ])
      (find_self ys inc) (find_self ys inc)

module _ (bound : ℕ) (keys : List Bytes) where
  -- A store whose pages are one leaf.
  pub record OneLeaf : Type 0 where
    pub store : Store
    pub leaf : Shape zero
    pub tree : IsTree zero leaf store
    pub within : All (λ (c : Bytes × Bytes). Within bound keys c.0 c.1) leaf.1

  abbrev pub takes : Bytes → Bytes → Bool
  takes k v = contains k keys && leb (length v) bound

  pub takes-Within : (k v : Bytes) → takes k v ≡ true → Within bound keys k v
  takes-Within k v h = (ground arith, ground arith)

  unfoldable pub get : OneLeaf → Bytes → Option Bytes
  get s k = result (Descent.get 1 k s.store)

  -- `BTree::get` ends, and finds what stands in the leaf.
  get-done : (s : OneLeaf) (k : Bytes) → Descent.get 1 k s.store ≡ done (find k s.leaf.1)
  unfolding flatten
  get-done s k = get-find s.store k zero s.leaf s.tree.holds s.tree.ordered s.tree.root

  pub get-leaf : (s : OneLeaf) (k : Bytes) → get s k ≡ find k s.leaf.1
  unfolding get
  get-leaf s k = ap result (get-done s k)

  pub removed :
      (k : Bytes) (s : OneLeaf)
      → (s' : OneLeaf) × (Remove.remove 1 k s.store ≡ done (is_some (find k s.leaf.1), s'.store))
        × Updates k none s.leaf.1 s'.leaf.1
  unfolding stays flatten
  removed k s =
      let (s', t', runs, p) = remove_lem k s.store zero s.leaf s.tree refl in
      (
        record {
          store = s';
          leaf = t';
          tree = p.tree;
          within =
              All-erased (Within bound keys) k s.leaf.1 t'.1 s.within p.tree.ordered.0 p.contents;
        },
        runs,
        p.contents,
      )

  module _ (enough : budget bound keys ≤ 4040) where
    pub takes-small : (k v : Bytes) → takes k v ≡ true → too_large k v ≡ false
    unfolding too_large leaf_cell_size
    takes-small k v h =
        let w = takes-Within k v h in
        let one = budget-erase bound k keys w.0 in
        let le : 2 + leaf_cell_size (length k) (length v) ≤ 4040 =
          omega (arith, one, w.1, enough) in
        ground (arith, le)

    pub put_in :
        (k v : Bytes) (s : OneLeaf)
        → takes k v ≡ true
        → (s' : OneLeaf) × (Insert.insert 1 k v s.store ≡ done s'.store)
          × Updates k (some v) s.leaf.1 s'.leaf.1
    unfolding reach_leaf leaf_fits fits flatten
    put_in k v s h =
        let new = takes-Within k v h in
        let le = put-budget bound s.leaf.1 keys k v s.tree.ordered.0 s.within new in
        let (s', t', runs, p) =
          insert_lem k v s.store zero s.leaf s.tree (takes-small k v h)
            (ground (arith, le, enough)) in
        (
          record {
            store = s';
            leaf = t';
            tree = p.tree;
            within =
                All-Updates (Within bound keys) k v s.leaf.1 t'.1 new s.within p.tree.ordered.0
                  p.contents;
          },
          runs,
          p.contents,
        )

    put_if : (k v : Bytes) (s : OneLeaf) → (takes k v ≡ true) ⊎ (takes k v ≡ false) → OneLeaf
    put_if k v s (inl h) = (put_in k v s h).0
    put_if k v s (inr other) = s

    -- The contract says nothing of cells of other keys or lengths, and neither does this.
    unfoldable pub put : Bytes → Bytes → OneLeaf → OneLeaf
    unfolding put_if
    put k v s = put_if k v s (Bool-cases (takes k v))

    unfoldable pub remove : Bytes → OneLeaf → OneLeaf
    remove k s = (removed k s).0

    put_if-done :
        (k v : Bytes) (s : OneLeaf) (d : (takes k v ≡ true) ⊎ (takes k v ≡ false))
        → takes k v ≡ true
        → (Insert.insert 1 k v s.store ≡ done (put_if k v s d).store)
          × Updates k (some v) s.leaf.1 (put_if k v s d).leaf.1
    unfolding put_if
    put_if-done k v s (inl h) yes' = ((put_in k v s h).1, (put_in k v s h).2)
    put_if-done k v s (inr other) yes' = cc (yes', other)

    put-done :
        (k v : Bytes) (s : OneLeaf)
        → takes k v ≡ true
        → (Insert.insert 1 k v s.store ≡ done (put k v s).store)
          × Updates k (some v) s.leaf.1 (put k v s).leaf.1
    unfolding put
    put-done k v s h = put_if-done k v s (Bool-cases (takes k v)) h

    -- `BTree` keeps the contract of a tree, as far as it has to split no node.
    pub get-put :
        (k j v : Bytes) (s : OneLeaf)
        → takes k v ≡ true
        → get (put k v s) j ≡ (if k == j then some v else get s j)
    get-put k j v s h =
        get-leaf (put k v s) j
        ∙ (put-done k v s h).1 j
        ∙ ap (λ o. if k == j then some v else o) (sym (get-leaf s j))

    pub get-remove :
        (k j : Bytes) (s : OneLeaf) → get (remove k s) j ≡ (if k == j then none else get s j)
    unfolding remove
    get-remove k j s =
        get-leaf (remove k s) j
        ∙ (removed k s).2 j
        ∙ ap (λ o. if k == j then none else o) (sym (get-leaf s j))

    -- The instance: `BTree` on one leaf.
    abbrev pub one_leaf_tree : Tree
    one_leaf_tree = record {
      State = OneLeaf;
      fits = takes;
      get = get;
      put = put;
      remove = remove;
      fits-small = takes-small;
      get-put = get-put;
      get-remove = get-remove;
    }

    -- The operations of the instance are those of `BTree`: on a store that is one leaf, where a cell
    -- for each key with the longest value allowed fits beside the others, `get`, `insert` and `remove`
    -- end, throw nothing and fail no assertion; they give the value, the store and the answer that the
    -- instance has, with a key that is one of the list and a value that is not too long where one is
    -- inserted.
    one_leaf_tree_lem :
        (s : OneLeaf) (k v : Bytes)
        → takes k v ≡ true
        → (Descent.get 1 k s.store ≡ done (one_leaf_tree.get s k))
          × (Insert.insert 1 k v s.store ≡ done (one_leaf_tree.put k v s).store)
          × (Remove.remove 1 k s.store
              ≡ done (is_some (one_leaf_tree.get s k), (one_leaf_tree.remove k s).store))
    unfolding remove
    one_leaf_tree_lem s k v h = (
      get-done s k ∙ ap done (sym (get-leaf s k)),
      (put-done k v s h).0,
      (removed k s).1 ∙ ap (λ o. done (is_some o, (removed k s).0.store)) (sym (get-leaf s k)),
    )
