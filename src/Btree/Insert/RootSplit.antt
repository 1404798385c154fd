-- ===== src/Btree/Insert/RootSplit.antt =====
-- src/btree/btree.cpp, `BTree::insert` where the tree is one leaf that is full: the tree gets a level.
use key_v_db.Common.{
  ℕ, zero, ◌+◌, ◌≤◌, ◌≡◌, refl, sym, ap, ◌∙◌, subst, true, false, none, some, List, [], ◌∷◌, ◌++◌,
  arith, ◌==◌, nat_eq, Eq-cases, inl, inr, append-nil,
}
use key_v_db.Common.Assoc.{contains}
use key_v_db.Common.Bytes.{Bytes}
use key_v_db.Btree.{leaf_cell_size, too_large}
use key_v_db.Btree.Slotted.Half.{AllWithin}
use key_v_db.Btree.Node.{leaf_size}
use key_v_db.Btree.Node.InsertLeaf.{leaf_fits}
use key_v_db.Btree.Store.{Store, done}
use key_v_db.Btree.Store.Steps.{IsStore, is_present}
use key_v_db.Btree.Descent.{find_leaf}
use key_v_db.Btree.Insert.{insert, insert_into_parent, create_new_root}
use key_v_db.Btree.Insert.LeafSplit.{split_leaf_page-IsDivided}
use key_v_db.Btree.Insert.NewRoot.{create_new_root_lem}
use key_v_db.Btree.Shape.{Shape, id_of, ids, flatten, concat_map}
use key_v_db.Btree.Shape.Get.{reach_leaf, trail, find_leaf-trail}
use key_v_db.Btree.Shape.Contents.{Updates}
use key_v_db.Btree.Shape.Save.{IsTree}

absent_away :
    (s : Store) (absent_id id : ℕ)
    → s.nodes absent_id ≡ none
    → is_present (s.nodes id) ≡ true
    → (id == absent_id) ≡ false
absent_away s absent_id id gone h = elim (Eq-cases id absent_id) [
  | inl same ↦ cc (ap is_present (ap s.nodes same.0 ∙ gone), h)
  | inr other ↦ other.1
]

module _ (key value : Bytes) (id : ℕ) (cells : List (Bytes × Bytes)) (s : Store) where
  -- Where the tree is one leaf, a cell that takes at most 1010 bytes with its slot, as the leaf's cells
  -- do, and that does not fit is inserted all the same: `insert` with fuel for one level ends, and the
  -- store holds an ordered tree of two levels then, each page once, in which the key has the value, and
  -- no other key changes its value.
  pub insert_splits_root :
      IsStore s
      → IsTree zero (id, cells) s
      → AllWithin leaf_size 1010 cells
      → 2 + leaf_size key value ≤ 1010
      → leaf_fits key value cells ≡ false
      → (s' : Store) × (t' : Shape 1) × (insert 1 key value s ≡ done s')
        × IsTree 1 t' s'
        × IsStore s'
        × Updates key (some value) cells (flatten 1 t')
  unfolding insert insert_into_parent too_large leaf_cell_size reach_leaf trail flatten ids
      concat_map contains
  insert_splits_root v tree small new_small full =
      let fine : too_large key value ≡ false = ground (arith, new_small) in
      let found =
        ap (λ n. find_leaf 1 key s n []) tree.root
        ∙ find_leaf-trail s key zero none none (id, cells) [] tree.holds tree.ordered in
      let d =
        split_leaf_page-IsDivided key value none none id cells s v tree.holds tree.ordered tt tt
          small new_small [] full in
      let g =
        create_new_root_lem zero d.left d.right d.sep d.s' d.steps.valid d.holds_left d.holds_right
          d.small_sep in
      let runs =
        d.runs
        ∙ ap (λ x. create_new_root x d.sep (id_of zero d.right) d.s') (sym d.same_id)
        ∙ g.runs in
      let away_left = absent_away d.s' g.id d.left.0 g.absent (ap is_present d.holds_left.here) in
      let away_right =
        absent_away d.s' g.id d.right.0 g.absent (ap is_present d.holds_right.here) in
      (
        g.s',
        (g.id, d.left, (d.sep, d.right) ∷ []),
        rw (fine, found, runs) refl,
        record {
          holds = g.holds;
          ordered = (d.ordered_left, d.past, d.before, d.ordered_right);
          distinct = (rw (away_left, away_right) refl, d.distinct);
          root = g.root;
        },
        g.valid,
        subst (λ xs. Updates key (some value) cells (d.left.1 ++ xs)) (sym (append-nil d.right.1))
            d.updates,
      )
