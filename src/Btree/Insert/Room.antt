-- ===== src/Btree/Insert/Room.antt =====
-- src/btree/btree.cpp, `BTree::insert` where the leaf has room: the contents of the whole tree.
use key_v_db.Common.{
  ℕ, suc, ◌≡◌, refl, sym, ap, ◌∙◌, subst, true, false, none, some, List, [], nat_eq, beq_refl,
}
use key_v_db.Common.Assoc.{Distinct}
use key_v_db.Common.Bytes.{Bytes, bytes_eq}
use key_v_db.Common.Result.{ok}
use key_v_db.Btree.{too_large}
use key_v_db.Btree.Slotted.Ordered.{IsValid}
use key_v_db.Btree.Cells.{Increasing}
use key_v_db.Btree.Node.{Node, leaf_size, leaf_of, with_leaf}
use key_v_db.Btree.Node.InsertLeaf.{leaf_fits, insert_leaf_cell_lem}
use key_v_db.Btree.Store.{Store, done, fetch, save}
use key_v_db.Btree.Descent.{find_leaf}
use key_v_db.Btree.Insert.{insert, insert_in}
use key_v_db.Btree.Shape.{Shape, flatten, ids, HoldsLeaf}
use key_v_db.Btree.Shape.Get.{
  reach_leaf, trail, find_leaf-trail, Holds-reach_leaf, reach_leaf-Increasing,
}
use key_v_db.Btree.Shape.Contents.{Updates}
use key_v_db.Btree.Shape.Put.{
  with_cells, id_of-with_cells, ids-with_cells, Ordered-with_cells, Updates-with_cells,
}
use key_v_db.Btree.Shape.Save.{Holds-with_cells, IsTree}

module _ (key value : Bytes) (s : Store) where
  -- What a write of one leaf leaves.
  pub record IsWritten (id : ℕ) (cells : List (Bytes × Bytes)) (breadcrumbs : List ℕ) : Type 0 where
    pub node : Node
    pub new : List (Bytes × Bytes)
    pub runs : insert_in key value (id, breadcrumbs) s ≡ ok (save id node s)
    pub written : HoldsLeaf id new (save id node s)
    pub increasing : Increasing new
    pub updates : Updates key (some value) cells new

  insert_in-IsWritten :
      (id : ℕ) (cells : List (Bytes × Bytes)) (breadcrumbs : List ℕ)
      → HoldsLeaf id cells s
      → Increasing cells
      → leaf_fits key value cells ≡ true
      → IsWritten id cells breadcrumbs
  unfolding fetch leaf_of save
  insert_in-IsWritten id cells breadcrumbs holds inc room =
      let valid : IsValid leaf_size holds.body = record {
        laid_out = holds.laid_out;
        increasing = subst Increasing (sym holds.same) inc;
      } in
      let ((fits, l), runs, p) = insert_leaf_cell_lem key value holds.body valid in
      let yes' : fits ≡ true = p.outcome ∙ ap (leaf_fits key value) holds.same ∙ room in
      record {
        node = with_leaf holds.node l;
        new = l.cells;
        runs = rw (holds.here, holds.kind, runs, yes') refl;
        written = record {
          node = with_leaf holds.node l;
          body = l;
          here = rw (beq_refl id) refl;
          kind = refl;
          laid_out = p.valid.laid_out;
          same = refl;
        };
        increasing = p.valid.increasing;
        updates = λ j. p.contents j ∙ rw (yes', holds.same) refl;
      }

  -- The tree after an insertion.
  pub record IsInsertedTree (h : ℕ) (t t' : Shape h) (s' : Store) : Type 0 where
    pub tree : IsTree h t' s'
    pub pages : ids h t' ≡ ids h t
    pub contents : Updates key (some value) (flatten h t) (flatten h t')

  -- Where the leaf of the key has room for the new cell, `insert` ends, with fuel for the levels of
  -- the tree. The store holds an ordered tree of the same pages then, in which the key has the value,
  -- and no other key changes its value.
  pub insert_lem :
      (h : ℕ) (t : Shape h)
      → IsTree h t s
      → too_large key value ≡ false
      → leaf_fits key value (reach_leaf h key t).1 ≡ true
      → (s' : Store) × (t' : Shape h) × (insert (suc h) key value s ≡ done s')
        × IsInsertedTree h t t' s'
  unfolding insert save
  insert_lem h t tree small room =
      let (id, cells) = reach_leaf h key t in
      let found =
        ap (λ n. find_leaf (suc h) key s n []) tree.root
        ∙ find_leaf-trail s key h none none t [] tree.holds tree.ordered in
      let w =
        insert_in-IsWritten id cells (trail h key t []) (Holds-reach_leaf h key t s tree.holds)
          (reach_leaf-Increasing h key none none t tree.ordered) room in
      (
        save id w.node s,
        with_cells h key w.new t,
        rw (small, found, w.runs) refl,
        record {
          tree = record {
            holds =
                Holds-with_cells key w.new id w.node s w.written h t refl tree.distinct tree.holds;
            ordered =
                Ordered-with_cells key w.new h none none t (some value) tree.ordered tt tt
                  w.increasing w.updates;
            distinct = subst Distinct (sym (ids-with_cells key w.new h t)) tree.distinct;
            root = tree.root ∙ sym (id_of-with_cells key w.new h t);
          };
          pages = ids-with_cells key w.new h t;
          contents = Updates-with_cells key w.new h none none t (some value) tree.ordered w.updates;
        },
      )
