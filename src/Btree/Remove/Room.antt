-- ===== src/Btree/Remove/Room.antt =====
-- src/btree/btree.cpp, `BTree::remove` where the leaf stays more than half full or is the root: the
-- contents of the whole tree.
use key_v_db.Common.{
  ℕ, zero, suc, ◌≡◌, refl, sym, ap, ◌∙◌, subst, Bool, true, false, not, none, some, List, [],
  nat_eq, ◌==◌, ◌&&◌, ◌||◌, beq_refl, arith, leb, inl, inr, Bool-cases, Eq-cases, Option-cases,
  get_elem?-lt,
}
use key_v_db.Common.Assoc.{find, remove, find-remove, Distinct}
use key_v_db.Common.Bytes.{Bytes, bytes_eq}
use key_v_db.Common.Result.{ok}
use key_v_db.Btree.Slotted.{underflow, free_space}
use key_v_db.Btree.Slotted.Capacity.{live, IsLaidOut}
use key_v_db.Btree.Slotted.Ordered.{
  IsValid, is_at-IsValid, slot_of-IsValid, removed, remove_cell-removed, removed-IsValid,
}
use key_v_db.Btree.Cells.{Increasing, is_some, rank, get_elem?-rank}
use key_v_db.Btree.Cells.Changes.{remove_at-rank}
use key_v_db.Btree.Node.{Node, Leaf, leaf_size, leaf_of, with_leaf}
use key_v_db.Btree.Store.{Store, done, fetch, save}
use key_v_db.Btree.Descent.{find_leaf}
use key_v_db.Btree.Remove
use key_v_db.Btree.Remove.{remove_in}
use key_v_db.Btree.Shape.{Shape, flatten, ids, HoldsLeaf}
use key_v_db.Btree.Shape.Get.{
  reach_leaf, trail, find_leaf-trail, find-reach_leaf, Holds-reach_leaf, reach_leaf-Increasing,
}
use key_v_db.Btree.Shape.Contents.{Updates}
use key_v_db.Btree.Shape.Put.{
  with_cells, id_of-with_cells, ids-with_cells, Ordered-with_cells, Updates-with_cells,
}
use key_v_db.Btree.Shape.Save.{Holds-with_cells, IsTree}

-- The leaf is the root, or its other cells take at least half of the page.
unfoldable pub stays : (h : ℕ) → Bytes → Shape h → Bool
stays zero key t = true
stays (suc h) key t = leb 2020 (live leaf_size (remove key (reach_leaf (suc h) key t).1))

underflow-live :
    (s : Leaf)
    → IsLaidOut leaf_size s
    → leb 2020 (live leaf_size s.cells) ≡ true
    → underflow s ≡ false
unfolding underflow free_space live
underflow-live s o h = ground (arith, o.slots, o.apart, o.inside, h)

module _ (key : Bytes) (s : Store) where
  -- What a write of one leaf leaves.
  pub record IsErased (id : ℕ) (cells : List (Bytes × Bytes)) (breadcrumbs : List ℕ) : Type 0 where
    pub node : Node
    pub new : List (Bytes × Bytes)
    pub runs : remove_in key (id, breadcrumbs) s ≡ ok (true, save id node s)
    pub written : HoldsLeaf id new (save id node s)
    pub increasing : Increasing new
    pub updates : Updates key none cells new

  module _ (id : ℕ) (cells : List (Bytes × Bytes)) (breadcrumbs : List ℕ)
      (holds : HoldsLeaf id cells s) (inc : Increasing cells) where
    valid : IsValid leaf_size holds.body
    valid = record { laid_out = holds.laid_out; increasing = subst Increasing (sym holds.same) inc }

    remove_in-absent : find key cells ≡ none → remove_in key (id, breadcrumbs) s ≡ ok (false, s)
    unfolding fetch leaf_of
    remove_in-absent absent =
        rw
          (holds.here, holds.kind, is_at-IsValid leaf_size key holds.body valid, holds.same, absent)
          refl

    remove_in-IsErased :
        (old : Bytes)
        → find key cells ≡ some old
        → ((id == s.root) || leb 2020 (live leaf_size (remove key cells))) ≡ true
        → IsErased id cells breadcrumbs
    unfolding fetch leaf_of save
    remove_in-IsErased old present keeps =
        let present' : find key holds.body.cells ≡ some old = ap (find key) holds.same ∙ present in
        let r = rank key holds.body.cells in
        let here = get_elem?-rank key holds.body.cells old valid.increasing present' in
        let less = get_elem?-lt holds.body.cells r (key, old) here in
        let l = removed r holds.body in
        let v = removed-IsValid leaf_size r holds.body valid less in
        let rest : l.cells ≡ remove key cells =
          remove_at-rank key holds.body.cells valid.increasing (ap is_some present')
          ∙ ap (remove key) holds.same in
        let no : (underflow l && not (id == s.root)) ≡ false = elim (Bool-cases (id == s.root)) [
          | inl root ↦ rw root (ground arith)
          | inr other ↦
              let full : leb 2020 (live leaf_size (remove key cells)) ≡ true = rw other at keeps in
              rw
                (underflow-live l v.laid_out
                  (subst (λ xs. leb 2020 (live leaf_size xs) ≡ true) (sym rest) full))
                refl
        ] in
        record {
          node = with_leaf holds.node l;
          new = l.cells;
          runs =
              rw
                (
                  holds.here,
                  holds.kind,
                  is_at-IsValid leaf_size key holds.body valid,
                  present',
                  slot_of-IsValid leaf_size key holds.body valid,
                  remove_cell-removed leaf_size r holds.body valid less,
                  no,
                )
                refl;
          written = record {
            node = with_leaf holds.node l;
            body = l;
            here = rw (beq_refl id) refl;
            kind = refl;
            laid_out = v.laid_out;
            same = refl;
          };
          increasing = v.increasing;
          updates = λ j. ap (find j) rest ∙ find-remove key j cells;
        }

  -- The tree after a removal.
  pub record IsRemovedTree (h : ℕ) (t t' : Shape h) (s' : Store) : Type 0 where
    pub tree : IsTree h t' s'
    pub pages : ids h t' ≡ ids h t
    pub contents : Updates key none (flatten h t) (flatten h t')

  stays-keeps :
      (h : ℕ) (t : Shape h)
      → IsTree h t s
      → stays h key t ≡ true
      → (((reach_leaf h key t).0 == s.root)
          || leb 2020 (live leaf_size (remove key (reach_leaf h key t).1)))
        ≡ true
  unfolding stays reach_leaf
  stays-keeps zero t tree h = rw (tree.root, beq_refl t.0) refl
  stays-keeps (suc n) t tree h = rw h (ground arith)

  found_leaf :
      (h : ℕ) (t : Shape h)
      → IsTree h t s
      → find_leaf (suc h) key s s.root [] ≡ done ((reach_leaf h key t).0, trail h key t [])
  found_leaf h t tree =
      ap (λ n. find_leaf (suc h) key s n []) tree.root
      ∙ find_leaf-trail s key h none none t [] tree.holds tree.ordered

  remove_some :
      (h : ℕ) (t : Shape h) (old : Bytes)
      → IsTree h t s
      → stays h key t ≡ true
      → find key (reach_leaf h key t).1 ≡ some old
      → (s' : Store) × (t' : Shape h) × (Remove.remove (suc h) key s ≡ done (true, s'))
        × IsRemovedTree h t t' s'
  unfolding Remove.remove save
  remove_some h t old tree keeps present =
      let (id, cells) = reach_leaf h key t in
      let w =
        remove_in-IsErased id cells (trail h key t []) (Holds-reach_leaf h key t s tree.holds)
          (reach_leaf-Increasing h key none none t tree.ordered) old present
          (stays-keeps h t tree keeps) in
      (
        save id w.node s,
        with_cells h key w.new t,
        rw (found_leaf h t tree, w.runs) refl,
        record {
          tree = record {
            holds =
                Holds-with_cells key w.new id w.node s w.written h t refl tree.distinct tree.holds;
            ordered =
                Ordered-with_cells key w.new h none none t none tree.ordered tt tt w.increasing
                  w.updates;
            distinct = subst Distinct (sym (ids-with_cells key w.new h t)) tree.distinct;
            root = tree.root ∙ sym (id_of-with_cells key w.new h t);
          };
          pages = ids-with_cells key w.new h t;
          contents = Updates-with_cells key w.new h none none t none tree.ordered w.updates;
        },
      )

  -- Where the leaf of the key does not underflow or is the root, `remove` ends, with fuel for the
  -- levels of the tree, and says whether the key was there. The store holds an ordered tree of the
  -- same pages then, without the key, and no other key changes its value.
  pub remove_lem :
      (h : ℕ) (t : Shape h)
      → IsTree h t s
      → stays h key t ≡ true
      → (s' : Store) × (t' : Shape h) × (Remove.remove (suc h) key s
          ≡ done (is_some (find key (flatten h t)), s'))
        × IsRemovedTree h t t' s'
  unfolding Remove.remove
  remove_lem h t tree keeps =
      let reads = find-reach_leaf h key none none t tree.ordered in
      elim (Option-cases (find key (reach_leaf h key t).1)) [
        | inl absent ↦
            let (id, cells) = reach_leaf h key t in
            let runs =
              remove_in-absent id cells (trail h key t []) (Holds-reach_leaf h key t s tree.holds)
                (reach_leaf-Increasing h key none none t tree.ordered) absent in
            (
              s,
              t,
              rw (found_leaf h t tree, runs, reads, absent) refl,
              record {
                tree = tree;
                pages = refl;
                contents = λ j. elim (Eq-cases key j) [
                  | inl same ↦
                      rw same.1 (ap (λ x. find x (flatten h t)) (sym same.0) ∙ reads ∙ absent)
                  | inr other ↦ rw other.1 refl
                ];
              },
            )
        | inr (old, present) ↦
            let (s', t', runs, p) = remove_some h t old tree keeps present in
            (s', t', runs ∙ ap (λ o. done (is_some o, s')) (sym (reads ∙ present)), p)
      ]
