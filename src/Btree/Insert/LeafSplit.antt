-- ===== src/Btree/Insert/LeafSplit.antt =====
-- src/btree/btree.cpp, `BTree::insert`: what an insertion makes of a leaf without room.
use key_v_db.Common.{
  ℕ, zero, ◌+◌, ◌≤◌, ◌≡◌, refl, sym, ap, ◌∙◌, subst, true, false, Option, none, List, arith,
  Bool-cases, inl, inr, Eq-cases, ◌==◌, nat_eq,
}
use key_v_db.Common.Assoc.{remove, contains}
use key_v_db.Common.Bytes.{Bytes, bytes_eq}
use key_v_db.Common.Result.{Result, ok}
use key_v_db.Btree.Search.{bytes_ltb}
use key_v_db.Btree.Slotted.Half.{AllWithin}
use key_v_db.Btree.Slotted.Ordered.{IsValid}
use key_v_db.Btree.Cells.{Increasing}
use key_v_db.Btree.Node.{Leaf, leaf_size, leaf_of, with_leaf}
use key_v_db.Btree.Node.InsertLeaf.{leaf_fits, insert_leaf_cell_lem}
use key_v_db.Btree.Node.SplitRoom.{halves-fit}
use key_v_db.Btree.Store.{Store, fetch}
use key_v_db.Btree.Store.Steps.{IsStore}
use key_v_db.Btree.Insert.{insert_in, insert_into_parent, split_leaf_page}
use key_v_db.Btree.Insert.SplitPage.{IsSplitPage, split_left, split_right}
use key_v_db.Btree.Insert.Outcome.{IsDivided}
use key_v_db.Btree.Insert.LeafGrow.{valid}
use key_v_db.Btree.Shape.{HoldsLeaf, From, Before, Ordered, flatten, ids}
use key_v_db.Btree.Slotted.Capacity.{packed}
use key_v_db.Btree.Insert.LeafHalves.{AreHalves, AreHalves-left, AreHalves-right}

module _ (key value : Bytes) (lo hi : Option Bytes) (id : ℕ) (cells : List (Bytes × Bytes))
    (s s' : Store) (right_id : ℕ) (sep : Bytes) (left right : Leaf) (run : Result Store)
    (up : ℕ → Bytes → ℕ → Store → Result Store) where
  split-AreHalves :
      run ≡ up id sep right_id s'
      → IsSplitPage s s' id right_id left right
      → HoldsLeaf id cells s
      → AreHalves key value lo hi cells sep left right
      → IsDivided key value zero lo hi (id, cells) s run up
  unfolding flatten ids contains
  split-AreHalves runs page holds halves =
      let apart : (right_id == id) ≡ false = elim (Eq-cases right_id id) [
        | inl same ↦ cc (ap s.nodes (sym same.0), page.absent, holds.here)
        | inr other ↦ other.1
      ] in
      record {
        s' = s';
        left = (id, left.cells);
        right = (right_id, right.cells);
        sep = sep;
        runs = runs;
        steps = page.steps;
        holds_left = record {
          node = page.on_left.node;
          body = left;
          here = page.on_left.here;
          kind = page.on_left.kind;
          laid_out = halves.left_valid.laid_out;
          same = refl;
        };
        holds_right = record {
          node = page.on_right.node;
          body = right;
          here = page.on_right.here;
          kind = page.on_right.kind;
          laid_out = halves.right_valid.laid_out;
          same = refl;
        };
        ordered_left = (halves.left_valid.increasing, halves.left_range);
        ordered_right = (halves.right_valid.increasing, halves.right_range);
        past = halves.past;
        before = halves.before;
        same_id = refl;
        distinct = (rw apart refl, (refl, tt));
        fresh = λ j h away. elim (Eq-cases right_id j) [
          | inl same ↦ subst (λ x. s.nodes x ≡ none) same.0 page.absent
          | inr other ↦ absurd (ground (arith, h, away, other.1))
        ];
        updates = halves.updates;
        small_left = halves.left_small;
        small_right = halves.right_small;
        small_sep = halves.small_sep;
      }

module _ (key value : Bytes) (lo hi : Option Bytes) (id : ℕ) (cells : List (Bytes × Bytes))
    (s : Store) (v : IsStore s) (holds : HoldsLeaf id cells s) (o : Ordered zero lo hi (id, cells))
    (low : From lo key) (high : Before hi key) (small : AllWithin leaf_size 1010 cells)
    (new_small : 2 + leaf_size key value ≤ 1010) (breadcrumbs : List ℕ) where
  body_valid : IsValid leaf_size holds.body
  body_valid = valid key value lo hi id cells s v holds o low high small new_small breadcrumbs

  -- Where a cell that takes at most 1010 bytes with its slot, as the leaf's cells do, does not fit into
  -- the leaf of its key, `BTree::insert` writes the leaf's page and one that was absent and goes on in
  -- the parent with a separator: the two pages hold ordered leaves within the leaf's bounds, on either
  -- side of the separator; in their cells the key has the value, and no other key changes its value;
  -- the cells of every other page stay.
  pub split_leaf_page-IsDivided :
      leaf_fits key value cells ≡ false
      → IsDivided key value zero lo hi
          (id, cells)
          s
          (insert_in key value (id, breadcrumbs) s)
          (insert_into_parent breadcrumbs)
  unfolding fetch leaf_of
  split_leaf_page-IsDivided none' =
      let full : leaf_fits key value holds.body.cells ≡ false =
        ap (leaf_fits key value) holds.same ∙ none' in
      let small' = subst (AllWithin leaf_size 1010) (sym holds.same) small in
      let ((fits, l), runs, q) = insert_leaf_cell_lem key value holds.body body_valid in
      let no : fits ≡ false = q.outcome ∙ full in
      let packed' = q.refused no in
      let (sep, left, right, splits, p, room) =
        halves-fit key value holds.body body_valid full small' new_small in
      let inc : Increasing (remove key holds.body.cells) =
        subst (λ x. Increasing x.cells) packed' q.valid.increasing in
      let same = ap (remove key) holds.same in
      let r = packed leaf_size (remove key holds.body.cells) in
      let first : insert_in key value (id, breadcrumbs) s
          ≡ split_leaf_page id (with_leaf holds.node r) breadcrumbs key value s =
        rw (holds.here, holds.kind, runs, no)
          (ap (λ x. split_leaf_page id (with_leaf holds.node x) breadcrumbs key value s) packed') in
      elim (Bool-cases (bytes_ltb key sep)) [
        | inl before ↦
            let room' : leaf_fits key value left.cells ≡ true = rw before at room in
            let ((fine, l'), again, q') = insert_leaf_cell_lem key value left p.left_valid in
            let yes' = q'.outcome ∙ room' in
            let (s', up, page) =
              split_left s v id holds.node holds.here r key value sep left right l' splits
                breadcrumbs before (again ∙ ap (λ b. ok (b, l')) yes') in
            split-AreHalves key value lo hi id cells s s' _ sep l' right _ _ (first ∙ up) page holds
              (AreHalves-left key value lo hi cells o.1 r same sep left right p low high small
                new_small l' inc before q'.valid (λ j. q'.contents j ∙ rw yes' refl))
        | inr from ↦
            let room' : leaf_fits key value right.cells ≡ true = rw from at room in
            let ((fine, l'), again, q') = insert_leaf_cell_lem key value right p.right_valid in
            let yes' = q'.outcome ∙ room' in
            let (s', up, page) =
              split_right s v id holds.node holds.here r key value sep left right l' splits
                breadcrumbs from (again ∙ ap (λ b. ok (b, l')) yes') in
            split-AreHalves key value lo hi id cells s s' _ sep left l' _ _ (first ∙ up) page holds
              (AreHalves-right key value lo hi cells o.1 r same sep left right p low high small
                new_small l' inc from q'.valid (λ j. q'.contents j ∙ rw yes' refl))
      ]
