-- ===== src/Btree/Insert/Absent.antt =====
-- src/btree/btree.cpp, `BTree::insert`: a key that is in neither half of a split leaf.
use key_v_db.Common.{
  ℕ, zero, ◌+◌, ◌<◌, ◌≤◌, ◌≡◌, refl, sym, ap, ◌∙◌, false, none, some, List, [], ◌∷◌, ◌++◌, All,
  arith, ◌==◌, nat_eq, Bool-cases, inl, inr, length, append-nil,
}
use key_v_db.Common.Assoc.{find, remove}
use key_v_db.Common.Bytes.{Bytes, bytes_eq}
use key_v_db.Common.Result.{ok}
use key_v_db.Btree.Slotted.Capacity.{live, content, fits}
use key_v_db.Btree.Slotted.Ordered.{IsValid}
use key_v_db.Btree.Node.{Leaf, leaf_size, internal_size}
use key_v_db.Btree.Node.InsertLeaf.{leaf_fits}
use key_v_db.Btree.Store.{Store, done}
use key_v_db.Btree.Descent
use key_v_db.Btree.Descent.{find_leaf}
use key_v_db.Btree.Insert.{insert_into_parent}
use key_v_db.Btree.Insert.SplitPage.{IsSplitPage}
use key_v_db.Btree.Insert.NewRoot.{create_new_root_lem}
use key_v_db.Btree.Shape.{Shape, From, Before, Ordered, flatten, concat_map}
use key_v_db.Btree.Shape.Get.{get-find}
use key_v_db.Btree.Shape.Contents.{find-append, or_else}

-- A key is absent from two lists exactly if it is absent from both.
pub absent_parts :
    (key : Bytes) (xs ys : List (Bytes × Bytes))
    → find key (xs ++ ys) ≡ none
    → (find key xs ≡ none) × (find key ys ≡ none)
unfolding or_else
absent_parts key xs ys h =
    let e = sym (find-append key xs ys) ∙ h in
    elim (find key xs)
        as (λ o. or_else o (find key ys) ≡ none → (o ≡ none) × (find key ys ≡ none)) [
          | none ↦ λ g. (refl, g)
          | some v ↦ λ g. cc
        ]
      e

absent_both :
    (key : Bytes) (xs ys : List (Bytes × Bytes))
    → find key xs ≡ none
    → find key ys ≡ none
    → find key (xs ++ ys) ≡ none
unfolding or_else
absent_both key xs ys h g = find-append key xs ys ∙ rw (h, g) refl

-- A cell that does not fit beside one cell does not fit beside more.
pub no_room :
    (key value : Bytes) (cells : List (Bytes × Bytes))
    → 0 < length cells
    → All (λ (c : Bytes × Bytes). leaf_fits key value (c ∷ []) ≡ false) cells
    → leaf_fits key value cells ≡ false
unfolding leaf_fits fits live content remove
no_room key value [] pos alone = absurd (omega (arith, pos))
no_room key value (c ∷ cells) pos alone = elim (Bool-cases (c.0 == key)) [
  | inl same ↦ rw same (ground (arith, rw same at alone.0))
  | inr other ↦ rw other (ground (arith, rw other at alone.0))
]

pub no_room_beside :
    (key value : Bytes) (cells : List (Bytes × Bytes))
    → 0 < length cells
    → All (λ (c : Bytes × Bytes). leaf_fits key value (c ∷ []) ≡ false) cells
    → fits leaf_size key value cells ≡ false
unfolding leaf_fits fits live content remove
no_room_beside key value [] pos alone = absurd (omega (arith, pos))
no_room_beside key value (c ∷ cells) pos alone = elim (Bool-cases (c.0 == key)) [
  | inl same ↦ ground (arith, rw same at alone.0)
  | inr other ↦ ground (arith, rw other at alone.0)
]

module _ (key : Bytes) (id right_id : ℕ) (s s' : Store) (sep : Bytes) (left right : Leaf)
    (page : IsSplitPage s s' id right_id left right) (left_valid : IsValid leaf_size left)
    (right_valid : IsValid leaf_size right)
    (left_range : All (λ (c : Bytes × Bytes). From none c.0 × Before (some sep) c.0) left.cells)
    (right_range : All (λ (c : Bytes × Bytes). From (some sep) c.0 × Before none c.0) right.cells)
    (small_sep : 2 + internal_size sep 0 ≤ 1012) (no_left : find key left.cells ≡ none)
    (no_right : find key right.cells ≡ none) where
  -- A key that is in neither half is not found below the new root.
  pub lost_above :
      (s'' : Store) × (insert_into_parent [] id sep right_id s' ≡ ok s'')
      × (Descent.get 2 key s'' ≡ done none)
  unfolding insert_into_parent flatten concat_map
  lost_above =
      let g =
        create_new_root_lem zero (id, left.cells) (right_id, right.cells) sep s' page.steps.valid
          (record {
            node = page.on_left.node;
            body = left;
            here = page.on_left.here;
            kind = page.on_left.kind;
            laid_out = left_valid.laid_out;
            same = refl;
          })
          (record {
            node = page.on_right.node;
            body = right;
            here = page.on_right.here;
            kind = page.on_right.kind;
            laid_out = right_valid.laid_out;
            same = refl;
          })
          small_sep in
      let t : Shape 1 = (g.id, (id, left.cells), (sep, (right_id, right.cells)) ∷ []) in
      let o : Ordered 1 none none t =
        ((left_valid.increasing, left_range), tt, tt, (right_valid.increasing, right_range)) in
      (
        g.s',
        g.runs,
        get-find g.s' key 1 t g.holds o g.root
            ∙ ap done (
                absent_both key left.cells (right.cells ++ []) no_left
                  (ap (find key) (append-nil right.cells) ∙ no_right)),
      )
