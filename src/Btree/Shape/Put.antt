-- ===== src/Btree/Shape/Put.antt =====
-- src/btree: the leaf of one key gets other cells, in a tree of any height and in the store.
use key_v_db.Common.{
  ℕ, zero, suc, ◌≡◌, refl, sym, ap, ap₂, ◌∙◌, subst, Option, List, [], ◌∷◌, ◌++◌, map, Bool-cases,
  inl, inr, Eq-cases, nat_eq,
}
use key_v_db.Common.Bytes.{Bytes, bytes_eq}
use key_v_db.Btree.Search.{bytes_ltb}
use key_v_db.Btree.Cells.{Increasing}
use key_v_db.Btree.Shape.{Shape, id_of, pick, concat_map, flatten, ids, From, Before, Ordered}
use key_v_db.Btree.Shape.Chain.{Chain-pick}
use key_v_db.Btree.Shape.Change.{change}
use key_v_db.Btree.Shape.Contents.{change-Chain, change-Updates, Updates, All-find, find-All}
use key_v_db.Btree.Shape.Get.{reach_leaf, outside}

unfoldable pub with_cells : (h : ℕ) → Bytes → List (Bytes × Bytes) → Shape h → Shape h
with_cells zero key cells t = (t.0, cells)
with_cells (suc h) key cells (id, first, rest) =
    let (first', rest') = change (with_cells h key cells) key first rest in (id, first', rest')

abbrev labelled : {T A : Type 0} → (T → A) → Bytes × T → Bytes × A
labelled f c = (c.0, f c.1)

module _ {T A : Type 0} (f : T → A) (g : T → T) (same : (t : T) → f (g t) ≡ f t) (key : Bytes) where
  pub change-same :
      (first : T) (rest : List (Bytes × T))
      → (f (change g key first rest).0 ≡ f first)
        × (map (labelled f) (change g key first rest).1 ≡ map (labelled f) rest)
  unfolding change
  change-same first [] = (same first, refl)
  change-same first ((k, t) ∷ rest) = elim (Bool-cases (bytes_ltb key k)) [
    | inl before ↦ rw before (same first, refl)
    | inr from ↦ let (e, es) = change-same t rest in rw from (refl, ap₂ (λ x xs. (k, x) ∷ xs) e es)
  ]

concat_map-map :
    {T : Type 0} (f : T → List ℕ) (rest : List (Bytes × T))
    → concat_map (λ xs. xs) (map (labelled f) rest) ≡ concat_map f rest
unfolding concat_map
concat_map-map f [] = refl
concat_map-map f (c ∷ rest) = ap (◌++◌ (f c.1)) (concat_map-map f rest)

module _ (key : Bytes) (cells : List (Bytes × Bytes)) where
  pub id_of-with_cells : (h : ℕ) (t : Shape h) → id_of h (with_cells h key cells t) ≡ id_of h t
  unfolding with_cells
  id_of-with_cells zero t = refl
  id_of-with_cells (suc h) t = refl

  pub ids-with_cells : (h : ℕ) (t : Shape h) → ids h (with_cells h key cells t) ≡ ids h t
  unfolding with_cells ids
  ids-with_cells zero t = refl
  ids-with_cells (suc h) (id, first, rest) =
      let g = with_cells h key cells in
      let (e, es) = change-same (ids h) g (ids-with_cells h) key first rest in
      let others =
        sym (concat_map-map (ids h) (change g key first rest).1)
        ∙ ap (concat_map (λ xs. xs)) es
        ∙ concat_map-map (ids h) rest in
      ap₂ (λ xs ys. id ∷ (xs ++ ys)) e others

  pub Ordered-with_cells :
      (h : ℕ) (lo hi : Option Bytes) (t : Shape h) (value : Option Bytes)
      → Ordered h lo hi t
      → From lo key
      → Before hi key
      → Increasing cells
      → Updates key value (reach_leaf h key t).1 cells
      → Ordered h lo hi (with_cells h key cells t)
  unfolding with_cells reach_leaf
  Ordered-with_cells zero lo hi t value o low high inc up = (
    inc,
    All-find (λ j. From lo j × Before hi j) cells
        (λ j v found. elim (Eq-cases key j) [
          | inl same ↦ subst (λ x. From lo x × Before hi x) same.0 (low, high)
          | inr other ↦
              find-All (λ j. From lo j × Before hi j) t.1 j v o.1
                (sym (up j ∙ rw other.1 refl) ∙ found)
        ]),
  )
  Ordered-with_cells (suc h) lo hi (id, first, rest) value o low high inc up =
      change-Chain (Ordered h) (with_cells h key cells) key
        (λ t. Updates key value (reach_leaf h key t).1 cells)
        (λ lo hi t up low high o. Ordered-with_cells h lo hi t value o low high inc up) lo hi first
        rest up low high o

  pub Updates-with_cells :
      (h : ℕ) (lo hi : Option Bytes) (t : Shape h) (value : Option Bytes)
      → Ordered h lo hi t
      → Updates key value (reach_leaf h key t).1 cells
      → Updates key value (flatten h t) (flatten h (with_cells h key cells t))
  unfolding with_cells reach_leaf flatten
  Updates-with_cells zero lo hi t value o up = up
  Updates-with_cells (suc h) lo hi (id, first, rest) value o up =
      let (lo', hi', o') = Chain-pick (Ordered h) key lo hi first rest o in
      change-Updates (Ordered h) (flatten h) (with_cells h key cells) key value (outside h key).0
        (outside h key).1 lo hi first rest o
        (Updates-with_cells h lo' hi' (pick key first rest) value o' up)
