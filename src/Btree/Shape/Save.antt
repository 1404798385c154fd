-- ===== src/Btree/Shape/Save.antt =====
-- src/btree: a write of one page in a store that holds a tree.
use key_v_db.Common.{
  ℕ, zero, suc, ◌≡◌, refl, sym, ap, ◌∙◌, subst, true, false, none, List, ◌++◌, arith, inl, inr,
  Eq-cases, ◌==◌, nat_eq, beq_refl,
}
use key_v_db.Common.Assoc.{contains, Distinct}
use key_v_db.Common.Bytes.{Bytes, bytes_eq}
use key_v_db.Btree.Node.{Node}
use key_v_db.Btree.Store.{Store, save}
use key_v_db.Btree.Shape.{
  Shape, id_of, pick, concat_map, ids, Holds, HoldsLeaf, HoldsInternal, Ordered,
}
use key_v_db.Btree.Shape.Change.{change-All, contains-pick, frames}
use key_v_db.Btree.Shape.Get.{reach_leaf}
use key_v_db.Btree.Shape.Put.{with_cells, id_of-with_cells, change-same}

frame_nodes :
    (l id : ℕ) (n : Node) (s : Store) → (id == l) ≡ false → (save l n s).nodes id ≡ s.nodes id
unfolding save
frame_nodes l id n s h = ground (arith, h)

HoldsLeaf-move :
    {id : ℕ} {cells : List (Bytes × Bytes)} {s s' : Store}
    → s'.nodes id ≡ s.nodes id
    → HoldsLeaf id cells s
    → HoldsLeaf id cells s'
HoldsLeaf-move e holds = record {
  node = holds.node;
  body = holds.body;
  here = e ∙ holds.here;
  kind = holds.kind;
  laid_out = holds.laid_out;
  same = holds.same;
}

HoldsInternal-move :
    {id first first' : ℕ} {cells cells' : List (Bytes × ℕ)} {s s' : Store}
    → s'.nodes id ≡ s.nodes id
    → first ≡ first'
    → cells ≡ cells'
    → HoldsInternal id first cells s
    → HoldsInternal id first' cells' s'
HoldsInternal-move e f c holds = record {
  node = holds.node;
  body = holds.body;
  here = e ∙ holds.here;
  kind = holds.kind;
  first = holds.first ∙ f;
  laid_out = holds.laid_out;
  same = holds.same ∙ c;
}

-- A tree without the page is as it was.
pub Holds-save :
    (l : ℕ) (n : Node) (s : Store) (h : ℕ) (t : Shape h)
    → contains l (ids h t) ≡ false
    → Holds h t s
    → Holds h t (save l n s)
unfolding ids contains
Holds-save l n s zero t away holds =
    HoldsLeaf-move (frame_nodes l t.0 n s (ground (arith, away))) holds
Holds-save l n s (suc h) (id, first, rest) away holds =
    let (first', rest') =
      frames (ids h) l (λ t. Holds h t s) (λ t. Holds h t (save l n s)) (Holds-save l n s h) first
        rest (ground (arith, away)) holds.1 holds.2 in
    (
      HoldsInternal-move (frame_nodes l id n s (ground (arith, away))) refl refl holds.0,
      first',
      rest',
    )

module _ (key : Bytes) where
  pub contains-reach_leaf : (h : ℕ) (t : Shape h) → contains (reach_leaf h key t).0 (ids h t) ≡ true
  unfolding reach_leaf ids contains
  contains-reach_leaf zero t = rw (beq_refl t.0) refl
  contains-reach_leaf (suc h) (id, first, rest) =
      let below =
        contains-pick (ids h) key _ first rest (contains-reach_leaf h (pick key first rest)) in
      ground (arith, below)

  module _ (cells : List (Bytes × Bytes)) (l : ℕ) (n : Node) (s : Store)
      (written : HoldsLeaf l cells (save l n s)) where
    pub Holds-with_cells :
        (h : ℕ) (t : Shape h)
        → (reach_leaf h key t).0 ≡ l
        → Distinct (ids h t)
        → Holds h t s
        → Holds h (with_cells h key cells t) (save l n s)
    unfolding reach_leaf ids with_cells
    Holds-with_cells zero t here d holds =
        subst (λ x. HoldsLeaf x cells (save l n s)) (sym here) written
    Holds-with_cells (suc h) (id, first, rest) here d holds =
        let g = with_cells h key cells in
        let (e, es) = change-same (id_of h) g (id_of-with_cells key cells h) key first rest in
        let member : (t : Shape h) → (reach_leaf h key t).0 ≡ l → contains l (ids h t) ≡ true =
          λ t to. ap (λ x. contains x (ids h t)) (sym to) ∙ contains-reach_leaf h t in
        let below = contains-pick (ids h) key l first rest (member (pick key first rest) here) in
        let away : (id == l) ≡ false = elim (Eq-cases id l) [
          | inl same ↦ cc (
            subst (λ x. contains x (ids h first ++ concat_map (ids h) rest) ≡ false) same.0 d.0,
            below,
          )
          | inr other ↦ other.1
        ] in
        let (first', rest') =
          change-All (ids h) key l g (λ t. Holds h t s) (λ t. Holds h t (save l n s))
            (λ t. (reach_leaf h key t).0 ≡ l) member (Holds-save l n s h)
            (λ t to d' holds'. Holds-with_cells h t to d' holds') first rest here d.1 holds.1
            holds.2 in
        (HoldsInternal-move (frame_nodes l id n s away) (sym e) (sym es) holds.0, first', rest')

-- The pages of the store form an ordered tree, each page at one place of it.
pub record IsTree (h : ℕ) (t : Shape h) (s : Store) : Type 0 where
  pub holds : Holds h t s
  pub ordered : Ordered h none none t
  pub distinct : Distinct (ids h t)
  pub root : s.root ≡ id_of h t
