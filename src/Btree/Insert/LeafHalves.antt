-- ===== src/Btree/Insert/LeafHalves.antt =====
-- src/btree/btree.cpp, `BTree::insert`: the cells of a split leaf once the new cell is in.
use key_v_db.Common.{
  ◌+◌, ◌<◌, ◌≤◌, ◌≡◌, refl, sym, ap, ◌∙◌, subst, true, false, Option, none, some, List, [], ◌∷◌,
  ◌++◌, if◌then◌else◌, arith, Bool-cases, inl, inr, Eq-cases, ◌==◌, nat_eq, All, length, get_elem?,
}
use key_v_db.Common.Assoc.{find, remove, find-remove}
use key_v_db.Common.Bytes.{Bytes, bytes_eq}
use key_v_db.Btree.{leaf_cell_size, internal_cell_size}
use key_v_db.Btree.Search.{bytes_ltb, bytes_ltb_trans}
use key_v_db.Btree.Slotted.{key_of}
use key_v_db.Btree.Slotted.Half.{AllWithin}
use key_v_db.Btree.Slotted.Ordered.{IsValid}
use key_v_db.Btree.Cells.{Above, Increasing, bytes_ltb_irrefl, bytes_ltb_total}
use key_v_db.Btree.Node.{Leaf, leaf_size, internal_size}
use key_v_db.Btree.Node.Split.{IsLeafSplit}
use key_v_db.Btree.Insert.LeafGrow.{All-Updates, All-both, valid}
use key_v_db.Btree.Shape.{From, Past, Before}
use key_v_db.Btree.Shape.Get.{All-early, All-late}
use key_v_db.Btree.Shape.Contents.{Updates, Updates-append_left, Updates-append_right}

pub All-remove :
    (Q : Bytes × Bytes → Type 0) (key : Bytes) (cells : List (Bytes × Bytes))
    → All Q cells
    → All Q (remove key cells)
unfolding remove
All-remove Q key [] all = tt
All-remove Q key (c ∷ cells) all = elim (Bool-cases (c.0 == key)) [
  | inl same ↦ rw same (All-remove Q key cells all.1)
  | inr other ↦ rw other (all.0, All-remove Q key cells all.1)
]

pub All-parts :
    {A : Type 0} (Q : A → Type 0) (xs ys : List A) → All Q (xs ++ ys) → All Q xs × All Q ys
All-parts Q [] ys all = (tt, all)
All-parts Q (x ∷ xs) ys all = let (l, r) = All-parts Q xs ys all.1 in ((all.0, l), r)

-- A list and its first key.
with_first :
    (cells : List (Bytes × Bytes)) (k : Bytes)
    → 0 < length cells
    → key_of (get_elem? cells 0) ≡ k
    → (w : Bytes) × (rest : List (Bytes × Bytes)) × (cells ≡ (k, w) ∷ rest)
with_first [] k pos e = absurd (omega (arith, pos))
with_first (c ∷ cells) k pos e = (c.1, cells, λ i. (e i, c.1) ∷ cells)

-- The keys in front of a cell are smaller, those from it on are not.
below_first :
    (xs ys : List (Bytes × Bytes)) (k w : Bytes)
    → Increasing (xs ++ ((k, w) ∷ ys))
    → All (λ (c : Bytes × Bytes). bytes_ltb c.0 k ≡ true) xs
below_first [] ys k w inc = tt
below_first (c ∷ xs) ys k w inc = (
  (All-parts (λ (d : Bytes × Bytes). bytes_ltb c.0 d.0 ≡ true) xs ((k, w) ∷ ys) inc.0).1.0,
  below_first xs ys k w inc.1,
)

not_below : (a b : Bytes) → bytes_ltb a b ≡ true → bytes_ltb b a ≡ false
not_below a b h = elim (Bool-cases (bytes_ltb b a)) [
  | inl again ↦ cc (bytes_ltb_trans a b a h again, bytes_ltb_irrefl a)
  | inr no' ↦ no'
]

from_first :
    (ys : List (Bytes × Bytes)) (k : Bytes)
    → Above k ys
    → All (λ (c : Bytes × Bytes). bytes_ltb c.0 k ≡ false) ys
from_first [] k above = tt
from_first (c ∷ ys) k above = (not_below k c.0 above.0, from_first ys k above.1)

From-Past : (lo : Option Bytes) (a b : Bytes) → From lo a → bytes_ltb a b ≡ true → Past lo b
From-Past none a b from less = tt
From-Past (some lo) a b from less = elim (Eq-cases a lo) [
  | inl same ↦ subst (λ x. bytes_ltb x b ≡ true) same.0 less
  | inr other ↦ bytes_ltb_trans lo a b (bytes_ltb_total a lo from other.1) less
]

All-first :
    (Q : Bytes → Type 0) (cells : List (Bytes × Bytes))
    → 0 < length cells
    → All (λ (c : Bytes × Bytes). Q c.0) cells
    → (k : Bytes) × Q k
All-first Q [] pos all = absurd (omega (arith, pos))
All-first Q (c ∷ cells) pos all = (c.0, all.0)

-- The cells of the two halves, the new cell among them.
pub record AreHalves (key value : Bytes) (lo hi : Option Bytes) (cells : List (Bytes × Bytes))
    (sep : Bytes) (left right : Leaf) : Type 0 where
  pub left_valid : IsValid leaf_size left
  pub right_valid : IsValid leaf_size right
  pub left_range : All (λ (c : Bytes × Bytes). From lo c.0 × Before (some sep) c.0) left.cells
  pub right_range : All (λ (c : Bytes × Bytes). From (some sep) c.0 × Before hi c.0) right.cells
  pub past : Past lo sep
  pub before : Before hi sep
  pub updates : Updates key (some value) cells (left.cells ++ right.cells)
  pub left_small : AllWithin leaf_size 1010 left.cells
  pub right_small : AllWithin leaf_size 1010 right.cells
  pub small_sep : 2 + internal_size sep 0 ≤ 1012

-- The halves before the new cell goes in, `r` the leaf without the key.
module _ (key value : Bytes) (lo hi : Option Bytes) (cells : List (Bytes × Bytes))
    (range : All (λ (c : Bytes × Bytes). From lo c.0 × Before hi c.0) cells) (r : Leaf)
    (same : r.cells ≡ remove key cells) (sep : Bytes) (left right : Leaf)
    (p : IsLeafSplit r sep left right) where
  pub whole : left.cells ++ right.cells ≡ remove key cells
  whole = p.whole ∙ same

  parts : (Q : Bytes × Bytes → Type 0) → All Q cells → All Q left.cells × All Q right.cells
  parts Q all =
      All-parts Q left.cells right.cells (subst (All Q) (sym whole) (All-remove Q key cells all))

  both-Increasing : Increasing r.cells → Increasing (left.cells ++ right.cells)
  both-Increasing inc = subst Increasing (sym p.whole) inc

  left_below : Increasing r.cells → All (λ (c : Bytes × Bytes). bytes_ltb c.0 sep ≡ true) left.cells
  left_below inc =
      let (w, rest, e) = with_first right.cells sep p.right_some p.first in
      below_first left.cells rest sep w
        (subst (λ xs. Increasing (left.cells ++ xs)) e (both-Increasing inc))

  right_from : All (λ (c : Bytes × Bytes). bytes_ltb c.0 sep ≡ false) right.cells
  right_from =
      let (w, rest, e) = with_first right.cells sep p.right_some p.first in
      let inc = subst Increasing e p.right_valid.increasing in
      subst (All (λ (c : Bytes × Bytes). bytes_ltb c.0 sep ≡ false)) (sym e)
        (bytes_ltb_irrefl sep, from_first rest sep inc.0)

  pub sep_in : (Q : Bytes × Bytes → Type 0) → All Q cells → (w : Bytes) × Q (sep, w)
  sep_in Q all =
      let (w, rest, e) = with_first right.cells sep p.right_some p.first in
      (w, (subst (All Q) e (parts Q all).1).0)

  past : Increasing r.cells → Past lo sep
  past inc =
      let (k, (from, less)) =
        All-first (λ k. From lo k × (bytes_ltb k sep ≡ true)) left.cells p.left_some
          (All-both (λ c. From lo c.0 × Before hi c.0) (λ c. bytes_ltb c.0 sep ≡ true)
            (λ c. From lo c.0 × (bytes_ltb c.0 sep ≡ true)) left.cells (λ c a b. (a.0, b))
            (parts _ range).0 (left_below inc)) in
      From-Past lo k sep from less

  -- What stays of the key's old cell.
  without :
      (ys : List (Bytes × Bytes))
      → Updates key (some value) (left.cells ++ right.cells) ys
      → Updates key (some value) cells ys
  without ys up j =
      up j
      ∙ ap (λ xs. if key == j then some value else find j xs) whole
      ∙ rw (find-remove key j cells)
          (elim (Bool-cases (key == j)) [ inl hit ↦ rw hit refl | inr other ↦ rw other refl ])

  pub left_range :
      Increasing r.cells
      → All (λ (c : Bytes × Bytes). From lo c.0 × Before (some sep) c.0) left.cells
  left_range inc =
      All-both (λ c. From lo c.0 × Before hi c.0) (λ c. bytes_ltb c.0 sep ≡ true)
        (λ c. From lo c.0 × Before (some sep) c.0) left.cells (λ c a b. (a.0, b)) (parts _ range).0
        (left_below inc)

  pub right_range : All (λ (c : Bytes × Bytes). From (some sep) c.0 × Before hi c.0) right.cells
  right_range =
      All-both (λ c. From lo c.0 × Before hi c.0) (λ c. bytes_ltb c.0 sep ≡ false)
        (λ c. From (some sep) c.0 × Before hi c.0) right.cells (λ c a b. (b, a.1)) (parts _ range).1
        right_from

  module _ (low : From lo key) (high : Before hi key) (small : AllWithin leaf_size 1010 cells)
      (new_small : 2 + leaf_size key value ≤ 1010) where
    small_sep : 2 + internal_size sep 0 ≤ 1012
    unfolding leaf_cell_size internal_cell_size
    small_sep =
        let (w, less) = sep_in (λ c. 2 + leaf_size c.0 c.1 ≤ 1010) small in omega (arith, less)

    pub AreHalves-left :
        (l : Leaf)
        → Increasing r.cells
        → bytes_ltb key sep ≡ true
        → IsValid leaf_size l
        → Updates key (some value) left.cells l.cells
        → AreHalves key value lo hi cells sep l right
    AreHalves-left l inc less valid up = record {
      left_valid = valid;
      right_valid = p.right_valid;
      left_range =
          All-Updates (λ k w. From lo k × Before (some sep) k) key value left.cells l.cells
            (low, less) (left_range inc) valid.increasing up;
      right_range = right_range;
      past = past inc;
      before = (sep_in (λ c. From lo c.0 × Before hi c.0) range).1.1;
      updates = without (l.cells ++ right.cells) (
          Updates-append_left key (some value) left.cells l.cells right.cells
            (All-early key sep hi right.cells right_range less) up);
      left_small =
          All-Updates (λ k w. 2 + leaf_size k w ≤ 1010) key value left.cells l.cells new_small
            (parts _ small).0 valid.increasing up;
      right_small = (parts _ small).1;
      small_sep = small_sep;
    }

    pub AreHalves-right :
        (l : Leaf)
        → Increasing r.cells
        → bytes_ltb key sep ≡ false
        → IsValid leaf_size l
        → Updates key (some value) right.cells l.cells
        → AreHalves key value lo hi cells sep left l
    AreHalves-right l inc from valid up = record {
      left_valid = p.left_valid;
      right_valid = valid;
      left_range = left_range inc;
      right_range =
          All-Updates (λ k w. From (some sep) k × Before hi k) key value right.cells l.cells
            (from, high) right_range valid.increasing up;
      past = past inc;
      before = (sep_in (λ c. From lo c.0 × Before hi c.0) range).1.1;
      updates = without (left.cells ++ l.cells) (
          Updates-append_right key (some value) right.cells l.cells left.cells
            (All-late key sep lo left.cells (left_range inc) from) up);
      left_small = (parts _ small).0;
      right_small =
          All-Updates (λ k w. 2 + leaf_size k w ≤ 1010) key value right.cells l.cells new_small
            (parts _ small).1 valid.increasing up;
      small_sep = small_sep;
    }
