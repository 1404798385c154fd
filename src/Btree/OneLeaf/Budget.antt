-- ===== src/Btree/OneLeaf/Budget.antt =====
-- src/btree: how many bytes the cells of a given set of keys take at most.
use key_v_db.Common.{
  ℕ, ◌+◌, ◌≤◌, ◌≡◌, ◌≢◌, sym, ap, ◌∙◌, subst, true, List, [], ◌∷◌, arith, ◌==◌, nat_eq, Bool-cases,
  Eq-cases, inl, inr, All, length,
}
use key_v_db.Common.Assoc.{remove, erase, contains, contains-erase}
use key_v_db.Common.Bytes.{Bytes, bytes_eq}
use key_v_db.Btree.{leaf_cell_size}
use key_v_db.Btree.Search.{bytes_ltb}
use key_v_db.Btree.Slotted.Capacity.{live, content}
use key_v_db.Btree.Cells.{Increasing, Above, bytes_ltb_irrefl}
use key_v_db.Btree.Node.{leaf_size}
use key_v_db.Btree.Insert.LeafHalves.{All-remove}

-- The bytes of one cell for each key, slots included, with values of `bound` bytes.
unfoldable pub budget : ℕ → List Bytes → ℕ
budget bound [] = 0
budget bound (k ∷ ks) = 2 + leaf_cell_size (length k) bound + budget bound ks

budget-erase_le :
    (bound : ℕ) (k : Bytes) (ks : List Bytes) → budget bound (erase k ks) ≤ budget bound ks
unfolding budget erase
budget-erase_le bound k [] = omega arith
budget-erase_le bound k (x ∷ ks) = elim (Bool-cases (x == k)) [
  | inl same ↦ rw same (omega (arith, budget-erase_le bound k ks))
  | inr other ↦ rw other (omega (arith, budget-erase_le bound k ks))
]

pub budget-erase :
    (bound : ℕ) (k : Bytes) (ks : List Bytes)
    → contains k ks ≡ true
    → budget bound (erase k ks) + (2 + leaf_cell_size (length k) bound) ≤ budget bound ks
unfolding budget erase contains
budget-erase bound k [] h = cc
budget-erase bound k (x ∷ ks) h = elim (Eq-cases x k) [
  | inl same ↦
      let e : leaf_cell_size (length x) bound ≡ leaf_cell_size (length k) bound =
        ap (λ y. leaf_cell_size (length y) bound) same.0 in
      rw same.1 (omega (arith, e, budget-erase_le bound k ks))
  | inr other ↦ rw other.1 (omega (arith, budget-erase bound k ks (rw other.1 at h)))
]

-- The cell's key is one of the keys, and its value is not longer than the bound.
abbrev pub Within : ℕ → List Bytes → Bytes → Bytes → Type 0
Within bound keys k v = (contains k keys ≡ true) × (length v ≤ bound)

abbrev Apart : Bytes → List (Bytes × Bytes) → Type 0
Apart k cells = All (λ (d : Bytes × Bytes). k ≢ d.0) cells

abbrev Unlike : List (Bytes × Bytes) → Type 0
Unlike [] = Unit {0}
Unlike (c ∷ cells) = Apart c.0 cells × Unlike cells

Above-Apart : (k : Bytes) (cells : List (Bytes × Bytes)) → Above k cells → Apart k cells
Above-Apart k [] above = tt
Above-Apart k (c ∷ cells) above = (
  λ e. cc (subst (λ x. bytes_ltb k x ≡ true) (sym e) above.0, bytes_ltb_irrefl k),
  Above-Apart k cells above.1,
)

Increasing-Unlike : (cells : List (Bytes × Bytes)) → Increasing cells → Unlike cells
Increasing-Unlike [] inc = tt
Increasing-Unlike (c ∷ cells) inc = (Above-Apart c.0 cells inc.0, Increasing-Unlike cells inc.1)

remove-Apart : (k : Bytes) (cells : List (Bytes × Bytes)) → Apart k (remove k cells)
unfolding remove
remove-Apart k [] = tt
remove-Apart k (c ∷ cells) = elim (Eq-cases c.0 k) [
  | inl same ↦ rw same.1 (remove-Apart k cells)
  | inr other ↦ rw other.1 (λ e. other.0 (sym e), remove-Apart k cells)
]

remove-Unlike : (k : Bytes) (cells : List (Bytes × Bytes)) → Unlike cells → Unlike (remove k cells)
unfolding remove
remove-Unlike k [] u = tt
remove-Unlike k (c ∷ cells) u = elim (Bool-cases (c.0 == k)) [
  | inl same ↦ rw same (remove-Unlike k cells u.1)
  | inr other ↦ rw other (All-remove (λ d. c.0 ≢ d.0) k cells u.0, remove-Unlike k cells u.1)
]

Within-erase :
    (bound : ℕ) (keys : List Bytes) (k : Bytes) (cells : List (Bytes × Bytes))
    → Apart k cells
    → All (λ (c : Bytes × Bytes). Within bound keys c.0 c.1) cells
    → All (λ (c : Bytes × Bytes). Within bound (erase k keys) c.0 c.1) cells
Within-erase bound keys k [] apart all = tt
Within-erase bound keys k (c ∷ cells) apart all = (
  (
    contains-erase k c.0 keys ∙ elim (Eq-cases k c.0) [
      | inl same ↦ absurd (apart.0 same.0)
      | inr other ↦ rw other.1 all.0.0
    ],
    all.0.1,
  ),
  Within-erase bound keys k cells apart.1 all.1,
)

-- Cells of different keys take no more than the budget of the keys.
live-budget :
    (bound : ℕ) (cells : List (Bytes × Bytes)) (keys : List Bytes)
    → Unlike cells
    → All (λ (c : Bytes × Bytes). Within bound keys c.0 c.1) cells
    → live leaf_size cells ≤ budget bound keys
unfolding live content leaf_cell_size
live-budget bound [] keys u all = omega arith
live-budget bound (c ∷ cells) keys u all =
    let rest =
      live-budget bound cells (erase c.0 keys) u.1 (Within-erase bound keys c.0 cells u.0 all.1) in
    omega (arith, rest, budget-erase bound c.0 keys all.0.0, all.0.1)

-- A cell within the budget fits beside the cells of the other keys.
pub put-budget :
    (bound : ℕ) (cells : List (Bytes × Bytes)) (keys : List Bytes) (k v : Bytes)
    → Increasing cells
    → All (λ (c : Bytes × Bytes). Within bound keys c.0 c.1) cells
    → Within bound keys k v
    → live leaf_size (remove k cells) + (2 + leaf_size k v) ≤ budget bound keys
unfolding live content
put-budget bound cells keys k v inc all new = omega (
  arith,
  live-budget bound ((k, v) ∷ remove k cells) keys
      (remove-Apart k cells, remove-Unlike k cells (Increasing-Unlike cells inc))
      (new, All-remove (λ c. Within bound keys c.0 c.1) k cells all),
)
