-- ===== src/Btree/Cells.antt =====
-- Lists of cells in the order of their keys, for src/btree/node.cpp: the place that `lower_bound`
-- finds, and what stands there.
pub mod Changes
pub mod Runs
use key_v_db.Common.{
  ℕ, zero, suc, ◌+◌, ◌-◌, ◌<◌, ◌≤◌, ◌^◌, ◌≡◌, ◌≢◌, ◌⊎◌, refl, sym, ap, ◌∙◌, subst, Bool, true,
  false, not, Option, none, some, List, [], ◌∷◌, ◌++◌, length, get_elem?, set, take, drop, All, ltb,
  ◌==◌, nat_eq, ◌&&◌, if◌then◌else◌, arith, Bool-cases, inl, inr, Eq-cases, beq_refl, All-append,
}
use key_v_db.Common.Assoc.{find, remove, find-remove}
use key_v_db.Common.Bytes.{Bytes, bytes_eq, bytes_beq, bytes_beq_iff}
use key_v_db.Btree.Search.{
  bytes_ltb, bytes_ltb_trans, lower_bound, search, lower_bound_lem, IsSorted,
}
use key_v_db.Btree.Slotted.{Slotted, insert_at, remove_at, slot_of, is_at, num_keys, key_at, key_of}

pub bytes_ltb_irrefl : (a : Bytes) → bytes_ltb a a ≡ false
unfolding bytes_ltb
bytes_ltb_irrefl [] = refl
bytes_ltb_irrefl (x ∷ a) = ground (arith, bytes_ltb_irrefl a)

pub bytes_ltb_total :
    (a b : Bytes) → bytes_ltb a b ≡ false → (a == b) ≡ false → bytes_ltb b a ≡ true
unfolding bytes_ltb bytes_beq
bytes_ltb_total [] [] h k = cc
bytes_ltb_total [] (y ∷ b) h k = cc
bytes_ltb_total (x ∷ a) [] h k = refl
bytes_ltb_total (x ∷ a) (y ∷ b) h k = ground (arith, bytes_ltb_total a b, h, k)

pub bytes_ltb_ne : (a b : Bytes) → bytes_ltb a b ≡ true → (a == b) ≡ false
bytes_ltb_ne a b h = elim (Eq-cases a b) [
  | inl same ↦ cc (h, ap (bytes_ltb a) (sym same.0), bytes_ltb_irrefl a)
  | inr other ↦ other.1
]

module _ {V : Type 0} where
  -- All keys are greater than the given one.
  abbrev pub Above : Bytes → List (Bytes × V) → Type 0
  Above k cells = All (λ (c : Bytes × V). bytes_ltb k c.0 ≡ true) cells

  abbrev pub Increasing : List (Bytes × V) → Type 0
  Increasing [] = Unit {0}
  Increasing (c ∷ cells) = Above c.0 cells × Increasing cells

  -- The number of cells at the front whose keys are smaller.
  unfoldable pub rank : Bytes → List (Bytes × V) → ℕ
  rank key [] = 0
  rank key (c ∷ cells) = let rest = rank key cells in if bytes_ltb c.0 key then suc rest else 0

  Above-get :
      (k : Bytes) (cells : List (Bytes × V)) (j : ℕ)
      → Above k cells
      → j < length cells
      → bytes_ltb k (key_of (get_elem? cells j)) ≡ true
  Above-get k [] j a h = absurd (omega (arith, h))
  Above-get k (c ∷ cells) zero a h = a.0
  Above-get k (c ∷ cells) (suc j) a h = Above-get k cells j a.1 (omega (arith, h))

  Increasing-IsSorted :
      (cells : List (Bytes × V))
      → Increasing cells
      → IsSorted (λ i. key_of (get_elem? cells i)) (length cells)
  Increasing-IsSorted [] inc i j h h' = absurd (omega (arith, h'))
  Increasing-IsSorted (c ∷ cells) inc i zero h h' = absurd (omega (arith, h))
  Increasing-IsSorted (c ∷ cells) inc zero (suc j) h h' =
      Above-get c.0 cells j inc.0 (omega (arith, h'))
  Increasing-IsSorted (c ∷ cells) inc (suc i) (suc j) h h' =
      Increasing-IsSorted cells inc.1 i j (omega (arith, h)) (omega (arith, h'))

  rank-le : (key : Bytes) (cells : List (Bytes × V)) → rank key cells ≤ length cells
  unfolding rank
  rank-le key [] = omega arith
  rank-le key (c ∷ cells) = ground (arith, rank-le key cells)

  -- A place that separates the smaller keys from the others is the rank.
  rank_only :
      (key : Bytes) (cells : List (Bytes × V)) (r : ℕ)
      → r ≤ length cells
      → ((i : ℕ) → i < length cells → bytes_ltb (key_of (get_elem? cells i)) key ≡ ltb i r)
      → r ≡ rank key cells
  unfolding rank
  rank_only key [] r le at = omega (arith, le)
  rank_only key (c ∷ cells) zero le at = ground (arith, at 0 (omega arith))
  rank_only key (c ∷ cells) (suc r) le at = ground (
    arith,
    at 0 (omega arith),
    rank_only key cells r (omega (arith, le)) (λ i h. at (suc i) (omega (arith, h)) ∙ ground arith),
  )

  lower_bound-rank :
      (key : Bytes) (cells : List (Bytes × V))
      → Increasing cells
      → length cells < 2 ^ 16
      → lower_bound (λ i. key_of (get_elem? cells i)) key (length cells) ≡ rank key cells
  unfolding lower_bound search rank
  lower_bound-rank key [] inc small = refl
  lower_bound-rank key (c ∷ cells) inc small =
      let split =
        lower_bound_lem (λ i. key_of (get_elem? (c ∷ cells) i)) key (length (c ∷ cells))
          (Increasing-IsSorted (c ∷ cells) inc) small in
      rank_only key (c ∷ cells) _ (split 0).0 (λ i h. ground (arith, (split i).1, h))

  pub slot_of-rank :
      (key : Bytes) (s : Slotted V)
      → Increasing s.cells
      → length s.cells < 2 ^ 16
      → slot_of key s ≡ rank key s.cells
  unfolding slot_of
  slot_of-rank key s inc small = lower_bound-rank key s.cells inc small

  pub Above-find :
      (k key : Bytes) (cells : List (Bytes × V))
      → Above k cells
      → bytes_ltb k key ≡ false
      → find key cells ≡ none
  unfolding find
  Above-find k key [] a h = refl
  Above-find k key (c ∷ cells) a h = elim (Eq-cases c.0 key) [
    | inl same ↦ cc (subst (λ x. bytes_ltb k x ≡ true) same.0 a.0, h)
    | inr other ↦ rw other.1 (Above-find k key cells a.1 h)
  ]

  abbrev pub is_some : Option V → Bool
  is_some none = false
  is_some (some v) = true

  -- The key stands at its rank if it stands in the cells at all.
  pub is_at-rank :
      (key : Bytes) (cells : List (Bytes × V))
      → Increasing cells
      → (ltb (rank key cells) (length cells) && (key_of (get_elem? cells (rank key cells)) == key))
        ≡ is_some (find key cells)
  unfolding rank find
  is_at-rank key [] inc = ground arith
  is_at-rank key (c ∷ cells) inc = elim (Bool-cases (bytes_ltb c.0 key)) [
    | inl below ↦
        rw (below, bytes_ltb_ne c.0 key below) (ground (arith, is_at-rank key cells inc.1))
    | inr here ↦ rw here (elim (Eq-cases c.0 key) [
      | inl same ↦ rw same.1 (ground arith)
      | inr other ↦ rw (other.1, Above-find c.0 key cells inc.0 here) (ground arith)
    ])
  ]

  -- The cell with the value of the key.
  pub get_elem?-rank :
      (key : Bytes) (cells : List (Bytes × V)) (v : V)
      → Increasing cells
      → find key cells ≡ some v
      → get_elem? cells (rank key cells) ≡ some (key, v)
  unfolding rank find
  get_elem?-rank key [] v inc h = cc
  get_elem?-rank key (c ∷ cells) v inc h = elim (Bool-cases (bytes_ltb c.0 key)) [
    | inl below ↦ rw below (get_elem?-rank key cells v inc.1 (rw (bytes_ltb_ne c.0 key below) at h))
    | inr here ↦ rw here (elim (Eq-cases c.0 key) [
      | inl same ↦
          let value : some c.1 ≡ some v = rw same.1 at h in
          let e : c.1 ≡ v = cc value in λ i. some (same.0 i, e i)
      | inr other ↦ cc (Above-find c.0 key cells inc.0 here, rw other.1 at h)
    ])
  ]
