-- ===== src/Btree/Cells/Changes.antt =====
-- Lists of cells in the order of their keys, for src/btree/node.cpp: what an insertion, a removal and
-- an overwriting at the place of the key do to the contents.
use key_v_db.Common.{
  ℕ, zero, suc, ◌≡◌, refl, sym, ap, subst, true, false, none, some, List, [], ◌∷◌, set, ◌==◌,
  nat_eq, if◌then◌else◌, Bool-cases, inl, inr, Eq-cases,
}
use key_v_db.Common.Assoc.{find, remove}
use key_v_db.Common.Bytes.{Bytes, bytes_eq}
use key_v_db.Btree.Search.{bytes_ltb, bytes_ltb_trans}
use key_v_db.Btree.Slotted.{insert_at, remove_at}
use key_v_db.Btree.Cells.{
  Above, Increasing, rank, Above-find, is_some, bytes_ltb_ne, bytes_ltb_total,
}

module _ {V : Type 0} where
  pub find-insert_at :
      (key j : Bytes) (v : V) (cells : List (Bytes × V))
      → find j (insert_at (rank key cells) (key, v) cells)
        ≡ (if key == j then some v else find j cells)
  unfolding rank find insert_at
  find-insert_at key j v [] = refl
  find-insert_at key j v (c ∷ cells) = elim (Bool-cases (bytes_ltb c.0 key)) [
    | inr here ↦ rw here refl
    | inl below ↦
        rw (below, find-insert_at key j v cells)
          (elim (Eq-cases key j) [
            | inl same ↦
                rw (same.1, subst (λ x. (c.0 == x) ≡ false) same.0 (bytes_ltb_ne c.0 key below))
                  refl
            | inr other ↦ rw other.1 refl
          ])
  ]

  Above-insert_at :
      (k : Bytes) (x : Bytes × V) (i : ℕ) (cells : List (Bytes × V))
      → bytes_ltb k x.0 ≡ true
      → Above k cells
      → Above k (insert_at i x cells)
  unfolding insert_at
  Above-insert_at k x zero cells h a = (h, a)
  Above-insert_at k x (suc i) [] h a = (h, tt)
  Above-insert_at k x (suc i) (c ∷ cells) h a = (a.0, Above-insert_at k x i cells h a.1)

  pub Above-trans :
      (k l : Bytes) (cells : List (Bytes × V))
      → bytes_ltb k l ≡ true
      → Above l cells
      → Above k cells
  Above-trans k l [] h a = tt
  Above-trans k l (c ∷ cells) h a = (bytes_ltb_trans k l c.0 h a.0, Above-trans k l cells h a.1)

  -- A cell with another key.
  find-other :
      (key : Bytes) (c : Bytes × V) (cells : List (Bytes × V))
      → find key (c ∷ cells) ≡ none
      → ((c.0 == key) ≡ false) × (find key cells ≡ none)
  unfolding find
  find-other key c cells h = elim (Bool-cases (c.0 == key)) [
    | inl same ↦ cc (rw same at h)
    | inr other ↦ (other, rw other at h)
  ]

  pub insert_at-Increasing :
      (key : Bytes) (v : V) (cells : List (Bytes × V))
      → Increasing cells
      → find key cells ≡ none
      → Increasing (insert_at (rank key cells) (key, v) cells)
  unfolding rank insert_at
  insert_at-Increasing key v [] inc h = (tt, tt)
  insert_at-Increasing key v (c ∷ cells) inc h =
      let (other, absent) = find-other key c cells h in
      elim (Bool-cases (bytes_ltb c.0 key)) [
        | inl below ↦ rw below (
          Above-insert_at c.0 (key, v) (rank key cells) cells below inc.0,
          insert_at-Increasing key v cells inc.1 absent,
        )
        | inr here ↦
            let before = bytes_ltb_total c.0 key here other in
            rw here ((before, Above-trans key c.0 cells before inc.0), inc)
      ]

  Above-remove_at :
      (k : Bytes) (i : ℕ) (cells : List (Bytes × V)) → Above k cells → Above k (remove_at i cells)
  unfolding remove_at
  Above-remove_at k i [] a = tt
  Above-remove_at k zero (c ∷ cells) a = a.1
  Above-remove_at k (suc i) (c ∷ cells) a = (a.0, Above-remove_at k i cells a.1)

  pub remove_at-Increasing :
      (i : ℕ) (cells : List (Bytes × V)) → Increasing cells → Increasing (remove_at i cells)
  unfolding remove_at
  remove_at-Increasing i [] inc = tt
  remove_at-Increasing zero (c ∷ cells) inc = inc.1
  remove_at-Increasing (suc i) (c ∷ cells) inc =
      (Above-remove_at c.0 i cells inc.0, remove_at-Increasing i cells inc.1)

  pub remove_absent :
      (key : Bytes) (cells : List (Bytes × V)) → find key cells ≡ none → remove key cells ≡ cells
  unfolding remove
  remove_absent key [] h = refl
  remove_absent key (c ∷ cells) h =
      let (other, absent) = find-other key c cells h in
      rw (other, remove_absent key cells absent) refl

  -- Removing the cell at the key's rank removes the key.
  pub remove_at-rank :
      (key : Bytes) (cells : List (Bytes × V))
      → Increasing cells
      → is_some (find key cells) ≡ true
      → remove_at (rank key cells) cells ≡ remove key cells
  unfolding rank find remove remove_at
  remove_at-rank key [] inc h = cc
  remove_at-rank key (c ∷ cells) inc h = elim (Bool-cases (bytes_ltb c.0 key)) [
    | inl below ↦
        let other = bytes_ltb_ne c.0 key below in
        rw (below, other) (ap (◌∷◌ c) (remove_at-rank key cells inc.1 (rw other at h)))
    | inr here ↦
        let gone = Above-find c.0 key cells inc.0 here in
        rw here (elim (Eq-cases c.0 key) [
          | inl same ↦ rw same.1 (sym (remove_absent key cells gone))
          | inr other ↦ cc (gone, rw other.1 at h)
        ])
  ]

  Above-set :
      (k key : Bytes) (v : V) (i : ℕ) (cells : List (Bytes × V))
      → bytes_ltb k key ≡ true
      → Above k cells
      → Above k (set cells i (key, v))
  Above-set k key v i [] h a = tt
  Above-set k key v zero (c ∷ cells) h a = (h, a.1)
  Above-set k key v (suc i) (c ∷ cells) h a = (a.0, Above-set k key v i cells h a.1)

  pub set-Increasing :
      (key : Bytes) (v : V) (cells : List (Bytes × V))
      → Increasing cells
      → is_some (find key cells) ≡ true
      → Increasing (set cells (rank key cells) (key, v))
  unfolding rank find
  set-Increasing key v [] inc h = tt
  set-Increasing key v (c ∷ cells) inc h = elim (Bool-cases (bytes_ltb c.0 key)) [
    | inl below ↦ rw below (
      Above-set c.0 key v (rank key cells) cells below inc.0,
      set-Increasing key v cells inc.1 (rw (bytes_ltb_ne c.0 key below) at h),
    )
    | inr here ↦ rw here (elim (Eq-cases c.0 key) [
      | inl same ↦ (subst (λ x. Above x cells) same.0 inc.0, inc.1)
      | inr other ↦ cc (Above-find c.0 key cells inc.0 here, rw other.1 at h)
    ])
  ]

  pub find-set :
      (key j : Bytes) (v : V) (cells : List (Bytes × V))
      → Increasing cells
      → is_some (find key cells) ≡ true
      → find j (set cells (rank key cells) (key, v)) ≡ (if key == j then some v else find j cells)
  unfolding rank find
  find-set key j v [] inc h = cc
  find-set key j v (c ∷ cells) inc h = elim (Bool-cases (bytes_ltb c.0 key)) [
    | inl below ↦
        let other = bytes_ltb_ne c.0 key below in
        rw (below, find-set key j v cells inc.1 (rw other at h))
          (elim (Eq-cases key j) [
            | inl same ↦ rw (same.1, subst (λ x. (c.0 == x) ≡ false) same.0 other) refl
            | inr differs ↦ rw differs.1 refl
          ])
    | inr here ↦ rw here (elim (Eq-cases c.0 key) [
      | inl same ↦ elim (Eq-cases key j) [
        | inl hit ↦ rw hit.1 refl
        | inr other ↦ rw (other.1, subst (λ x. (x == j) ≡ false) (sym same.0) other.1) refl
      ]
      | inr other ↦ cc (Above-find c.0 key cells inc.0 here, rw other.1 at h)
    ])
  ]
