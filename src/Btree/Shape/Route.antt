-- ===== src/Btree/Shape/Route.antt =====
-- src/btree/btree.cpp, `find_leaf`: the child to which the search goes down, and the cells that the
-- other children have.
use key_v_db.Common.{
  ℕ, zero, suc, ◌+◌, ◌-◌, ◌<◌, ◌≡◌, ◌⊎◌, get_elem?-lt, refl, sym, ap, ◌∙◌, subst, true, false, some,
  List, [], ◌∷◌, length, get_elem?, map, ltb, nat_eq, if◌then◌else◌, arith, Bool-cases, inl, inr,
  Eq-cases, ◌==◌, ◌&&◌, Option-cases,
}
use key_v_db.Common.Assoc.{find}
use key_v_db.Common.Bytes.{Bytes, bytes_eq}
use key_v_db.Common.Result.{ok}
use key_v_db.Btree.Search.{bytes_ltb, bytes_ltb_trans}
use key_v_db.Btree.Slotted.{is_at, cell_at, key_of}
use key_v_db.Btree.Slotted.Ordered.{IsValid, slot_of-IsValid, is_at-IsValid}
use key_v_db.Btree.Cells.{
  Above, Increasing, rank, is_some, Above-find, get_elem?-rank, bytes_ltb_ne, bytes_ltb_irrefl,
  bytes_ltb_total,
}
use key_v_db.Btree.Node.{Internal, internal_size}
use key_v_db.Btree.Descent.{advance, upper, next_child}
use key_v_db.Btree.Shape.{pick}

bytes_ltb_asym : (a b : Bytes) → bytes_ltb a b ≡ true → bytes_ltb b a ≡ false
bytes_ltb_asym a b h = elim (Bool-cases (bytes_ltb b a)) [
  | inl again ↦ cc (bytes_ltb_trans a b a h again, bytes_ltb_irrefl a)
  | inr no' ↦ no'
]

module _ {V : Type 0} where
  -- The cells whose keys are not greater.
  reach : Bytes → List (Bytes × V) → ℕ
  reach key [] = 0
  reach key (c ∷ cells) = let rest = reach key cells in if bytes_ltb key c.0 then 0 else suc rest

  reach-Above : (key : Bytes) (cells : List (Bytes × V)) → Above key cells → reach key cells ≡ 0
  unfolding reach
  reach-Above key [] a = refl
  reach-Above key (c ∷ cells) a = rw a.0 refl

  reach-rank :
      (key : Bytes) (cells : List (Bytes × V))
      → Increasing cells
      → reach key cells
        ≡ (if is_some (find key cells) then suc (rank key cells) else rank key cells)
  unfolding reach rank find
  reach-rank key [] inc = refl
  reach-rank key (c ∷ cells) inc = elim (Bool-cases (bytes_ltb c.0 key)) [
    | inl below ↦
        rw
          (
            below,
            bytes_ltb_asym c.0 key below,
            bytes_ltb_ne c.0 key below,
            reach-rank key cells inc.1,
          )
          (elim (Option-cases (find key cells)) [
            | inl absent ↦ rw absent refl
            | inr present ↦ rw present.1 refl
          ])
    | inr here ↦ rw here (elim (Eq-cases c.0 key) [
      | inl same ↦
          let above = subst (λ x. Above x cells) same.0 inc.0 in
          rw
            (
              same.1,
              subst (λ x. bytes_ltb key x ≡ false) (sym same.0) (bytes_ltb_irrefl key),
              reach-Above key cells above,
            )
            refl
      | inr other ↦
          rw (other.1, bytes_ltb_total c.0 key here other.1, Above-find c.0 key cells inc.0 here)
            refl
    ])
  ]

  next_other :
      (key : Bytes) (cells : List (Bytes × V))
      → Above key cells
      → (ltb 1 (suc (length cells)) && (key_of (get_elem? cells 0) == key)) ≡ false
  next_other key [] a = ground arith
  next_other key (c ∷ cells) a = elim (Eq-cases c.0 key) [
    | inl same ↦ cc (subst (λ x. bytes_ltb key x ≡ true) same.0 a.0, bytes_ltb_irrefl key)
    | inr other ↦ rw other.1 (ground arith)
  ]

  -- Behind the key there is no second cell with it.
  not_again :
      (key : Bytes) (cells : List (Bytes × V))
      → Increasing cells
      → is_some (find key cells) ≡ true
      → (ltb (suc (rank key cells)) (length cells)
          && (key_of (get_elem? cells (suc (rank key cells))) == key))
        ≡ false
  unfolding rank find
  not_again key [] inc h = cc
  not_again key (c ∷ cells) inc h = elim (Bool-cases (bytes_ltb c.0 key)) [
    | inl below ↦
        rw below (ground (arith, not_again key cells inc.1 (rw (bytes_ltb_ne c.0 key below) at h)))
    | inr here ↦ rw here (elim (Eq-cases c.0 key) [
      | inl same ↦ next_other key cells (subst (λ x. Above x cells) same.0 inc.0)
      | inr other ↦ cc (Above-find c.0 key cells inc.0 here, rw other.1 at h)
    ])
  ]

  -- The child picked stands behind the last separator that is not greater.
  pick-reach :
      (key : Bytes) (first : V) (rest : List (Bytes × V))
      → ((reach key rest ≡ 0) × (pick key first rest ≡ first))
        ⊎ ((n : ℕ) × (k : Bytes) × (reach key rest ≡ suc n)
            × (get_elem? rest n ≡ some (k, pick key first rest)))
  unfolding reach pick
  pick-reach key first [] = inl (refl, refl)
  pick-reach key first ((k, t) ∷ rest) = elim (Bool-cases (bytes_ltb key k)) [
    | inl before ↦ inl (rw before refl, rw before refl)
    | inr from ↦ elim (pick-reach key t rest) [
      | inl stop ↦ inr (0, k, rw (from, stop.0) refl, rw (from, stop.1) refl)
      | inr (n, k', e, g) ↦ inr (suc n, k', rw (from, e) refl, rw from g)
    ]
  ]

pub pick-map :
    {T U : Type 0} (f : T → U) (key : Bytes) (first : T) (rest : List (Bytes × T))
    → pick key (f first) (map (λ c. (c.0, f c.1)) rest) ≡ f (pick key first rest)
unfolding pick
pick-map f key first [] = refl
pick-map f key first ((k, t) ∷ rest) = elim (Bool-cases (bytes_ltb key k)) [
  | inl before ↦ rw before refl
  | inr from ↦ rw from (pick-map f key t rest)
]

module _ (key : Bytes) (i : Internal) (v : IsValid internal_size i) where
  advance_stop : (fuel ub : ℕ) → is_at ub key i ≡ false → advance fuel key i ub ≡ ub
  unfolding advance
  advance_stop zero ub h = refl
  advance_stop (suc fuel) ub h = rw h refl

  is_at_here : is_some (find key i.cells) ≡ true → is_at (rank key i.cells) key i ≡ true
  is_at_here h =
      ap (λ n. is_at n key i) (sym (slot_of-IsValid internal_size key i v))
      ∙ is_at-IsValid internal_size key i v
      ∙ h

  is_at_next : is_some (find key i.cells) ≡ true → is_at (suc (rank key i.cells)) key i ≡ false
  unfolding is_at
  is_at_next h = not_again key i.cells v.increasing h

  advance_once :
      (fuel : ℕ)
      → 0 < fuel
      → is_some (find key i.cells) ≡ true
      → advance fuel key i (rank key i.cells) ≡ suc (rank key i.cells)
  unfolding advance
  advance_once zero pos h = absurd (omega (arith, pos))
  advance_once (suc fuel) pos h =
      let next : rank key i.cells + 1 ≡ suc (rank key i.cells) = omega arith in
      rw (is_at_here h) (rw next (advance_stop fuel (suc (rank key i.cells)) (is_at_next h)))

  upper-reach : upper key i ≡ reach key i.cells
  unfolding upper
  upper-reach =
      rw (slot_of-IsValid internal_size key i v, reach-rank key i.cells v.increasing)
        (elim (Option-cases (find key i.cells)) [
          | inl absent ↦ rw absent (
              advance_stop (length i.cells) (rank key i.cells) (
                ap (λ n. is_at n key i) (sym (slot_of-IsValid internal_size key i v))
                ∙ is_at-IsValid internal_size key i v
                ∙ ap is_some absent))
          | inr present ↦
              let here = get_elem?-rank key i.cells present.0 v.increasing present.1 in
              let less = get_elem?-lt i.cells (rank key i.cells) (key, present.0) here in
              rw present.1
                (advance_once (length i.cells) (omega (arith, less)) (ap is_some present.1))
        ])

  -- The search goes down to the child to whose range the key belongs.
  pub next_child-pick : (first : ℕ) → next_child key first i ≡ ok (pick key first i.cells)
  unfolding next_child cell_at
  next_child-pick first = rw upper-reach (elim (pick-reach key first i.cells) [
    | inl (e, p) ↦ rw (e, p) refl
    | inr (n, k, e, g) ↦
        let back : suc n - 1 ≡ n = omega arith in
        let no : (suc n == 0) ≡ false = ground arith in rw e (rw (no, back) (rw g refl))
  ])
