-- ===== src/Btree/Shape/Change.antt =====
-- src/btree: a tree in which the leaf of one key gets other cells.
use key_v_db.Common.{
  ℕ, ◌≡◌, refl, sym, ap, ◌∙◌, subst, true, false, List, [], ◌∷◌, ◌++◌, if◌then◌else◌, arith,
  Bool-cases, inl, inr, Eq-cases, All, ◌||◌, nat_eq,
}
use key_v_db.Common.Assoc.{contains, Distinct}
use key_v_db.Common.Bytes.{Bytes, bytes_eq}
use key_v_db.Btree.Search.{bytes_ltb}
use key_v_db.Btree.Shape.{pick, concat_map}

unfoldable pub change : {T : Type 0} → (T → T) → Bytes → T → List (Bytes × T) → T × List (Bytes × T)
change g key first [] = (g first, [])
change g key first ((k, t) ∷ rest) =
    let (t', rest') = change g key t rest in
    if bytes_ltb key k then (g first, (k, t) ∷ rest) else (first, (k, t') ∷ rest')

pub contains-append :
    (a : ℕ) (xs ys : List ℕ) → contains a (xs ++ ys) ≡ (contains a xs || contains a ys)
unfolding contains
contains-append a [] ys = refl
contains-append a (x ∷ xs) ys = ground (arith, contains-append a xs ys)

-- The pages of two lists are apart.
pub Distinct-append :
    (xs ys : List ℕ)
    → Distinct (xs ++ ys)
    → Distinct xs × Distinct ys × ((a : ℕ) → contains a xs ≡ true → contains a ys ≡ false)
unfolding contains
Distinct-append [] ys d = (tt, d, λ a h. cc)
Distinct-append (x ∷ xs) ys d =
    let (dx, dy, apart) = Distinct-append xs ys d.1 in
    let fresh : contains x xs || contains x ys ≡ false = sym (contains-append x xs ys) ∙ d.0 in
    (
      (ground (arith, fresh), dx),
      dy,
      λ a h. elim (Eq-cases x a) [
        | inl same ↦ subst (λ b. contains b ys ≡ false) same.0 (ground (arith, fresh))
        | inr other ↦ apart a (rw other.1 at h)
      ],
    )

module _ {T : Type 0} (f : T → List ℕ) (l : ℕ) (P Q : T → Type 0)
    (frame : (t : T) → contains l (f t) ≡ false → P t → Q t) where
  pub frames :
      (first : T) (rest : List (Bytes × T))
      → contains l (f first ++ concat_map f rest) ≡ false
      → P first
      → All (λ (c : Bytes × T). P c.1) rest
      → Q first × All (λ (c : Bytes × T). Q c.1) rest
  unfolding concat_map
  frames first [] h p ps = (frame first (ground (arith, contains-append l (f first) [], h)) p, tt)
  frames first ((k, t) ∷ rest) h p ps =
      let apart = sym (contains-append l (f first) (f t ++ concat_map f rest)) ∙ h in
      (frame first (ground (arith, apart)) p, frames t rest (ground (arith, apart)) ps.0 ps.1)

module _ {T : Type 0} (f : T → List ℕ) (key : Bytes) (l : ℕ) where
  pub contains-pick :
      (first : T) (rest : List (Bytes × T))
      → contains l (f (pick key first rest)) ≡ true
      → contains l (f first ++ concat_map f rest) ≡ true
  unfolding pick concat_map
  contains-pick first [] h = contains-append l (f first) [] ∙ rw h refl
  contains-pick first ((k, t) ∷ rest) h = elim (Bool-cases (bytes_ltb key k)) [
    | inl before ↦ contains-append l (f first) (f t ++ concat_map f rest) ∙ rw (rw before at h) refl
    | inr from ↦
        contains-append l (f first) (f t ++ concat_map f rest)
        ∙ ap (λ b. contains l (f first) || b) (contains-pick t rest (rw from at h))
        ∙ ground arith
  ]

  module _ (g : T → T) (P Q : T → Type 0) (goes : T → Type 0)
      (member : (t : T) → goes t → contains l (f t) ≡ true)
      (frame : (t : T) → contains l (f t) ≡ false → P t → Q t)
      (hit : (t : T) → goes t → Distinct (f t) → P t → Q (g t)) where
    -- What holds of the other children is kept, if the pages are distinct.
    pub change-All :
        (first : T) (rest : List (Bytes × T))
        → goes (pick key first rest)
        → Distinct (f first ++ concat_map f rest)
        → P first
        → All (λ (c : Bytes × T). P c.1) rest
        → Q (change g key first rest).0 × All (λ (c : Bytes × T). Q c.1) (change g key first rest).1
    unfolding pick change concat_map
    change-All first [] here d p ps = (hit first here (Distinct-append (f first) [] d).0 p, tt)
    change-All first ((k, t) ∷ rest) here d p ps =
        let (d1, d2, apart) = Distinct-append (f first) (f t ++ concat_map f rest) d in
        elim (Bool-cases (bytes_ltb key k)) [
          | inl before ↦
              let here' = rw before at here in
              let others = apart l (member first here') in
              rw before (hit first here' d1 p, frames f l P Q frame t rest others ps.0 ps.1)
          | inr from ↦
              let here' = rw from at here in
              let there = contains-pick t rest (member (pick key t rest) here') in
              let away : contains l (f first) ≡ false = elim (Bool-cases (contains l (f first))) [
                | inl yes' ↦ cc (apart l yes', there)
                | inr no' ↦ no'
              ] in
              rw from (frame first away p, change-All t rest here' d2 ps.0 ps.1)
        ]
