-- ===== src/Btree/Shape/Chain.antt =====
-- src/btree: children with separators between them. A key can only be in the child to whose range
-- it belongs.
use key_v_db.Common.{
  ◌≡◌, refl, ◌∙◌, true, false, Option, none, some, List, [], ◌∷◌, ◌++◌, Bool-cases, inl, inr, ◌==◌,
  All,
}
use key_v_db.Common.Assoc.{find}
use key_v_db.Common.Bytes.{Bytes, bytes_eq}
use key_v_db.Btree.Search.{bytes_ltb, bytes_ltb_trans}
use key_v_db.Btree.Cells.{Above, Increasing}
use key_v_db.Btree.Cells.Changes.{Above-trans}
use key_v_db.Btree.Shape.{pick, concat_map, Chain}

pub All-pick :
    {T : Type 0} (P : T → Type 0) (key : Bytes) (first : T) (rest : List (Bytes × T))
    → P first
    → All (λ (c : Bytes × T). P c.1) rest
    → P (pick key first rest)
unfolding pick
All-pick P key first [] p ps = p
All-pick P key first ((k, t) ∷ rest) p ps = elim (Bool-cases (bytes_ltb key k)) [
  | inl before ↦ rw before p
  | inr from ↦ rw from (All-pick P key t rest ps.0 ps.1)
]

pub find-append_left :
    (key : Bytes) (xs ys : List (Bytes × Bytes))
    → find key ys ≡ none
    → find key (xs ++ ys) ≡ find key xs
unfolding find
find-append_left key [] ys h = h
find-append_left key (c ∷ xs) ys h = rw (find-append_left key xs ys h) refl

pub find-append_right :
    (key : Bytes) (xs ys : List (Bytes × Bytes))
    → find key xs ≡ none
    → find key (xs ++ ys) ≡ find key ys
unfolding find
find-append_right key [] ys h = refl
find-append_right key (c ∷ xs) ys h = elim (Bool-cases (c.0 == key)) [
  | inl same ↦ cc (rw same at h)
  | inr other ↦ rw other (find-append_right key xs ys (rw other at h))
]

pub find-nil : (key : Bytes) → find {V = Bytes} key [] ≡ none
unfolding find
find-nil key = refl

not_before :
    (key k hi : Bytes) → bytes_ltb k hi ≡ true → bytes_ltb key hi ≡ false → bytes_ltb key k ≡ false
not_before key k hi below from = elim (Bool-cases (bytes_ltb key k)) [
  | inl before ↦ cc (bytes_ltb_trans key k hi before below, from)
  | inr no' ↦ no'
]

module _ {T : Type 0} (P : Option Bytes → Option Bytes → T → Type 0) where
  Chain-Above :
      (k : Bytes) (hi : Option Bytes) (first : T) (rest : List (Bytes × T))
      → Chain P (some k) hi first rest
      → Above k rest
  Chain-Above k hi first [] c = tt
  Chain-Above k hi first ((j, t) ∷ rest) c =
      (c.1, Above-trans k j rest c.1 (Chain-Above j hi t rest c.3))

  pub Chain-Increasing :
      (lo hi : Option Bytes) (first : T) (rest : List (Bytes × T))
      → Chain P lo hi first rest
      → Increasing rest
  Chain-Increasing lo hi first [] c = tt
  Chain-Increasing lo hi first ((k, t) ∷ rest) c =
      (Chain-Above k hi t rest c.3, Chain-Increasing (some k) hi t rest c.3)

  pub Chain-pick :
      (key : Bytes) (lo hi : Option Bytes) (first : T) (rest : List (Bytes × T))
      → Chain P lo hi first rest
      → (lo' : Option Bytes) × (hi' : Option Bytes) × P lo' hi' (pick key first rest)
  unfolding pick
  Chain-pick key lo hi first [] c = (lo, hi, c)
  Chain-pick key lo hi first ((k, t) ∷ rest) c = elim (Bool-cases (bytes_ltb key k)) [
    | inl before ↦ (lo, some k, rw before c.0)
    | inr from ↦ let (lo', hi', p) = Chain-pick key (some k) hi t rest c.3 in (lo', hi', rw from p)
  ]

  module _ (f : T → List (Bytes × Bytes)) (key : Bytes)
      (early : (lo : Bytes) (hi : Option Bytes) (t : T)
        → P (some lo) hi t
        → bytes_ltb key lo ≡ true
        → find key (f t) ≡ none)
      (late : (lo : Option Bytes) (hi : Bytes) (t : T)
        → P lo (some hi) t
        → bytes_ltb key hi ≡ false
        → find key (f t) ≡ none) where
    pub Chain-early :
        (lo : Bytes) (hi : Option Bytes) (first : T) (rest : List (Bytes × T))
        → Chain P (some lo) hi first rest
        → bytes_ltb key lo ≡ true
        → find key (f first ++ concat_map f rest) ≡ none
    unfolding concat_map
    Chain-early lo hi first [] c h =
        find-append_left key (f first) [] (find-nil key) ∙ early lo hi first c h
    Chain-early lo hi first ((k, t) ∷ rest) c h =
        find-append_right key (f first) (f t ++ concat_map f rest) (early lo (some k) first c.0 h)
        ∙ Chain-early k hi t rest c.3 (bytes_ltb_trans key lo k h c.1)

    pub Chain-late :
        (lo : Option Bytes) (hi : Bytes) (first : T) (rest : List (Bytes × T))
        → Chain P lo (some hi) first rest
        → bytes_ltb key hi ≡ false
        → find key (f first ++ concat_map f rest) ≡ none
    unfolding concat_map
    Chain-late lo hi first [] c h =
        find-append_left key (f first) [] (find-nil key) ∙ late lo hi first c h
    Chain-late lo hi first ((k, t) ∷ rest) c h =
        find-append_right key (f first) (f t ++ concat_map f rest)
          (late lo k first c.0 (not_before key k hi c.2 h))
        ∙ Chain-late (some k) hi t rest c.3 h

    pub find-pick :
        (lo hi : Option Bytes) (first : T) (rest : List (Bytes × T))
        → Chain P lo hi first rest
        → find key (f first ++ concat_map f rest) ≡ find key (f (pick key first rest))
    unfolding concat_map pick
    find-pick lo hi first [] c = find-append_left key (f first) [] (find-nil key)
    find-pick lo hi first ((k, t) ∷ rest) c = elim (Bool-cases (bytes_ltb key k)) [
      | inl before ↦ rw before (
          find-append_left key (f first) (f t ++ concat_map f rest)
            (Chain-early k hi t rest c.3 before))
      | inr from ↦ rw from (
          find-append_right key (f first) (f t ++ concat_map f rest) (late lo k first c.0 from)
          ∙ find-pick (some k) hi t rest c.3)
    ]
