-- ===== src/Btree/Shape/Contents.antt =====
-- src/btree: the ranges and the contents of a tree in which the leaf of one key gets other cells.
use key_v_db.Common.{
  ◌≡◌, refl, subst, true, false, Option, none, some, List, [], ◌∷◌, ◌++◌, if◌then◌else◌, Bool-cases,
  inl, inr, Eq-cases, ◌==◌, All, beq_refl,
}
use key_v_db.Common.Assoc.{find}
use key_v_db.Common.Bytes.{Bytes, bytes_eq}
use key_v_db.Btree.Search.{bytes_ltb}
use key_v_db.Btree.Shape.{pick, concat_map, From, Before, Chain}
use key_v_db.Btree.Shape.Change.{change}
use key_v_db.Btree.Shape.Chain.{find-nil, Chain-early}

module _ {T : Type 0} (P : Option Bytes → Option Bytes → T → Type 0) (g : T → T) (key : Bytes)
    (goes : T → Type 0)
    (kept : (lo hi : Option Bytes) (t : T)
      → goes t
      → From lo key
      → Before hi key
      → P lo hi t
      → P lo hi (g t)) where
  -- The ranges stay, if the child to whose range the key belongs keeps its own.
  pub change-Chain :
      (lo hi : Option Bytes) (first : T) (rest : List (Bytes × T))
      → goes (pick key first rest)
      → From lo key
      → Before hi key
      → Chain P lo hi first rest
      → Chain P lo hi (change g key first rest).0 (change g key first rest).1
  unfolding change pick
  change-Chain lo hi first [] here low high c = kept lo hi first here low high c
  change-Chain lo hi first ((k, t) ∷ rest) here low high c = elim (Bool-cases (bytes_ltb key k)) [
    | inl before ↦
        rw before (kept lo (some k) first (rw before at here) low before c.0, c.1, c.2, c.3)
    | inr from ↦
        rw from (c.0, c.1, c.2, change-Chain (some k) hi t rest (rw from at here) from high c.3)
  ]

-- The value that a search through two lists finds.
unfoldable pub or_else : Option Bytes → Option Bytes → Option Bytes
or_else none b = b
or_else (some v) b = some v

or_else-none : (a : Option Bytes) → or_else a none ≡ a
unfolding or_else
or_else-none none = refl
or_else-none (some v) = refl

pub find-append :
    (key : Bytes) (xs ys : List (Bytes × Bytes))
    → find key (xs ++ ys) ≡ or_else (find key xs) (find key ys)
unfolding find or_else
find-append key [] ys = refl
find-append key (c ∷ xs) ys = elim (Bool-cases (c.0 == key)) [
  | inl same ↦ rw same refl
  | inr other ↦ rw other (find-append key xs ys)
]

-- The contents `ys` are `xs` with this value, or none, for the key.
abbrev pub Updates : Bytes → Option Bytes → List (Bytes × Bytes) → List (Bytes × Bytes) → Type 0
Updates key value xs ys = (j : Bytes) → find j ys ≡ (if key == j then value else find j xs)

pub Updates-append_left :
    (key : Bytes) (value : Option Bytes) (xs ys zs : List (Bytes × Bytes))
    → find key zs ≡ none
    → Updates key value xs ys
    → Updates key value (xs ++ zs) (ys ++ zs)
unfolding or_else
Updates-append_left key value xs ys zs absent up j =
    rw (find-append j ys zs, find-append j xs zs, up j)
      (elim (Eq-cases key j) [
        | inl same ↦ rw (same.1, subst (λ x. find x zs ≡ none) same.0 absent) (or_else-none value)
        | inr other ↦ rw other.1 refl
      ])

pub Updates-append_right :
    (key : Bytes) (value : Option Bytes) (xs ys zs : List (Bytes × Bytes))
    → find key zs ≡ none
    → Updates key value xs ys
    → Updates key value (zs ++ xs) (zs ++ ys)
unfolding or_else
Updates-append_right key value xs ys zs absent up j =
    rw (find-append j zs ys, find-append j zs xs, up j)
      (elim (Eq-cases key j) [
        | inl same ↦ rw (same.1, subst (λ x. find x zs ≡ none) same.0 absent) refl
        | inr other ↦ rw other.1 refl
      ])

module _ {T : Type 0} (P : Option Bytes → Option Bytes → T → Type 0) (f : T → List (Bytes × Bytes))
    (g : T → T) (key : Bytes) (value : Option Bytes)
    (early : (lo : Bytes) (hi : Option Bytes) (t : T)
      → P (some lo) hi t
      → bytes_ltb key lo ≡ true
      → find key (f t) ≡ none)
    (late : (lo : Option Bytes) (hi : Bytes) (t : T)
      → P lo (some hi) t
      → bytes_ltb key hi ≡ false
      → find key (f t) ≡ none) where
  pub change-Updates :
      (lo hi : Option Bytes) (first : T) (rest : List (Bytes × T))
      → Chain P lo hi first rest
      → Updates key value (f (pick key first rest)) (f (g (pick key first rest)))
      → Updates key value
          (f first ++ concat_map f rest)
          (f (change g key first rest).0 ++ concat_map f (change g key first rest).1)
  unfolding change concat_map pick
  change-Updates lo hi first [] c up =
      Updates-append_left key value (f first) (f (g first)) [] (find-nil key) up
  change-Updates lo hi first ((k, t) ∷ rest) c up = elim (Bool-cases (bytes_ltb key k)) [
    | inl before ↦
        let up' = rw before at up in
        rw before (
          Updates-append_left key value (f first) (f (g first)) (f t ++ concat_map f rest)
            (Chain-early P f key early late k hi t rest c.3 before) up')
    | inr from ↦
        let up' = rw from at up in
        rw from (
          Updates-append_right key value (f t ++ concat_map f rest)
            (f (change g key t rest).0 ++ concat_map f (change g key t rest).1) (f first)
            (late lo k first c.0 from) (change-Updates (some k) hi t rest c.3 up'))
  ]

-- The keys of the new cells are in the range.
pub All-find :
    (Q : Bytes → Type 0) (cells : List (Bytes × Bytes))
    → ((j v : Bytes) → find j cells ≡ some v → Q j)
    → All (λ (c : Bytes × Bytes). Q c.0) cells
unfolding find
All-find Q [] all = tt
All-find Q (c ∷ cells) all = (
  all c.0 c.1 (rw (beq_refl c.0) refl),
  All-find Q cells (λ j v h. elim (Bool-cases (c.0 == j)) [
    | inl same ↦ all j c.1 (rw same refl)
    | inr other ↦ all j v (rw other h)
  ]),
)

pub find-All :
    (Q : Bytes → Type 0) (cells : List (Bytes × Bytes)) (j v : Bytes)
    → All (λ (c : Bytes × Bytes). Q c.0) cells
    → find j cells ≡ some v
    → Q j
unfolding find
find-All Q [] j v all h = cc
find-All Q (c ∷ cells) j v all h = elim (Eq-cases c.0 j) [
  | inl same ↦ subst Q same.0 all.0
  | inr other ↦ find-All Q cells j v all.1 (rw other.1 at h)
]
