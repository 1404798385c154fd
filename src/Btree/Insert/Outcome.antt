-- ===== src/Btree/Insert/Outcome.antt =====
-- src/btree/btree.cpp, `BTree::insert`: what an insertion makes of a subtree. Either the subtree takes
-- the cell in, or it is split, and the separator goes to the parent.
use key_v_db.Common.{
  ℕ, zero, suc, ◌+◌, ◌≤◌, ◌≡◌, Option, some, none, ◌++◌, All, true, false, nat_eq,
}
use key_v_db.Common.Assoc.{contains, Distinct}
use key_v_db.Common.Bytes.{Bytes}
use key_v_db.Common.Result.{Result, ok}
use key_v_db.Btree.Node.{leaf_size, internal_size}
use key_v_db.Btree.Slotted.Half.{AllWithin}
use key_v_db.Btree.Store.{Store}
use key_v_db.Btree.Store.Steps.{Steps}
use key_v_db.Btree.Shape.{Shape, id_of, flatten, ids, Holds, Past, Before, Ordered}
use key_v_db.Btree.Shape.Contents.{Updates}

-- The cells of the leaves take at most 1010 bytes with their slots, those of the internal nodes 1012,
-- as much as the keys of such leaves need.
abbrev pub Small : (h : ℕ) → Shape h → Type 0
Small zero t = AllWithin leaf_size 1010 t.1
Small (suc h) (id, first, rest) =
    Small h first
    × All (λ (c : Bytes × Shape h). (2 + internal_size c.0 0 ≤ 1012) × Small h c.1) rest

module _ (key value : Bytes) (h : ℕ) (lo hi : Option Bytes) (t : Shape h) (s : Store)
    (run : Result Store) where
  pub record Absorbed : Type 0 where
    pub s' : Store
    pub t' : Shape h
    pub runs : run ≡ ok s'
    pub steps : Steps s s' (ids h t)
    pub holds : Holds h t' s'
    pub ordered : Ordered h lo hi t'
    pub same_id : id_of h t' ≡ id_of h t
    pub distinct : Distinct (ids h t')
    pub fresh :
        (id : ℕ) → contains id (ids h t') ≡ true → contains id (ids h t) ≡ false → s.nodes id ≡ none
    pub updates : Updates key (some value) (flatten h t) (flatten h t')
    pub small : Small h t'

  -- `up` goes on with the separator in the parent.
  pub record IsDivided (up : ℕ → Bytes → ℕ → Store → Result Store) : Type 0 where
    pub s' : Store
    pub left : Shape h
    pub right : Shape h
    pub sep : Bytes
    pub runs : run ≡ up (id_of h t) sep (id_of h right) s'
    pub steps : Steps s s' (ids h t)
    pub holds_left : Holds h left s'
    pub holds_right : Holds h right s'
    pub ordered_left : Ordered h lo (some sep) left
    pub ordered_right : Ordered h (some sep) hi right
    pub past : Past lo sep
    pub before : Before hi sep
    pub same_id : id_of h left ≡ id_of h t
    pub distinct : Distinct (ids h left ++ ids h right)
    pub fresh :
        (id : ℕ)
        → contains id (ids h left ++ ids h right) ≡ true
        → contains id (ids h t) ≡ false
        → s.nodes id ≡ none
    pub updates : Updates key (some value) (flatten h t) (flatten h left ++ flatten h right)
    pub small_left : Small h left
    pub small_right : Small h right
    pub small_sep : 2 + internal_size sep 0 ≤ 1012
