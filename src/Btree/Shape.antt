-- ===== src/Btree/Shape.antt =====
-- src/btree: the tree that the pages of a store form, as a value. The nodes of height 0 are the
-- leaves, and all leaves of a tree have the same height.
pub mod Route
mod Tests
pub mod Save
pub mod Put
pub mod Contents
pub mod Change
pub mod Chain
pub mod Get
pub mod Keep
use key_v_db.Common.{
  ℕ, zero, suc, ◌≡◌, Bool, true, false, Option, none, some, List, [], ◌∷◌, ◌++◌, map, All,
  if◌then◌else◌,
}
use key_v_db.Common.Bytes.{Bytes}
use key_v_db.Btree.Search.{bytes_ltb}
use key_v_db.Btree.Slotted.Capacity.{IsLaidOut}
use key_v_db.Btree.Cells.{Increasing}
use key_v_db.Btree.Node.{Node, Leaf, Internal, leaf, internal, leaf_size, internal_size}
use key_v_db.Btree.Store.{Store}

-- The page of a node, with its cells or its first child and the others behind their separators.
abbrev pub Shape : ℕ → Type 0
Shape zero = ℕ × List (Bytes × Bytes)
Shape (suc h) = ℕ × Shape h × List (Bytes × Shape h)

abbrev pub id_of : (h : ℕ) → Shape h → ℕ
id_of zero t = t.0
id_of (suc h) t = t.0

module _ {T : Type 0} where
  -- The child to whose range a key belongs: the last one whose separator is not greater.
  unfoldable pub pick : Bytes → T → List (Bytes × T) → T
  pick key first [] = first
  pick key first ((k, t) ∷ rest) =
      let next = pick key t rest in if bytes_ltb key k then first else next

  unfoldable pub concat_map : {A : Type 0} → (T → List A) → List (Bytes × T) → List A
  concat_map f [] = []
  concat_map f (c ∷ rest) = f c.1 ++ concat_map f rest

-- All cells of the leaves, from left to right.
unfoldable pub flatten : (h : ℕ) → Shape h → List (Bytes × Bytes)
flatten zero t = t.1
flatten (suc h) (id, first, rest) = flatten h first ++ concat_map (flatten h) rest

-- The pages of the tree.
unfoldable pub ids : (h : ℕ) → Shape h → List ℕ
ids zero t = t.0 ∷ []
ids (suc h) (id, first, rest) = id ∷ (ids h first ++ concat_map (ids h) rest)

abbrev pub separators : (h : ℕ) → List (Bytes × Shape h) → List (Bytes × ℕ)
separators h rest = map (λ c. (c.0, id_of h c.1)) rest

-- The store has the nodes of the tree, each with a header that agrees with its cells.
pub record HoldsLeaf (id : ℕ) (cells : List (Bytes × Bytes)) (s : Store) : Type 0 where
  pub node : Node
  pub body : Leaf
  pub here : s.nodes id ≡ some node
  pub kind : node.body ≡ leaf body
  pub laid_out : IsLaidOut leaf_size body
  pub same : body.cells ≡ cells

pub record HoldsInternal (id first_child : ℕ) (cells : List (Bytes × ℕ)) (s : Store) : Type 0 where
  pub node : Node
  pub body : Internal
  pub here : s.nodes id ≡ some node
  pub kind : node.body ≡ internal body
  pub first : node.first_child ≡ first_child
  pub laid_out : IsLaidOut internal_size body
  pub same : body.cells ≡ cells

abbrev pub Holds : (h : ℕ) → Shape h → Store → Type 0
Holds zero (id, cells) s = HoldsLeaf id cells s
Holds (suc h) (id, first, rest) s =
    HoldsInternal id (id_of h first) (separators h rest) s
    × Holds h first s
    × All (λ (c : Bytes × Shape h). Holds h c.1 s) rest

-- The bounds of a subtree; `none` is no bound.
abbrev pub From : Option Bytes → Bytes → Type 0
From none key = Unit {0}
From (some lo) key = bytes_ltb key lo ≡ false

abbrev pub Past : Option Bytes → Bytes → Type 0
Past none key = Unit {0}
Past (some lo) key = bytes_ltb lo key ≡ true

abbrev pub Before : Option Bytes → Bytes → Type 0
Before none key = Unit {0}
Before (some hi) key = bytes_ltb key hi ≡ true

-- The children cut the range of their parent at the separators.
abbrev pub Chain :
    {T : Type 0}
    → (Option Bytes → Option Bytes → T → Type 0)
    → Option Bytes
    → Option Bytes
    → T
    → List (Bytes × T)
    → Type 0
Chain P lo hi first [] = P lo hi first
Chain P lo hi first ((k, t) ∷ rest) =
    P lo (some k) first × Past lo k × Before hi k × Chain P (some k) hi t rest

abbrev pub Ordered : (h : ℕ) → Option Bytes → Option Bytes → Shape h → Type 0
Ordered zero lo hi (id, cells) =
    Increasing cells × All (λ (c : Bytes × Bytes). From lo c.0 × Before hi c.0) cells
Ordered (suc h) lo hi (id, first, rest) = Chain (Ordered h) lo hi first rest
