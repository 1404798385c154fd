-- ===== src/Btree/Shape/Keep.antt =====
-- src/btree: a tree in a store whose pages keep their cells and children.
use key_v_db.Common.{
  ℕ, zero, suc, ◌≡◌, refl, sym, ap, ◌∙◌, true, List, [], ◌∷◌, ◌++◌, Bool-cases, inl, inr, All,
  arith, ◌||◌, nat_eq, Eq-cases, beq_refl,
}
use key_v_db.Common.Assoc.{contains}
use key_v_db.Common.Bytes.{Bytes}
use key_v_db.Btree.Store.{Store}
use key_v_db.Btree.Store.Steps.{Same, is_present}
use key_v_db.Btree.Shape.{Shape, id_of, concat_map, ids, Holds, HoldsLeaf, HoldsInternal}
use key_v_db.Btree.Shape.Change.{contains-append}

module _ (s s' : Store) where
  HoldsLeaf-Same :
      (id : ℕ) (cells : List (Bytes × Bytes))
      → Same s s' id
      → HoldsLeaf id cells s
      → HoldsLeaf id cells s'
  HoldsLeaf-Same id cells same holds =
      let (n, e, b, f) = same holds.node holds.here in
      record {
        node = n;
        body = holds.body;
        here = e;
        kind = b ∙ holds.kind;
        laid_out = holds.laid_out;
        same = holds.same;
      }

  pub HoldsInternal-Same :
      (id first : ℕ) (cells : List (Bytes × ℕ))
      → Same s s' id
      → HoldsInternal id first cells s
      → HoldsInternal id first cells s'
  HoldsInternal-Same id first cells same holds =
      let (n, e, b, f) = same holds.node holds.here in
      record {
        node = n;
        body = holds.body;
        here = e;
        kind = b ∙ holds.kind;
        first = f ∙ holds.first;
        laid_out = holds.laid_out;
        same = holds.same;
      }

  All-Same :
      {T : Type 0} (f : T → List ℕ) (P Q : T → Type 0) (rest : List (Bytes × T))
      → ((t : T) → ((j : ℕ) → contains j (f t) ≡ true → Same s s' j) → P t → Q t)
      → ((j : ℕ) → contains j (concat_map f rest) ≡ true → Same s s' j)
      → All (λ (c : Bytes × T). P c.1) rest
      → All (λ (c : Bytes × T). Q c.1) rest
  unfolding concat_map
  All-Same f P Q [] step same ps = tt
  All-Same f P Q (c ∷ rest) step same ps =
      let e : (j : ℕ)
          → contains j (f c.1 ++ concat_map f rest)
            ≡ (contains j (f c.1) || contains j (concat_map f rest)) =
        λ j. contains-append j (f c.1) (concat_map f rest) in
      (
        step c.1 (λ j h. same j (e j ∙ rw h refl)) ps.0,
        All-Same f P Q rest step (λ j h. same j (e j ∙ rw h (ground arith))) ps.1,
      )

  -- A tree of which no page changes its cells or children.
  pub Holds-Same :
      (h : ℕ) (t : Shape h)
      → ((j : ℕ) → contains j (ids h t) ≡ true → Same s s' j)
      → Holds h t s
      → Holds h t s'
  unfolding ids contains
  Holds-Same zero (id, cells) same holds =
      HoldsLeaf-Same id cells (same id (rw (beq_refl id) refl)) holds
  Holds-Same (suc h) (id, first, rest) same holds =
      let e : (j : ℕ)
          → contains j (ids h first ++ concat_map (ids h) rest)
            ≡ (contains j (ids h first) || contains j (concat_map (ids h) rest)) =
        λ j. contains-append j (ids h first) (concat_map (ids h) rest) in
      let below : (j : ℕ)
          → contains j (ids h first ++ concat_map (ids h) rest) ≡ true
          → Same s s' j =
        λ j p. same j (rw p (ground arith)) in
      (
        HoldsInternal-Same id _ _ (same id (rw (beq_refl id) refl)) holds.0,
        Holds-Same h first (λ j p. below j (e j ∙ rw p refl)) holds.1,
        All-Same (ids h) (λ t. Holds h t s) (λ t. Holds h t s') rest (Holds-Same h)
            (λ j p. below j (e j ∙ rw p (ground arith))) holds.2,
      )

module _ (s : Store) where
  All-present :
      {T : Type 0} (f : T → List ℕ) (P : T → Type 0) (rest : List (Bytes × T))
      → ((t : T) → P t → (j : ℕ) → contains j (f t) ≡ true → is_present (s.nodes j) ≡ true)
      → All (λ (c : Bytes × T). P c.1) rest
      → (j : ℕ) → contains j (concat_map f rest) ≡ true
      → is_present (s.nodes j) ≡ true
  unfolding concat_map contains
  All-present f P [] step ps j h = cc
  All-present f P (c ∷ rest) step ps j h =
      let e = sym (contains-append j (f c.1) (concat_map f rest)) ∙ h in
      elim (Bool-cases (contains j (f c.1))) [
        | inl yes' ↦ step c.1 ps.0 j yes'
        | inr no' ↦ All-present f P rest step ps.1 j (rw no' at e)
      ]

  -- Every page of the tree is there.
  pub ids-present :
      (h : ℕ) (t : Shape h)
      → Holds h t s
      → (j : ℕ) → contains j (ids h t) ≡ true
      → is_present (s.nodes j) ≡ true
  unfolding ids contains
  ids-present zero (id, cells) holds j h = elim (Eq-cases id j) [
    | inl same ↦ ap is_present (ap s.nodes (sym same.0) ∙ holds.here)
    | inr other ↦ absurd (ground (arith, h, other.1))
  ]
  ids-present (suc h) (id, first, rest) holds j p = elim (Eq-cases id j) [
    | inl same ↦ ap is_present (ap s.nodes (sym same.0) ∙ holds.0.here)
    | inr other ↦
        let below : contains j (ids h first ++ concat_map (ids h) rest) ≡ true = rw other.1 at p in
        let e = sym (contains-append j (ids h first) (concat_map (ids h) rest)) ∙ below in
        elim (Bool-cases (contains j (ids h first))) [
          | inl yes' ↦ ids-present h first holds.1 j yes'
          | inr no' ↦
              All-present (ids h) (λ t. Holds h t s) rest (ids-present h) holds.2 j (rw no' at e)
        ]
  ]

  pub id_of-present : (h : ℕ) (t : Shape h) → Holds h t s → is_present (s.nodes (id_of h t)) ≡ true
  id_of-present zero t holds = ap is_present holds.here
  id_of-present (suc h) t holds = ap is_present holds.0.here
