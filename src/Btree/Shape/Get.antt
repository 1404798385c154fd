-- ===== src/Btree/Shape/Get.antt =====
-- src/btree/btree.cpp, `find_leaf` and `get` on a tree of any height.
use key_v_db.Common.{
  ℕ, zero, suc, ◌≡◌, refl, sym, ap, ◌∙◌, subst, true, false, Option, none, some, List, [], ◌∷◌, inl,
  inr, Eq-cases, All,
}
use key_v_db.Common.Assoc.{find}
use key_v_db.Common.Bytes.{Bytes, bytes_eq}
use key_v_db.Common.Result.{ok}
use key_v_db.Btree.Search.{bytes_ltb}
use key_v_db.Btree.Slotted.Ordered.{IsValid}
use key_v_db.Btree.Cells.{Above, Increasing}
use key_v_db.Btree.Node.{leaf_size, leaf_of}
use key_v_db.Btree.Store.{Store, done, fetch}
use key_v_db.Btree.Descent.{find_leaf, get, get_in, next_child}
use key_v_db.Btree.Descent.Lookup.{lookup-find}
use key_v_db.Btree.Shape.{
  Shape, id_of, pick, flatten, separators, Holds, HoldsLeaf, HoldsInternal, From, Before, Ordered,
}
use key_v_db.Btree.Shape.Route.{next_child-pick, pick-map}
use key_v_db.Btree.Shape.Chain.{
  All-pick, Chain-Increasing, Chain-pick, Chain-early, Chain-late, find-pick,
}

-- The leaf to which the search goes, and the internal nodes above it, the lowest first.
unfoldable pub reach_leaf : (h : ℕ) → Bytes → Shape h → ℕ × List (Bytes × Bytes)
reach_leaf zero key t = t
reach_leaf (suc h) key (id, first, rest) = reach_leaf h key (pick key first rest)

unfoldable pub trail : (h : ℕ) → Bytes → Shape h → List ℕ → List ℕ
trail zero key t breadcrumbs = breadcrumbs
trail (suc h) key (id, first, rest) breadcrumbs =
    trail h key (pick key first rest) (id ∷ breadcrumbs)

pub All-early :
    (key lo : Bytes) (hi : Option Bytes) (cells : List (Bytes × Bytes))
    → All (λ (c : Bytes × Bytes). From (some lo) c.0 × Before hi c.0) cells
    → bytes_ltb key lo ≡ true
    → find key cells ≡ none
unfolding find
All-early key lo hi [] all h = refl
All-early key lo hi (c ∷ cells) all h = elim (Eq-cases c.0 key) [
  | inl same ↦ cc (subst (λ x. bytes_ltb x lo ≡ false) same.0 all.0.0, h)
  | inr other ↦ rw other.1 (All-early key lo hi cells all.1 h)
]

pub All-late :
    (key hi : Bytes) (lo : Option Bytes) (cells : List (Bytes × Bytes))
    → All (λ (c : Bytes × Bytes). From lo c.0 × Before (some hi) c.0) cells
    → bytes_ltb key hi ≡ false
    → find key cells ≡ none
unfolding find
All-late key hi lo [] all h = refl
All-late key hi lo (c ∷ cells) all h = elim (Eq-cases c.0 key) [
  | inl same ↦ cc (subst (λ x. bytes_ltb x hi ≡ true) same.0 all.0.1, h)
  | inr other ↦ rw other.1 (All-late key hi lo cells all.1 h)
]

-- A tree has no key outside its range.
pub outside :
    (h : ℕ) (key : Bytes)
    → ((lo : Bytes) (hi : Option Bytes) (t : Shape h)
        → Ordered h (some lo) hi t
        → bytes_ltb key lo ≡ true
        → find key (flatten h t) ≡ none)
      × ((lo : Option Bytes) (hi : Bytes) (t : Shape h)
          → Ordered h lo (some hi) t
          → bytes_ltb key hi ≡ false
          → find key (flatten h t) ≡ none)
unfolding flatten
outside zero key =
    (λ lo hi t o h. All-early key lo hi t.1 o.1 h, λ lo hi t o h. All-late key hi lo t.1 o.1 h)
outside (suc h) key =
    let (early, late) = outside h key in
    (
      λ lo hi t o. Chain-early (Ordered h) (flatten h) key early late lo hi t.1 t.2 o,
      λ lo hi t o. Chain-late (Ordered h) (flatten h) key early late lo hi t.1 t.2 o,
    )

-- The value of a key is in the leaf that is reached.
pub find-reach_leaf :
    (h : ℕ) (key : Bytes) (lo hi : Option Bytes) (t : Shape h)
    → Ordered h lo hi t
    → find key (flatten h t) ≡ find key (reach_leaf h key t).1
unfolding flatten reach_leaf
find-reach_leaf zero key lo hi t o = refl
find-reach_leaf (suc h) key lo hi (id, first, rest) o =
    let (early, late) = outside h key in
    let (lo', hi', o') = Chain-pick (Ordered h) key lo hi first rest o in
    find-pick (Ordered h) (flatten h) key early late lo hi first rest o
    ∙ find-reach_leaf h key lo' hi' (pick key first rest) o'

pub reach_leaf-Increasing :
    (h : ℕ) (key : Bytes) (lo hi : Option Bytes) (t : Shape h)
    → Ordered h lo hi t
    → Increasing (reach_leaf h key t).1
unfolding reach_leaf
reach_leaf-Increasing zero key lo hi t o = o.0
reach_leaf-Increasing (suc h) key lo hi (id, first, rest) o =
    let (lo', hi', o') = Chain-pick (Ordered h) key lo hi first rest o in
    reach_leaf-Increasing h key lo' hi' (pick key first rest) o'

pub Holds-reach_leaf :
    (h : ℕ) (key : Bytes) (t : Shape h) (s : Store)
    → Holds h t s
    → Holds zero (reach_leaf h key t) s
unfolding reach_leaf
Holds-reach_leaf zero key t s holds = holds
Holds-reach_leaf (suc h) key (id, first, rest) s holds =
    Holds-reach_leaf h key (pick key first rest) s
      (All-pick (λ t. Holds h t s) key first rest holds.1 holds.2)

Above-separators :
    (h : ℕ) (k : Bytes) (rest : List (Bytes × Shape h)) → Above k rest → Above k (separators h rest)
Above-separators h k [] a = tt
Above-separators h k (c ∷ rest) a = (a.0, Above-separators h k rest a.1)

Increasing-separators :
    (h : ℕ) (rest : List (Bytes × Shape h)) → Increasing rest → Increasing (separators h rest)
Increasing-separators h [] inc = tt
Increasing-separators h (c ∷ rest) inc =
    (Above-separators h c.0 rest inc.0, Increasing-separators h rest inc.1)

module _ (s : Store) (key : Bytes) where
  next_child-Holds :
      (h : ℕ) (id : ℕ) (first : Shape h) (rest : List (Bytes × Shape h))
      → (holds : HoldsInternal id (id_of h first) (separators h rest) s) → Increasing rest
      → next_child key holds.node.first_child holds.body ≡ ok (id_of h (pick key first rest))
  next_child-Holds h id first rest holds inc =
      next_child-pick key holds.body
        (record {
          laid_out = holds.laid_out;
          increasing = subst Increasing (sym holds.same) (Increasing-separators h rest inc);
        })
        holds.node.first_child
      ∙ ap (λ cells. ok (pick key holds.node.first_child cells)) holds.same
      ∙ ap (λ n. ok (pick key n (separators h rest))) holds.first
      ∙ ap ok (pick-map (id_of h) key first rest)

  get_in-find :
      (id : ℕ) (cells : List (Bytes × Bytes))
      → HoldsLeaf id cells s
      → Increasing cells
      → get_in key id s ≡ ok (find key cells)
  unfolding fetch leaf_of
  get_in-find id cells holds inc =
      let valid : IsValid leaf_size holds.body = record {
        laid_out = holds.laid_out;
        increasing = subst Increasing (sym holds.same) inc;
      } in
      rw (holds.here, holds.kind)
        (lookup-find key holds.body valid ∙ ap (λ xs. ok (find key xs)) holds.same)

  -- One unit of fuel for each level of the tree is enough.
  pub find_leaf-trail :
      (h : ℕ) (lo hi : Option Bytes) (t : Shape h) (breadcrumbs : List ℕ)
      → Holds h t s
      → Ordered h lo hi t
      → find_leaf (suc h) key s (id_of h t) breadcrumbs
        ≡ done ((reach_leaf h key t).0, trail h key t breadcrumbs)
  unfolding find_leaf fetch reach_leaf trail
  find_leaf-trail zero lo hi t breadcrumbs holds o = rw (holds.here, holds.kind) refl
  find_leaf-trail (suc h) lo hi (id, first, rest) breadcrumbs holds o =
      let down =
        next_child-Holds h id first rest holds.0
          (Chain-Increasing (Ordered h) lo hi first rest o) in
      let (lo', hi', o') = Chain-pick (Ordered h) key lo hi first rest o in
      rw (holds.0.here, holds.0.kind, down)
        (find_leaf-trail h lo' hi' (pick key first rest) (id ∷ breadcrumbs)
          (All-pick (λ t. Holds h t s) key first rest holds.1 holds.2) o')

  -- On a store whose pages form an ordered tree of height `h`, `get` with fuel for the levels of the
  -- tree ends and finds what a walk over all the cells of all the leaves finds.
  pub get-find :
      (h : ℕ) (t : Shape h)
      → Holds h t s
      → Ordered h none none t
      → s.root ≡ id_of h t
      → get (suc h) key s ≡ done (find key (flatten h t))
  unfolding get
  get-find h t holds o root =
      let (id, cells) = reach_leaf h key t in
      let reads =
        get_in-find id cells (Holds-reach_leaf h key t s holds)
          (reach_leaf-Increasing h key none none t o) in
      let finds =
        ap (λ n. find_leaf (suc h) key s n []) root ∙ find_leaf-trail h none none t [] holds o in
      rw (finds, reads, find-reach_leaf h key none none t o) refl
