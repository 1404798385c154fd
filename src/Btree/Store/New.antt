-- ===== src/Btree/Store/New.antt =====
-- src/btree, `new_page`: the pages that a split adds.
use key_v_db.Common.{
  ℕ, ◌+◌, ◌≤◌, ◌≡◌, refl, sym, ap, ◌∙◌, subst, true, false, none, some, List, [], ◌∷◌, ◌++◌, arith,
  Bool-cases, inl, inr, Eq-cases, ◌==◌, nat_eq, beq_refl,
}
use key_v_db.Common.Assoc.{contains, Distinct}
use key_v_db.Storage.FreeList.{split_back}
use key_v_db.Btree.Node.{Node}
use key_v_db.Common.{◌⊎◌}
use key_v_db.Btree.Shape.Change.{contains-append, Distinct-append}
use key_v_db.Storage.Disk.{update}
use key_v_db.Btree.Store.{Store, save, new_page}
use key_v_db.Btree.Store.Steps.{
  is_present, Linked, IsStore, Steps, Steps-grow, Linked-mono, save-here, both-Steps, IsOwned,
  present-IsOwned,
}

split_back-append : (xs : List ℕ) (x : ℕ) → split_back (xs ++ (x ∷ [])) ≡ some (x, xs)
unfolding split_back
split_back-append [] x = refl
split_back-append (y ∷ xs) x = rw (split_back-append xs x) refl

-- A list is empty or has a last element.
last-cases : (xs : List ℕ) → (xs ≡ []) ⊎ ((ys : List ℕ) × (y : ℕ) × (xs ≡ ys ++ (y ∷ [])))
last-cases [] = inl refl
last-cases (x ∷ xs) = elim (last-cases xs) [
  | inl e ↦ inr ([], x, ap (◌∷◌ x) e)
  | inr (ys, y, e) ↦ inr (x ∷ ys, y, ap (◌∷◌ x) e)
]

-- A new page is one that was not there, and the other pages are as they were.
pub record IsNew (s : Store) (id : ℕ) (s' : Store) : Type 0 where
  pub absent : s.nodes id ≡ none
  pub nodes : (j : ℕ) → s'.nodes j ≡ s.nodes j
  pub owned : IsOwned s' id
  pub valid : IsStore s'
  pub root : s'.root ≡ s.root

the_last : (y : ℕ) → contains y (y ∷ []) ≡ true
unfolding contains
the_last y = rw (beq_refl y) refl

cleared_nodes :
    (s : Store) (id : ℕ) → s.nodes id ≡ none → (j : ℕ) → update s.nodes id none j ≡ s.nodes j
cleared_nodes s id h j = elim (Eq-cases id j) [
  | inl same ↦ rw same.1 (sym (ap s.nodes (sym same.0) ∙ h))
  | inr other ↦ rw other.1 refl
]

-- Fewer free pages, or more pages, and the same nodes.
fewer-IsStore :
    (s s' : Store)
    → IsStore s
    → ((j : ℕ) → s'.nodes j ≡ s.nodes j)
    → ((j : ℕ) → contains j s'.free_pages ≡ true → contains j s.free_pages ≡ true)
    → s.num_pages ≤ s'.num_pages
    → Distinct s'.free_pages
    → IsStore s'
fewer-IsStore s s' v same fewer more d = record {
  linked = λ j n e.
      Linked-mono s s' n.right_sibling (λ h. ap is_present (same n.right_sibling) ∙ h)
        (v.linked j n (sym (same j) ∙ e));
  free = λ j h. same j ∙ v.free j (fewer j h);
  beyond = λ j h. same j ∙ v.beyond j (omega (arith, more, h));
  inside = λ j h. omega (arith, more, v.inside j (fewer j h));
  distinct = d;
}

pub new_page-IsNew : (s : Store) → IsStore s → IsNew s (new_page s).0 (new_page s).1
unfolding new_page split_back contains
new_page-IsNew s v = elim (last-cases s.free_pages) [
  | inl e ↦
      let gone = v.beyond s.num_pages (omega arith) in
      rw (ap split_back e) (record {
        absent = gone;
        nodes = cleared_nodes s s.num_pages gone;
        owned = record { taken = ap (contains s.num_pages) e; inside = omega arith };
        valid =
            fewer-IsStore s
              (record s { nodes = update s.nodes s.num_pages none; num_pages = s.num_pages + 1 }) v
              (cleared_nodes s s.num_pages gone) (λ j h. h) (omega arith) v.distinct;
        root = refl;
      })
  | inr (ys, y, e) ↦
      let (d, _, apart) = Distinct-append ys (y ∷ []) (subst Distinct e v.distinct) in
      let more : (j : ℕ) → contains j (ys ++ (y ∷ [])) ≡ true → contains j s.free_pages ≡ true =
        λ j h. ap (contains j) e ∙ h in
      let last : contains y s.free_pages ≡ true =
        more y (contains-append y ys (y ∷ []) ∙ rw (beq_refl y) (ground arith)) in
      let gone = v.free y last in
      let fresh : contains y ys ≡ false = elim (Bool-cases (contains y ys)) [
        | inl yes' ↦ cc (apart y yes', the_last y)
        | inr no' ↦ no'
      ] in
      rw (ap split_back e ∙ split_back-append ys y) (record {
        absent = gone;
        nodes = cleared_nodes s y gone;
        owned = record { taken = fresh; inside = v.inside y last };
        valid =
            fewer-IsStore s (record s { nodes = update s.nodes y none; free_pages = ys }) v
              (cleared_nodes s y gone) (λ j h. more j (contains-append j ys (y ∷ []) ∙ rw h refl))
              (omega arith) d;
        root = refl;
      })
]

pub save_other :
    (id j : ℕ) (n : Node) (s : Store) → (id == j) ≡ false → (save id n s).nodes j ≡ s.nodes j
unfolding save
save_other id j n s other = rw other refl

pub IsNew-Steps : {s s' : Store} {id : ℕ} → IsNew s id s' → Steps s s' []
IsNew-Steps new = record {
  kept = λ j away n e. (n, new.nodes j ∙ e, refl, refl);
  stays = λ j h. ap is_present (new.nodes j) ∙ h;
  root = new.root;
  valid = new.valid;
}

-- An absent page is not one that is there.
pub absent_other :
    (s : Store) (absent_id id : ℕ)
    → s.nodes absent_id ≡ none
    → is_present (s.nodes id) ≡ true
    → (absent_id == id) ≡ false
absent_other s absent_id id gone h = elim (Eq-cases absent_id id) [
  | inl same ↦ cc (ap is_present (ap s.nodes (sym same.0) ∙ gone), h)
  | inr other ↦ other.1
]

-- A page and a new one are written, as a split does.
pub split_pages-Steps :
    (s s1 : Store) (id new_id : ℕ) (na nb : Node)
    → IsNew s new_id s1
    → is_present (s.nodes id) ≡ true
    → Linked (save new_id nb (save id na s1)) na.right_sibling
    → Linked (save new_id nb (save id na s1)) nb.right_sibling
    → Steps s (save new_id nb (save id na s1)) (id ∷ [])
      × ((save new_id nb (save id na s1)).nodes id ≡ some na)
      × ((save new_id nb (save id na s1)).nodes new_id ≡ some nb)
split_pages-Steps s s1 id new_id na nb new h link-a link-b =
    let there : is_present (s1.nodes id) ≡ true = ap is_present (new.nodes id) ∙ h in
    let other = absent_other s new_id id new.absent h in
    let steps =
      both-Steps s1 new.valid id new_id na nb (present-IsOwned s1 new.valid id there) new.owned
        (λ j p away. absent_other s1 new_id j (new.nodes new_id ∙ new.absent) p) link-a link-b in
    (
      Steps-grow (IsNew-Steps new) steps,
      save_other new_id id nb (save id na s1) other ∙ save-here id na s1,
      save-here new_id nb (save id na s1),
    )
