-- ===== src/Btree/Store/Links.antt =====
-- src/btree: the links between pages.
use key_v_db.Common.{
  ℕ, ◌≡◌, refl, sym, ap, subst, true, some, List, [], ◌∷◌, Bool-cases, inl, inr, ◌==◌, nat_eq,
  Option-cases,
}
use key_v_db.Common.Result.{ok}
use key_v_db.Storage.Page.{invalid_page_id}
use key_v_db.Btree.Node.{Node}
use key_v_db.Btree.Insert.{link_back}
use key_v_db.Common.{All}
use key_v_db.Btree.Store.{Store, fetch, save, edit, set_parent, with_parent, reparent, reparent_all}
use key_v_db.Btree.Store.Steps.{
  is_present, Linked, IsStore, Steps, Steps-refl, Steps-trans, Linked-mono, save-stays, save-links,
}

-- A node keeps its right sibling.
pub same_link :
    (s : Store)
    → IsStore s
    → (id : ℕ) (n n' : Node) → s.nodes id ≡ some n
    → n'.right_sibling ≡ n.right_sibling
    → Linked (save id n' s) n'.right_sibling
same_link s v id n n' e r = subst (Linked (save id n' s)) (sym r) (
    Linked-mono s (save id n' s) n.right_sibling (save-stays id n.right_sibling n' s)
      (v.linked id n e))

-- A page that is there.
pub present-some :
    (s : Store) (id : ℕ) → is_present (s.nodes id) ≡ true → (n : Node) × (s.nodes id ≡ some n)
present-some s id h = elim (Option-cases (s.nodes id)) [
  | inl absent ↦ cc (ap is_present absent, h)
  | inr (n, e) ↦ (n, e)
]

pub edit-Steps :
    (f : Node → Node) (s : Store)
    → IsStore s
    → (id : ℕ) → is_present (s.nodes id) ≡ true
    → ((n : Node)
        → (((f n).body ≡ n.body)
            × ((f n).first_child ≡ n.first_child)
            × ((f n).right_sibling ≡ n.right_sibling)))
    → (s' : Store) × (edit id f s ≡ ok s') × Steps s s' []
unfolding edit fetch
edit-Steps f s v id h links =
    let (n, e) = present-some s id h in
    let (b, c, r) = links n in
    (save id (f n) s, rw e refl, save-links s v id n (f n) e (same_link s v id n (f n) e r) b c)

pub set_parent-Steps :
    (s : Store)
    → IsStore s
    → (id parent_id : ℕ) → is_present (s.nodes id) ≡ true
    → (s' : Store) × (set_parent id parent_id s ≡ ok s') × Steps s s' []
unfolding set_parent
set_parent-Steps s v id parent_id h =
    edit-Steps (with_parent parent_id) s v id h (λ n. (refl, refl, refl))

pub link_back-Steps :
    (s : Store)
    → IsStore s
    → (id left_id : ℕ) → Linked s id
    → (s' : Store) × (link_back id left_id s ≡ ok s') × Steps s s' []
link_back-Steps s v id left_id h = elim (Bool-cases (id == invalid_page_id)) [
  | inl none' ↦ (s, rw none' refl, Steps-refl s v)
  | inr there ↦
      let (s', runs, p) =
        edit-Steps (λ n. record n { left_sibling = left_id }) s v id (rw there at h)
          (λ n. (refl, refl, refl)) in
      (s', rw there runs, p)
]

reparent-Steps :
    (s : Store)
    → IsStore s
    → (parent_id child : ℕ) → is_present (s.nodes child) ≡ true
    → (s' : Store) × (reparent parent_id child s ≡ ok s') × Steps s s' []
unfolding reparent
reparent-Steps s v parent_id child h = elim (Bool-cases (child == invalid_page_id)) [
  | inl none' ↦ (s, rw none' refl, Steps-refl s v)
  | inr there ↦ let (s', runs, p) = set_parent-Steps s v child parent_id h in (s', rw there runs, p)
]

All-stays :
    {s s' : Store} (children : List ℕ)
    → Steps s s' []
    → All (λ (id : ℕ). is_present (s.nodes id) ≡ true) children
    → All (λ (id : ℕ). is_present (s'.nodes id) ≡ true) children
All-stays [] p all = tt
All-stays (c ∷ children) p all = (p.stays c all.0, All-stays children p all.1)

pub reparent_all-Steps :
    (parent_id : ℕ) (children : List ℕ) (s : Store)
    → IsStore s
    → All (λ (id : ℕ). is_present (s.nodes id) ≡ true) children
    → (s' : Store) × (reparent_all parent_id children s ≡ ok s') × Steps s s' []
unfolding reparent_all
reparent_all-Steps parent_id [] s v all = (s, refl, Steps-refl s v)
reparent_all-Steps parent_id (c ∷ children) s v all =
    let (s1, runs1, p1) = reparent-Steps s v parent_id c all.0 in
    let (s2, runs2, p2) =
      reparent_all-Steps parent_id children s1 p1.valid (All-stays children p1 all.1) in
    (s2, rw runs1 runs2, Steps-trans p1 p2 (λ id h away. away))
