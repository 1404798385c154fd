-- ===== src/Btree/Store/Steps.antt =====
-- src/btree: what the operations of the tree do to the pages that they do not change.
use key_v_db.Common.{
  ℕ, ◌<◌, ◌≤◌, ◌≡◌, refl, sym, ap, ◌∙◌, subst, Bool, true, false, Option, none, some, List, [], ◌∷◌,
  if◌then◌else◌, arith, Bool-cases, inl, inr, Eq-cases, ◌==◌, nat_eq, ◌||◌, beq_refl, ltb, ltb→lt,
  nltb→le,
}
use key_v_db.Common.Assoc.{contains, Distinct}
use key_v_db.Storage.Page.{invalid_page_id}
use key_v_db.Btree.Node.{Node}
use key_v_db.Btree.Store.{Store, save}

abbrev pub is_present : Option Node → Bool
is_present none = false
is_present (some n) = true

-- There is no such page, or it holds a node.
abbrev pub Linked : Store → ℕ → Type 0
Linked s id = (id == invalid_page_id || is_present (s.nodes id)) ≡ true

-- Free pages and pages beyond the end of the file hold no node, and a leaf's right sibling is there.
pub record IsStore (s : Store) : Type 0 where
  pub linked : (id : ℕ) (n : Node) → s.nodes id ≡ some n → Linked s n.right_sibling
  pub free : (id : ℕ) → contains id s.free_pages ≡ true → s.nodes id ≡ none
  pub beyond : (id : ℕ) → s.num_pages ≤ id → s.nodes id ≡ none
  pub inside : (id : ℕ) → contains id s.free_pages ≡ true → id < s.num_pages
  pub distinct : Distinct s.free_pages

-- The page has the same cells and children as before; its links may differ.
abbrev pub Same : Store → Store → ℕ → Type 0
Same s s' id =
    (n : Node)
    → s.nodes id ≡ some n
    → (n' : Node) × (s'.nodes id ≡ some n') × (n'.body ≡ n.body) × (n'.first_child ≡ n.first_child)

-- From `s` to `s'` no other pages than the listed ones change their cells, and no page goes away.
pub record Steps (s s' : Store) (changed : List ℕ) : Type 0 where
  pub kept : (id : ℕ) → contains id changed ≡ false → Same s s' id
  pub stays : (id : ℕ) → is_present (s.nodes id) ≡ true → is_present (s'.nodes id) ≡ true
  pub root : s'.root ≡ s.root
  pub valid : IsStore s'

pub Steps-refl : (s : Store) → IsStore s → Steps s s []
Steps-refl s v = record {
  kept = λ id away n e. (n, e, refl, refl);
  stays = λ id h. h;
  root = refl;
  valid = v;
}

pub Steps-trans :
    {s s1 s2 : Store} {xs ys : List ℕ}
    → Steps s s1 xs
    → Steps s1 s2 ys
    → ((id : ℕ) → is_present (s.nodes id) ≡ true → contains id xs ≡ false → contains id ys ≡ false)
    → Steps s s2 xs
Steps-trans a b within = record {
  kept = λ id away n e.
      let (n1, e1, b1, f1) = a.kept id away n e in
      let (n2, e2, b2, f2) = b.kept id (within id (ap is_present e) away) n1 e1 in
      (n2, e2, b2 ∙ b1, f2 ∙ f1);
  stays = λ id h. b.stays id (a.stays id h);
  root = b.root ∙ a.root;
  valid = b.valid;
}

-- Nothing changes at first.
pub Steps-grow : {s s1 s2 : Store} {xs : List ℕ} → Steps s s1 [] → Steps s1 s2 xs → Steps s s2 xs
unfolding contains
Steps-grow a b = record {
  kept = λ id away n e.
      let (n1, e1, b1, f1) = a.kept id refl n e in
      let (n2, e2, b2, f2) = b.kept id away n1 e1 in (n2, e2, b2 ∙ b1, f2 ∙ f1);
  stays = λ id h. b.stays id (a.stays id h);
  root = b.root ∙ a.root;
  valid = b.valid;
}

-- Nothing changes afterwards.
pub Steps-rest : {s s1 s2 : Store} {xs : List ℕ} → Steps s s1 xs → Steps s1 s2 [] → Steps s s2 xs
unfolding contains
Steps-rest a b = Steps-trans a b (λ id h away. refl)

save_nodes :
    (id j : ℕ) (n : Node) (s : Store)
    → (save id n s).nodes j ≡ (if id == j then some n else s.nodes j)
unfolding save
save_nodes id j n s = refl

pub save-here : (id : ℕ) (n : Node) (s : Store) → (save id n s).nodes id ≡ some n
save-here id n s = save_nodes id id n s ∙ rw (beq_refl id) refl

pub save-stays :
    (id j : ℕ) (n : Node) (s : Store)
    → is_present (s.nodes j) ≡ true
    → is_present ((save id n s).nodes j) ≡ true
unfolding save
save-stays id j n s h = elim (Bool-cases (id == j)) [
  | inl same ↦ rw same refl
  | inr other ↦ rw other h
]

pub Linked-mono :
    (s s' : Store) (id : ℕ)
    → (is_present (s.nodes id) ≡ true → is_present (s'.nodes id) ≡ true)
    → Linked s id
    → Linked s' id
Linked-mono s s' id mono h = elim (Bool-cases (id == invalid_page_id)) [
  | inl none' ↦ rw none' refl
  | inr there ↦ rw there (mono (rw there at h))
]

-- The page is in the file and not free.
pub record IsOwned (s : Store) (id : ℕ) : Type 0 where
  pub taken : contains id s.free_pages ≡ false
  pub inside : id < s.num_pages

pub present-IsOwned :
    (s : Store) → IsStore s → (id : ℕ) → is_present (s.nodes id) ≡ true → IsOwned s id
present-IsOwned s v id h = record {
  taken = elim (Bool-cases (contains id s.free_pages)) [
    | inl yes' ↦ cc (ap is_present (v.free id yes'), h)
    | inr no' ↦ no'
  ];
  inside = elim (Bool-cases (ltb id s.num_pages)) [
    | inl less ↦ ltb→lt id s.num_pages less
    | inr more ↦ cc (ap is_present (v.beyond id (nltb→le id s.num_pages more)), h)
  ];
}

owned_free :
    {s : Store} {id : ℕ}
    → IsOwned s id
    → (j : ℕ) → contains j s.free_pages ≡ true
    → (id == j) ≡ false
owned_free {s} {id} own j h = elim (Eq-cases id j) [
  | inl same ↦ cc (subst (λ x. contains x s.free_pages ≡ false) same.0 own.taken, h)
  | inr other ↦ other.1
]

owned_beyond : {s : Store} {id : ℕ} → IsOwned s id → (j : ℕ) → s.num_pages ≤ j → (id == j) ≡ false
owned_beyond own j h = ground (arith, own.inside, h)

module _ (s : Store) (v : IsStore s) (a b : ℕ) (na nb : Node) (own-a : IsOwned s a)
    (own-b : IsOwned s b) where
  -- Two pages are written, one after the other.
  abbrev pub both : Store
  both = save b nb (save a na s)

  both_nodes :
      (j : ℕ) → both.nodes j ≡ (if b == j then some nb else if a == j then some na else s.nodes j)
  unfolding save
  both_nodes j = refl

  pub both-stays : (j : ℕ) → is_present (s.nodes j) ≡ true → is_present (both.nodes j) ≡ true
  both-stays j h = save-stays b j nb (save a na s) (save-stays a j na s h)

  away_none : (j : ℕ) → (b == j) ≡ false → (a == j) ≡ false → s.nodes j ≡ none → both.nodes j ≡ none
  away_none j nb' na' h = both_nodes j ∙ rw (nb', na', h) refl

  pub both-IsStore : Linked both na.right_sibling → Linked both nb.right_sibling → IsStore both
  unfolding save
  both-IsStore link-a link-b = record {
    linked = λ j n e. elim (Bool-cases (b == j)) [
      | inl same ↦
          let eq : some nb ≡ some n = rw same at e in
          let eq' : nb ≡ n = cc eq in subst (λ x. Linked both x.right_sibling) eq' link-b
      | inr other ↦ elim (Bool-cases (a == j)) [
        | inl same ↦
            let eq : some na ≡ some n = rw (other, same) at e in
            let eq' : na ≡ n = cc eq in subst (λ x. Linked both x.right_sibling) eq' link-a
        | inr differs ↦
            Linked-mono s both n.right_sibling (both-stays n.right_sibling)
              (v.linked j n (rw (other, differs) at e))
      ]
    ];
    free = λ j h. away_none j (owned_free own-b j h) (owned_free own-a j h) (v.free j h);
    beyond = λ j h. away_none j (owned_beyond own-b j h) (owned_beyond own-a j h) (v.beyond j h);
    inside = v.inside;
    distinct = v.distinct;
  }

  pub both-Steps :
      ((j : ℕ) → is_present (s.nodes j) ≡ true → (a == j) ≡ false → (b == j) ≡ false)
      → Linked both na.right_sibling
      → Linked both nb.right_sibling
      → Steps s both (a ∷ [])
  unfolding contains save
  both-Steps fresh link-a link-b = record {
    kept = λ j away n e.
        let na' : (a == j) ≡ false = ground (arith, away) in
        let nb' = fresh j (ap is_present e) na' in (n, both_nodes j ∙ rw (nb', na') e, refl, refl);
    stays = both-stays;
    root = refl;
    valid = both-IsStore link-a link-b;
  }

-- Writing a node twice is writing it once.
save-save : (id : ℕ) (n : Node) (s : Store) → save id n (save id n s) ≡ save id n s
unfolding save
save-save id n s = λ i. record s {
  nodes = λ j.
      (elim (Bool-cases (id == j))
          as (λ x.
            (if id == j then some n else if id == j then some n else s.nodes j)
            ≡ (if id == j then some n else s.nodes j)) [
              | inl same ↦ rw same refl
              | inr other ↦ rw other refl
            ])
        i;
}

module _ (s : Store) (v : IsStore s) (id : ℕ) (n n' : Node) (here : s.nodes id ≡ some n)
    (link : Linked (save id n' s) n'.right_sibling) where
  own : IsOwned s id
  own = present-IsOwned s v id (ap is_present here)

  link2 : Linked (both s v id id n' n' own own) n'.right_sibling
  link2 = subst (λ x. Linked x n'.right_sibling) (sym (save-save id n' s)) link

  -- A node is replaced.
  pub save-Steps : Steps s (save id n' s) (id ∷ [])
  save-Steps =
      subst (λ x. Steps s x (id ∷ [])) (save-save id n' s)
        (both-Steps s v id id n' n' own own (λ j h away. away) link2 link2)

  -- Only the links of a node change.
  pub save-links : n'.body ≡ n.body → n'.first_child ≡ n.first_child → Steps s (save id n' s) []
  save-links b f = record {
    kept = λ j away m e. elim (Eq-cases id j) [
      | inl same ↦
          let eq : some m ≡ some n = sym e ∙ ap s.nodes (sym same.0) ∙ here in
          let eq' : m ≡ n = cc eq in
          (
            n',
            subst (λ x. (save id n' s).nodes x ≡ some n') same.0 (save-here id n' s),
            b ∙ ap (λ x. x.body) (sym eq'),
            f ∙ ap (λ x. x.first_child) (sym eq'),
          )
      | inr other ↦ (m, save_nodes id j n' s ∙ rw other.1 e, refl, refl)
    ];
    stays = save-Steps.stays;
    root = save-Steps.root;
    valid = save-Steps.valid;
  }
