-- ===== src/Btree/Insert/SplitPage.antt =====
-- src/btree/btree.cpp, the end of `BTree::insert`: the pages behind the split of a leaf.
use key_v_db.Common.{
  Bool, ℕ, ◌≡◌, refl, ap, ◌∙◌, subst, true, false, none, some, List, [], ◌∷◌, arith, inl, inr,
  Eq-cases, ◌==◌, nat_eq, beq_refl,
}
use key_v_db.Common.Assoc.{contains}
use key_v_db.Common.Bytes.{Bytes}
use key_v_db.Common.Result.{Result, ok}
use key_v_db.Btree.Search.{bytes_ltb}
use key_v_db.Btree.Slotted.{blank}
use key_v_db.Btree.Node.{
  Node, Leaf, leaf, leaf_of, with_leaf, init_leaf, insert_leaf_cell, split_leaf, split_into,
}
use key_v_db.Btree.Store.{Store, fetch, save, edit_leaf, new_page}
use key_v_db.Btree.Store.Steps.{
  is_present, Linked, IsStore, Steps, Same, Steps-trans, Steps-rest, Linked-mono, save-here,
  save-stays, save-Steps,
}
use key_v_db.Btree.Store.Links.{link_back-Steps, same_link}
use key_v_db.Btree.Store.New.{IsNew, new_page-IsNew, save_other, split_pages-Steps, absent_other}
use key_v_db.Btree.Insert.{split_leaf_page, insert_into_parent, drop_flag, link_back}

-- The node of a page has these cells.
pub record HasLeaf (s : Store) (id : ℕ) (l : Leaf) : Type 0 where
  pub node : Node
  pub here : s.nodes id ≡ some node
  pub kind : node.body ≡ leaf l

HasLeaf-Same : {s s' : Store} {id : ℕ} {l : Leaf} → Same s s' id → HasLeaf s id l → HasLeaf s' id l
HasLeaf-Same same has =
    let (n', e, b, f) = same has.node has.here in
    record { node = n'; here = e; kind = b ∙ has.kind }

-- The cells of one leaf are changed.
edit_leaf-Steps :
    (f : Leaf → Result Leaf) (s : Store) (id : ℕ) (l l' : Leaf)
    → IsStore s
    → HasLeaf s id l
    → f l ≡ ok l'
    → (s' : Store) × (edit_leaf id f s ≡ ok s')
      × Steps s s' (id ∷ [])
      × HasLeaf s' id l'
      × ((j : ℕ) → (id == j) ≡ false → s'.nodes j ≡ s.nodes j)
unfolding edit_leaf fetch leaf_of
edit_leaf-Steps f s id l l' v has runs =
    let n' = with_leaf has.node l' in
    (
      save id n' s,
      rw (has.here, has.kind, runs) refl,
      save-Steps s v id has.node n' has.here (same_link s v id has.node n' has.here refl),
      record { node = n'; here = save-here id n' s; kind = refl },
      λ j other. save_other id j n' s other,
    )

-- The store behind the split of a leaf, `left` and `right` its new halves.
pub record IsSplitPage (s s' : Store) (id right_id : ℕ) (left right : Leaf) : Type 0 where
  pub steps : Steps s s' (id ∷ [])
  pub on_left : HasLeaf s' id left
  pub on_right : HasLeaf s' right_id right
  pub absent : s.nodes right_id ≡ none

module _ (s : Store) (v : IsStore s) (id : ℕ) (n0 : Node) (here : s.nodes id ≡ some n0)
    (rest : Leaf) (key value sep : Bytes) (left right l' : Leaf)
    (splits : split_leaf rest blank ≡ ok (sep, left, right)) (breadcrumbs : List ℕ) where
  abbrev pub n : Node
  n = with_leaf n0 rest

  abbrev pub right_id : ℕ
  right_id = (new_page s).0

  abbrev s1 : Store
  s1 = (new_page s).1

  new : IsNew s right_id s1
  new = new_page-IsNew s v

  abbrev node_l : Node
  node_l = record n0 { right_sibling = right_id; body = leaf left }

  abbrev node_r : Node
  node_r = record (init_leaf right_id n0.parent_id) {
    parent_id = n0.parent_id;
    right_sibling = n0.right_sibling;
    left_sibling = n0.page_id;
    body = leaf right;
  }

  abbrev s2 : Store
  s2 = save right_id node_r (save id node_l s1)

  splits_into : split_into n (init_leaf right_id n.parent_id) ≡ ok (sep, node_l, node_r)
  unfolding split_into leaf_of init_leaf
  splits_into = rw splits refl

  right_there : is_present (s2.nodes right_id) ≡ true
  right_there = ap is_present (save-here right_id node_r (save id node_l s1))

  link_l : Linked s2 node_l.right_sibling
  link_l = rw right_there (ground arith)

  old_link : Linked s2 n0.right_sibling
  old_link =
      Linked-mono s s2 n0.right_sibling
        (λ h. save-stays right_id n0.right_sibling node_r (save id node_l s1) (
          save-stays id n0.right_sibling node_l s1
            (ap is_present (new.nodes n0.right_sibling) ∙ h)))
        (v.linked id n0 here)

  s2-Steps : Steps s s2 (id ∷ []) × (s2.nodes id ≡ some node_l) × (s2.nodes right_id ≡ some node_r)
  s2-Steps =
      split_pages-Steps s s1 id right_id node_l node_r new (ap is_present here) link_l old_link

  s3-Steps :
      (s3 : Store) × (link_back n0.right_sibling right_id s2 ≡ ok s3)
      × Steps s s3 (id ∷ [])
      × HasLeaf s3 id left
      × HasLeaf s3 right_id right
  unfolding contains
  s3-Steps =
      let (steps, here_l, here_r) = s2-Steps in
      let (s3, runs, p) = link_back-Steps s2 steps.valid n0.right_sibling right_id old_link in
      (
        s3,
        runs,
        Steps-rest steps p,
        HasLeaf-Same {s = s2} (p.kept id refl)
            (record { node = node_l; here = here_l; kind = refl }),
        HasLeaf-Same {s = s2} (p.kept right_id refl)
            (record { node = node_r; here = here_r; kind = refl }),
      )

  left_there : is_present (s.nodes id) ≡ true
  left_there = ap is_present here

  apart : (right_id == id) ≡ false
  apart = absent_other s right_id id new.absent left_there

  apart' : (id == right_id) ≡ false
  apart' = elim (Eq-cases id right_id) [
    | inl same ↦ cc (apart, subst (λ x. (x == id) ≡ true) same.0 (beq_refl id))
    | inr other ↦ other.1
  ]

  -- The insertion into the left half, whatever it returns.
  pub split_left :
      {flag : Bool}
      → bytes_ltb key sep ≡ true
      → insert_leaf_cell key value left ≡ ok (flag, l')
      → (s' : Store) × (split_leaf_page id n breadcrumbs key value s
          ≡ insert_into_parent breadcrumbs id sep right_id s')
        × IsSplitPage s s' id right_id l' right
  unfolding split_leaf_page contains
  split_left before fine =
      let (s3, links, steps, has_l, has_r) = s3-Steps in
      let (s4, edits, p, has, others) =
        edit_leaf-Steps (λ l. drop_flag (insert_leaf_cell key value l)) s3 id left l' steps.valid
          has_l (ap drop_flag fine) in
      (
        s4,
        rw (splits_into, links, before, edits) refl,
        record {
          steps = Steps-trans steps p (λ j h away. away);
          on_left = has;
          on_right = record {
            node = has_r.node;
            here = others right_id apart' ∙ has_r.here;
            kind = has_r.kind;
          };
          absent = new.absent;
        },
      )

  -- The insertion into the right half, whatever it returns.
  pub split_right :
      {flag : Bool}
      → bytes_ltb key sep ≡ false
      → insert_leaf_cell key value right ≡ ok (flag, l')
      → (s' : Store) × (split_leaf_page id n breadcrumbs key value s
          ≡ insert_into_parent breadcrumbs id sep right_id s')
        × IsSplitPage s s' id right_id left l'
  unfolding split_leaf_page contains
  split_right before fine =
      let (s3, links, steps, has_l, has_r) = s3-Steps in
      let (s4, edits, p, has, others) =
        edit_leaf-Steps (λ l. drop_flag (insert_leaf_cell key value l)) s3 right_id right l'
          steps.valid has_r (ap drop_flag fine) in
      (
        s4,
        rw (splits_into, links, before, edits) refl,
        record {
          steps =
              Steps-trans steps p (λ j h away. rw (absent_other s right_id j new.absent h) refl);
          on_left = record {
            node = has_l.node;
            here = others id apart ∙ has_l.here;
            kind = has_l.kind;
          };
          on_right = has;
          absent = new.absent;
        },
      )
