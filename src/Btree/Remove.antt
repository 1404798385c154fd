-- ===== src/Btree/Remove.antt =====
-- src/btree/btree.cpp: `remove` and `fix_underflow`, with the pages that `merge_from` and the two
-- steals of node.cpp change.
pub mod Room
use key_v_db.Common.{
  ℕ, suc, ◌+◌, ◌-◌, Bool, true, false, not, Option, none, some, List, [], ◌∷◌, ◌==◌, nat_eq,
  if◌then◌else◌, length, ◌&&◌, ◌++◌, is_empty,
}
use key_v_db.Common.Bytes.{Bytes}
use key_v_db.Common.Result.{Result, ok, err, ◌>>=◌, ◌>>◌, failed_assertion}
use key_v_db.Storage.Page.{invalid_page_id}
use key_v_db.Btree.Slotted.{Slotted, check, slot_of, is_at, cell_at, remove_cell, num_keys}
use key_v_db.Btree.Slotted
use key_v_db.Btree.Node.{
  Node, Body, Leaf, Internal, leaf, internal, leaf_of, internal_of, with_leaf, update_separator_key,
  merge_cells, steal_left_cells, steal_right_cells,
}
use key_v_db.Btree.Store.{
  Run, Store, fetch, save, edit, edit_leaf, edit_internal, set_parent, reparent, reparent_all,
  children_of, delete_page, set_root,
}
use key_v_db.Btree.Descent.{lift, ◌>>>◌, find_leaf}
use key_v_db.Btree.Insert.{must_insert, link_back}

unfoldable pub underflow : Node → Bool
underflow n = elim n.body [ leaf l ↦ Slotted.underflow l | internal i ↦ Slotted.underflow i ]

abbrev pub first_child_in : List (Bytes × ℕ) → ℕ
first_child_in [] = invalid_page_id
first_child_in (c ∷ cells) = c.1

-- The slot of a child with its neighbours: the loop over the parent's cells, `left` being the child
-- before the first of them.
unfoldable pub locate : ℕ → ℕ → ℕ → List (Bytes × ℕ) → Result (ℕ × ℕ × ℕ)
locate page_id slot left [] = err failed_assertion
locate page_id slot left ((key, child) ∷ cells) =
    let rest = locate page_id (slot + 1) child cells in
    if child == page_id then ok (slot, left, first_child_in cells) else rest

-- `sep_slot`, `left_sib` and `right_sib`.
unfoldable pub siblings : ℕ → ℕ → Internal → Result (ℕ × ℕ × ℕ)
siblings page_id first_child i =
    if first_child == page_id
    then (cell_at i 0 >>= λ c. ok (0, invalid_page_id, c.1))
    else locate page_id 0 first_child i.cells

-- The slot that the last branch looks up, 0 if the child is not there.
unfoldable pub slot_of_child : ℕ → ℕ → List (Bytes × ℕ) → ℕ
slot_of_child page_id slot [] = 0
slot_of_child page_id slot ((key, child) ∷ cells) =
    let rest = slot_of_child page_id (slot + 1) cells in if child == page_id then slot else rest

-- The new separator goes into the slot, or its cell is removed and written again.
unfoldable pub update_separator : ℕ → Bytes → Internal → Result Internal
update_separator slot new_sep i = do
  (key, child) ← cell_at i slot
  if length key == length new_sep
      then update_separator_key slot new_sep i
      else do i' ← remove_cell slot i; must_insert new_sep child i'

-- `steal_from_left` or `steal_from_right`, by the function on the two nodes, and the parent's change.
unfoldable pub steal :
    (Node → Node → Result (Bytes × Node × Node × ℕ)) → ℕ → ℕ → ℕ → ℕ → Store → Result Store
steal cells parent_id page_id sibling slot s = do
  cur ← fetch page_id s
  other ← fetch sibling s
  (new_sep, cur', other', moved) ← cells cur other
  s1 ← reparent page_id moved (save sibling other' (save page_id cur' s))
  edit_internal parent_id (update_separator slot new_sep) s1

-- `merge_from`: for an internal node the right one's first child is given its parent twice.
abbrev pub merged_children : Node → Body → List ℕ
merged_children right (leaf _) = []
merged_children right (internal i) = children_of right i ++ right.first_child ∷ []

unfoldable pub merge_from : ℕ → ℕ → Bytes → Store → Result Store
merge_from left_id right_id separator_key s = do
  left ← fetch left_id s
  right ← fetch right_id s
  merged ← merge_cells left right separator_key
  reparent_all left_id (merged_children right right.body) (save left_id merged s)

abbrev pub relink : ℕ → Node → Body → Store → Result Store
relink left_id n (leaf _) s = link_back n.right_sibling left_id s
relink left_id n (internal _) s = ok s

-- The empty root gives way to its only child.
unfoldable pub collapse : ℕ → ℕ → Store → Result Store
collapse old_root new_root s = do
  s1 ← set_parent new_root invalid_page_id s
  ok (set_root new_root (delete_page old_root s1))

-- One of the two merges, of which `left_id` is left; `up` mends the parent.
unfoldable pub merge_pages : ℕ → ℕ → ℕ → ℕ → (Store → Result Store) → Store → Result Store
merge_pages parent_id left_id right_id slot up s = do
  parent ← fetch parent_id s
  i ← internal_of parent
  (separator_key, _) ← cell_at i slot
  s1 ← merge_from left_id right_id separator_key s
  left ← fetch left_id s1
  s2 ← relink left_id left left.body s1
  s3 ← edit_internal parent_id (remove_cell slot) s2
  let s4 = delete_page right_id s3
  parent' ← fetch parent_id s4
  i' ← internal_of parent'
  if underflow parent' && not (parent_id == s4.root)
      then up s4
      else if is_empty i'.cells && (parent_id == s4.root)
      then collapse parent_id left_id s4
      else ok s4

-- Neither sibling has a cell to spare.
unfoldable pub merge_with : ℕ → ℕ → ℕ → ℕ → ℕ → (Store → Result Store) → Store → Result Store
merge_with parent_id page_id sep_slot left_sib right_sib up s =
    if not (right_sib == invalid_page_id)
    then merge_pages parent_id page_id right_sib sep_slot up s
    else if not (left_sib == invalid_page_id)
    then (do
      parent ← fetch parent_id s
      i ← internal_of parent
      let slot = if parent.first_child == left_sib then 0 else slot_of_child page_id 0 i.cells
      merge_pages parent_id left_sib page_id slot up s)
    else ok s

-- A sibling that there is and that does not underflow.
unfoldable pub can_spare : ℕ → Store → Result Bool
can_spare sibling s =
    if sibling == invalid_page_id
    then ok false
    else (fetch sibling s >>= λ n. ok (not (underflow n)))

-- An internal root without keys is replaced, any other root stays.
abbrev pub fix_root : ℕ → Node → Body → Store → Result Store
fix_root page_id n (leaf _) s = ok s
fix_root page_id n (internal i) s =
    if is_empty i.cells && not (n.first_child == invalid_page_id)
    then collapse page_id n.first_child s
    else ok s

unfoldable pub fix_underflow : List ℕ → ℕ → Store → Result Store
fix_underflow [] page_id s = do n ← fetch page_id s; fix_root page_id n n.body s
fix_underflow (parent_id ∷ breadcrumbs) page_id s = do
  parent ← fetch parent_id s
  i ← internal_of parent
  (sep_slot, left_sib, right_sib) ← siblings page_id parent.first_child i
  from_left ← can_spare left_sib s
  if from_left then steal steal_left_cells parent_id page_id left_sib sep_slot s else do
    from_right ← can_spare right_sib s
    if from_right
        then steal steal_right_cells parent_id page_id right_sib sep_slot s
        else merge_with parent_id page_id sep_slot left_sib right_sib
            (fix_underflow breadcrumbs parent_id) s

abbrev pub remove_in : Bytes → ℕ × List ℕ → Store → Result (Bool × Store)
remove_in key (leaf_id, breadcrumbs) s = do
  n ← fetch leaf_id s
  l ← leaf_of n
  if not (is_at (slot_of key l) key l) then ok (false, s) else do
    l' ← remove_cell (slot_of key l) l
    let s1 = save leaf_id (with_leaf n l') s
    s2 ←
        if Slotted.underflow l' && not (leaf_id == s.root)
        then fix_underflow breadcrumbs leaf_id s1
        else ok s1
    ok (true, s2)

unfoldable pub remove : ℕ → Bytes → Store → Run (Bool × Store)
remove fuel key s = find_leaf fuel key s s.root [] >>> λ r. lift (remove_in key r s)
