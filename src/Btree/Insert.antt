-- ===== src/Btree/Insert.antt =====
-- src/btree/btree.cpp: `insert`, `insert_into_parent` and `create_new_root`.
pub mod Room
pub mod Outcome
pub mod LeafGrow
pub mod LeafHalves
mod Tests
pub mod LeafSplit
pub mod SplitPage
pub mod NewRoot
pub mod RootSplit
pub mod Absent
pub mod Lost
use key_v_db.Common.{
  ℕ, Bool, true, false, not, Option, none, some, List, [], ◌∷◌, ◌==◌, nat_eq, if◌then◌else◌,
}
use key_v_db.Common.Bytes.{Bytes}
use key_v_db.Common.Result.{Result, ok, err, ◌>>=◌, ◌>>◌, invalid_argument}
use key_v_db.Storage.Page.{invalid_page_id}
use key_v_db.Btree.{too_large}
use key_v_db.Btree.Search.{bytes_ltb}
use key_v_db.Btree.Slotted.{check, is_full, compact}
use key_v_db.Btree.Node.{
  Node, Leaf, Internal, leaf_of, internal_of, with_leaf, with_internal, init_leaf, init_internal,
  internal_size, insert_leaf_cell, insert_separator, split_into,
}
use key_v_db.Btree.Store.{
  Run, done, throws, Store, fetch, save, edit, edit_leaf, edit_internal, set_parent, reparent_all,
  children_of, new_page, set_root,
}
use key_v_db.Btree.Descent.{lift, ◌>>>◌, find_leaf}

-- An insertion of a separator that is asserted to find room.
abbrev pub must_insert : Bytes → ℕ → Internal → Result Internal
must_insert key right_child i = do (ok', i') ← insert_separator key right_child i; check ok'; ok i'

unfoldable pub create_new_root : ℕ → Bytes → ℕ → Store → Result Store
create_new_root left_id sep_key right_id s = do
  let (new_root_id, s1) = new_page s
  let n = record (init_internal new_root_id invalid_page_id) { first_child = left_id }
  s2 ← edit_internal new_root_id (must_insert sep_key right_id) (save new_root_id n s1)
  s3 ← set_parent left_id new_root_id s2
  s4 ← set_parent right_id new_root_id s3
  ok (set_root new_root_id s4)

-- The separator goes into a parent with room, and the right node gets its parent.
unfoldable pub attach : ℕ → Bytes → ℕ → Store → Result Store
attach parent_id sep_key right_id s = do
  s1 ← edit_internal parent_id (must_insert sep_key right_id) s
  set_parent right_id parent_id s1

-- The parent is split, and the separator goes into one of the halves; `up` goes on above.
unfoldable pub split_parent :
    ℕ → Bytes → ℕ → (Bytes → ℕ → Store → Result Store) → Store → Result Store
split_parent parent_id sep_key right_id up s = do
  let (parent_right_id, s1) = new_page s
  parent ← fetch parent_id s1
  (parent_sep, left, right) ← split_into parent (init_internal parent_right_id parent.parent_id)
  let s2 = save parent_right_id right (save parent_id left s1)
  s3 ←
      attach (if bytes_ltb sep_key parent_sep then parent_id else parent_right_id) sep_key right_id
        s2
  n ← fetch parent_right_id s3
  i ← internal_of n
  s4 ← reparent_all parent_right_id (children_of n i) s3
  up parent_sep parent_right_id s4

unfoldable pub insert_into_parent : List ℕ → ℕ → Bytes → ℕ → Store → Result Store
insert_into_parent [] left_id sep_key right_id s = create_new_root left_id sep_key right_id s
insert_into_parent (parent_id ∷ breadcrumbs) left_id sep_key right_id s = do
  parent ← fetch parent_id s
  i ← internal_of parent
  if not (is_full (internal_size sep_key right_id) i)
      then attach parent_id sep_key right_id s
      else do
        i' ← compact internal_size i
        let s1 = save parent_id (with_internal parent i') s
        if not (is_full (internal_size sep_key right_id) i')
            then attach parent_id sep_key right_id s1
            else split_parent parent_id sep_key right_id (insert_into_parent breadcrumbs parent_id)
                s1

abbrev pub drop_flag : Result (Bool × Leaf) → Result Leaf
drop_flag (ok (_, l)) = ok l
drop_flag (err e) = err e

-- The links to the left of an old right sibling.
abbrev pub link_back : ℕ → ℕ → Store → Result Store
link_back id left_id s =
    if id == invalid_page_id then ok s else edit id (λ n. record n { left_sibling = left_id }) s

-- The leaf is full, and its node is what the failed insertion left: split it and try again in one of
-- the halves. Whether that second insertion finds room is not looked at.
unfoldable pub split_leaf_page : ℕ → Node → List ℕ → Bytes → Bytes → Store → Result Store
split_leaf_page leaf_id n breadcrumbs key value s = do
  let (right_id, s1) = new_page s
  (sep_key, left, right) ← split_into n (init_leaf right_id n.parent_id)
  let s2 = save right_id right (save leaf_id left s1)
  s3 ← link_back n.right_sibling right_id s2
  s4 ←
      edit_leaf (if bytes_ltb key sep_key then leaf_id else right_id)
        (λ l. drop_flag (insert_leaf_cell key value l)) s3
  insert_into_parent breadcrumbs leaf_id sep_key right_id s4

abbrev pub insert_in : Bytes → Bytes → ℕ × List ℕ → Store → Result Store
insert_in key value (leaf_id, breadcrumbs) s = do
  n ← fetch leaf_id s
  l ← leaf_of n
  (fits, l') ← insert_leaf_cell key value l
  if fits
      then ok (save leaf_id (with_leaf n l') s)
      else split_leaf_page leaf_id (with_leaf n l') breadcrumbs key value s

unfoldable pub insert : ℕ → Bytes → Bytes → Store → Run Store
insert fuel key value s =
    if too_large key value
    then throws invalid_argument
    else find_leaf fuel key s s.root [] >>> λ r. lift (insert_in key value r s)
