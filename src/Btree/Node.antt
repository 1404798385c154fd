-- ===== src/Btree/Node.antt =====
-- src/btree/node.h and node.cpp: the nodes of the tree, leaves and internal nodes, and the changes of
-- their cells. What `merge_from` and the two steals do to the children's pages is in Btree/Store.
pub mod InsertLeaf
pub mod Split
mod Tests
pub mod Merge
pub mod SplitRoom
pub mod Append
use key_v_db.Common.{
  ℕ, zero, suc, ◌+◌, ◌-◌, Bool, true, false, not, Option, none, some, List, [], ◌∷◌, length, set,
  take, drop, ltb, leb, ◌==◌, nat_eq, if◌then◌else◌, is_empty,
}
use key_v_db.Common.Bytes.{Bytes}
use key_v_db.Common.Result.{Result, ok, err, ◌>>=◌, ◌>>◌, failed_assertion}
use key_v_db.Storage.Page.{invalid_page_id}
use key_v_db.Btree.{leaf_cell_size, internal_cell_size}
use key_v_db.Btree.Slotted.{
  Slotted, check, blank, num_keys, key_at, cell_at, slot_of, is_at, remove_cell, remove_back,
  write_cell, place, half_index, insert_at, compact, is_full,
}

abbrev pub leaf_size : Bytes → Bytes → ℕ
leaf_size key value = leaf_cell_size (length key) (length value)

abbrev pub internal_size : Bytes → ℕ → ℕ
internal_size key child = internal_cell_size (length key)

abbrev pub Leaf : Type 0
Leaf = Slotted Bytes

abbrev pub Internal : Type 0
Internal = Slotted ℕ

-- The value in a slot that has the key is overwritten, in place if the sizes agree.
abbrev pub overwrite : ℕ → Bytes → Bytes → Leaf → Result (Bool × Leaf)
overwrite slot key value s = do
  (_, old) ← cell_at s slot
  if length old == length value
      then ok (true, record s { cells = set s.cells slot (key, value) })
      else (do s1 ← remove_cell slot s; place leaf_size (slot_of key s1) key value s1)

-- `false` if there is no room; the old cell of the key is gone then.
unfoldable pub insert_leaf_cell : Bytes → Bytes → Leaf → Result (Bool × Leaf)
insert_leaf_cell key value s =
    let slot = slot_of key s in
    if is_at slot key s then overwrite slot key value s else place leaf_size slot key value s

unfoldable pub insert_separator : Bytes → ℕ → Internal → Result (Bool × Internal)
insert_separator key right_child s = place internal_size (slot_of key s) key right_child s

unfoldable pub update_separator_key : ℕ → Bytes → Internal → Result Internal
update_separator_key slot new_key s = do
  (key, child) ← cell_at s slot
  check (length key == length new_key)
  ok (record s { cells = set s.cells slot (new_key, child) })

unfoldable pub update_child_at : ℕ → ℕ → Internal → Result Internal
update_child_at slot child_id s = do
  (key, child) ← cell_at s slot
  ok (record s { cells = set s.cells slot (key, child_id) })

-- Insert cells one by one; there must be room.
unfoldable pub insert_all :
    {V : Type 0}
    → (Bytes → V → Slotted V → Result (Bool × Slotted V))
    → List (Bytes × V)
    → Slotted V
    → Result (Slotted V)
insert_all insert [] s = ok s
insert_all insert ((key, v) ∷ cells) s = do
  (done, s1) ← insert key v s
  check done
  insert_all insert cells s1

-- The cells of `split_into`: the separator, the left half and the right half.
unfoldable pub split_leaf : Leaf → Leaf → Result (Bytes × Leaf × Leaf)
split_leaf s right = do
  check (leb 2 (num_keys s))
  check (is_empty right.cells)
  let idx = half_index leaf_size s
  (separator, _) ← cell_at s idx
  right' ← insert_all insert_leaf_cell (drop idx s.cells) right
  left ← remove_back (num_keys s - idx) idx s
  ok (separator, left, right')

-- `mid` must be strictly interior.
abbrev pub clamp : ℕ → ℕ → ℕ
clamp n mid = let mid' = if mid == 0 then 1 else mid in if leb (n - 1) mid' then n - 1 else mid'

-- The separator, the right half's first child, and the halves.
unfoldable pub split_internal : Internal → Internal → Result (Bytes × ℕ × Internal × Internal)
split_internal s right = do
  check (leb 2 (num_keys s))
  check (is_empty right.cells)
  let mid = clamp (num_keys s) (half_index internal_size s)
  (separator, first_child) ← cell_at s mid
  right' ← insert_all insert_separator (drop (mid + 1) s.cells) right
  left ← remove_back (num_keys s - mid) mid s
  ok (separator, first_child, left, right')

pub data Body : Type 0 where
  leaf : Leaf → Body
  internal : Internal → Body

pub record Node : Type 0 where
  pub page_id : ℕ
  pub parent_id : ℕ
  pub right_sibling : ℕ
  pub left_sibling : ℕ
  pub first_child : ℕ
  pub body : Body

unfoldable pub init_leaf : ℕ → ℕ → Node
init_leaf page_id parent_id = record {
  page_id = page_id;
  parent_id = parent_id;
  right_sibling = invalid_page_id;
  left_sibling = invalid_page_id;
  first_child = invalid_page_id;
  body = leaf blank;
}

unfoldable pub init_internal : ℕ → ℕ → Node
init_internal page_id parent_id = record (init_leaf page_id parent_id) { body = internal blank }

-- `value_at` and `insert_leaf_cell` assert `is_leaf`, `child_at` and `insert_separator` the opposite.
unfoldable pub leaf_of : Node → Result Leaf
leaf_of n = elim n.body [ leaf s ↦ ok s | internal _ ↦ err failed_assertion ]

unfoldable pub internal_of : Node → Result Internal
internal_of n = elim n.body [ leaf _ ↦ err failed_assertion | internal s ↦ ok s ]

abbrev pub with_leaf : Node → Leaf → Node
with_leaf n s = record n { body = leaf s }

abbrev pub with_internal : Node → Internal → Node
with_internal n s = record n { body = internal s }

-- `split_into` on both nodes: the separator, this node and the right one.
abbrev pub split_body : Node → Node → Body → Result (Bytes × Node × Node)
split_body n right (leaf s) = do
  r ← leaf_of right
  (separator, s', r') ← split_leaf s r
  ok (
    separator,
    record n { right_sibling = right.page_id; body = leaf s' },
    record right {
      parent_id = n.parent_id;
      right_sibling = n.right_sibling;
      left_sibling = n.page_id;
      body = leaf r';
    },
  )
split_body n right (internal s) = do
  r ← internal_of right
  (separator, first_child, s', r') ← split_internal s r
  ok (
    separator,
    with_internal n s',
    record right { parent_id = n.parent_id; first_child = first_child; body = internal r' },
  )

unfoldable pub split_into : Node → Node → Result (Bytes × Node × Node)
split_into n right = split_body n right n.body

-- The cells and links of `merge_from`: this node with the right one's cells.
abbrev pub merge_body : Node → Node → Bytes → Body → Result Node
merge_body n right separator_key (leaf s) = do
  r ← leaf_of right
  s' ← insert_all insert_leaf_cell r.cells s
  ok (record n { right_sibling = right.right_sibling; body = leaf s' })
merge_body n right separator_key (internal s) = do
  (done, s1) ← insert_separator separator_key right.first_child s
  check done
  r ← internal_of right
  s' ← insert_all insert_separator r.cells s1
  ok (with_internal n s')

unfoldable pub merge_cells : Node → Node → Bytes → Result Node
merge_cells n right separator_key = merge_body n right separator_key n.body

-- The write that `steal_from_left` makes at slot 0 by hand.
unfoldable pub push_front : Bytes → ℕ → Internal → Result Internal
push_front key right_child s = do
  s1 ← if is_full (internal_size key right_child) s then compact internal_size s else ok s
  write_cell internal_size 0 key right_child s1

-- The new separator, this node, the left one, and the child that moves, if there is one.
abbrev pub steal_left_body : Node → Node → Body → Result (Bytes × Node × Node × ℕ)
steal_left_body n left (leaf s) = do
  l ← leaf_of left
  (k, v) ← cell_at l (num_keys l - 1)
  l' ← remove_cell (num_keys l - 1) l
  (done, s') ← insert_leaf_cell k v s
  check done
  ok (k, with_leaf n s', with_leaf left l', invalid_page_id)
steal_left_body n left (internal s) = do
  l ← internal_of left
  (stolen_key, stolen_child) ← cell_at l (num_keys l - 1)
  l' ← remove_cell (num_keys l - 1) l
  s' ← push_front stolen_key n.first_child s
  ok (
    stolen_key,
    record n { first_child = stolen_child; body = internal s' },
    with_internal left l',
    stolen_child,
  )

unfoldable pub steal_left_cells : Node → Node → Result (Bytes × Node × Node × ℕ)
steal_left_cells n left = steal_left_body n left n.body

abbrev pub steal_right_body : Node → Node → Body → Result (Bytes × Node × Node × ℕ)
steal_right_body n right (leaf s) = do
  r ← leaf_of right
  (k, v) ← cell_at r 0
  r' ← remove_cell 0 r
  (done, s') ← insert_leaf_cell k v s
  check done
  (new_sep, _) ← cell_at r' 0
  ok (new_sep, with_leaf n s', with_leaf right r', invalid_page_id)
steal_right_body n right (internal s) = do
  r ← internal_of right
  (stolen_key, child) ← cell_at r 0
  r' ← remove_cell 0 r
  (done, s') ← insert_separator stolen_key right.first_child s
  check done
  ok (
    stolen_key,
    with_internal n s',
    record right { first_child = child; body = internal r' },
    right.first_child,
  )

unfoldable pub steal_right_cells : Node → Node → Result (Bytes × Node × Node × ℕ)
steal_right_cells n right = steal_right_body n right n.body
