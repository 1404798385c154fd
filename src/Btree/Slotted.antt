-- ===== src/Btree/Slotted.antt =====
-- src/btree/node.h and node.cpp: the slotted page under a node. A slot's offset stands for the cell
-- that it points to, so that the slot array is the list of the cells; `free_end` and `cell_end` are
-- the 16-bit fields of the header, and the bytes of removed cells show in `cell_end` only.
pub mod Capacity
pub mod Room
pub mod Ordered
pub mod Half
use key_v_db.Common.{
  ℕ, zero, suc, ◌+◌, ◌-◌, ◌/◌, ◌%◌, ◌^◌, Bool, true, false, not, Option, none, some, List, [], ◌∷◌,
  ◌++◌, length, get_elem?, set, take, drop, ltb, leb, ◌==◌, nat_eq, if◌then◌else◌, ◌&&◌, is_empty,
}
use key_v_db.Common.Bytes.{Bytes, bytes_eq, bytes_beq}
use key_v_db.Common.Result.{Result, ok, err, ◌>>=◌, ◌>>◌, failed_assertion}
use key_v_db.Btree.{data_size, node_header_size, node_usable_size, slot_size, total_cell_cost}
use key_v_db.Btree.Search.{lower_bound, bytes_ltb}

-- An `assert`.
abbrev pub check : Bool → Result (Unit {0})
check true = ok tt
check false = err failed_assertion

-- What `shift_slots_right` and the write behind it do to the slot array.
unfoldable pub insert_at {ℓ} : {A : Type ℓ} → ℕ → A → List A → List A
insert_at zero x xs = x ∷ xs
insert_at (suc i) x [] = x ∷ []
insert_at (suc i) x (y ∷ ys) = y ∷ insert_at i x ys

-- What `shift_slots_left` does.
unfoldable pub remove_at {ℓ} : {A : Type ℓ} → ℕ → List A → List A
remove_at i [] = []
remove_at zero (x ∷ xs) = xs
remove_at (suc i) (x ∷ xs) = x ∷ remove_at i xs

-- `V` is `Bytes` in a leaf, the id of the right child in an internal node.
pub record Slotted (V : Type 0) : Type 0 where
  pub cells : List (Bytes × V)
  pub free_end : ℕ
  pub cell_end : ℕ

module _ {V : Type 0} where
  -- The header that `init_leaf` and `init_internal` write.
  unfoldable pub blank : Slotted V
  blank = record { cells = []; free_end = node_header_size; cell_end = data_size }

  abbrev pub num_keys : Slotted V → ℕ
  num_keys s = length s.cells

  abbrev pub key_of : Option (Bytes × V) → Bytes
  key_of none = []
  key_of (some c) = c.0

  -- `key_at` where the slot is known to exist.
  abbrev pub key_at : Slotted V → ℕ → Bytes
  key_at s slot = key_of (get_elem? s.cells slot)

  abbrev pub found : Option (Bytes × V) → Result (Bytes × V)
  found none = err failed_assertion
  found (some c) = ok c

  -- `key_at` with `value_at` or `child_at`: the cell in a slot.
  unfoldable pub cell_at : Slotted V → ℕ → Result (Bytes × V)
  cell_at s slot = found (get_elem? s.cells slot)

  unfoldable pub slot_of : Bytes → Slotted V → ℕ
  slot_of key s = lower_bound (key_at s) key (num_keys s)

  -- `slot < hdr().num_keys && key_at(slot) == key`
  unfoldable pub is_at : ℕ → Bytes → Slotted V → Bool
  is_at slot key s = ltb slot (num_keys s) && (key_at s slot == key)

  unfoldable pub free_space : Slotted V → ℕ
  free_space s = s.cell_end - s.free_end

  unfoldable pub is_full : ℕ → Slotted V → Bool
  is_full new_cell_bytes s = ltb (free_space s) (total_cell_cost new_cell_bytes)

  unfoldable pub underflow : Slotted V → Bool
  underflow s = ltb (node_usable_size - free_space s) (node_usable_size / 2)

  unfoldable pub remove_cell : ℕ → Slotted V → Result (Slotted V)
  remove_cell slot s = do
    check (ltb slot (num_keys s))
    ok (record s { cells = remove_at slot s.cells; free_end = (s.free_end - slot_size) % 2 ^ 16 })

  -- Remove the slots from `from + count - 1` down to `from`.
  unfoldable pub remove_back : ℕ → ℕ → Slotted V → Result (Slotted V)
  remove_back zero from s = ok s
  remove_back (suc count) from s = remove_cell (from + count) s >>= remove_back count from

-- The size of a cell is `leaf_cell_size` or `internal_cell_size`.
module _ {V : Type 0} (cell_size : Bytes → V → ℕ) where
  -- `write_leaf_cell` and `write_internal_cell`
  unfoldable pub write_cell : ℕ → Bytes → V → Slotted V → Result (Slotted V)
  write_cell slot key v s = do
    check (not (is_full (cell_size key v) s))
    ok (record {
      cells = insert_at slot (key, v) s.cells;
      free_end = (s.free_end + slot_size) % 2 ^ 16;
      cell_end = (s.cell_end - cell_size key v) % 2 ^ 16;
    })

  -- The last loops of `compact`.
  unfoldable pub write_all : List (Bytes × V) → Slotted V → Result (Slotted V)
  write_all [] s = ok s
  write_all ((key, v) ∷ cells) s = write_cell (num_keys s) key v s >>= write_all cells

  unfoldable pub compact : Slotted V → Result (Slotted V)
  unfolding blank
  compact s =
      if is_empty s.cells then ok (record s { cell_end = data_size }) else write_all s.cells blank

  -- The end of `insert_leaf_cell` and of `insert_separator`: make room if need be, and write.
  unfoldable pub place : ℕ → Bytes → V → Slotted V → Result (Bool × Slotted V)
  place slot key v s = do
    s1 ← if is_full (cell_size key v) s then compact s else ok s
    if is_full (cell_size key v) s1
        then ok (false, s1)
        else do s2 ← write_cell slot key v s1; ok (true, s2)

  -- The walk of `split_into`: the first slot, after slot 0, whose cell would take the bytes so far
  -- beyond the half.
  unfoldable pub split_index : ℕ → ℕ → ℕ → List (Bytes × V) → ℕ
  split_index half acc i [] = i
  split_index half acc i ((key, v) ∷ cells) =
      let cell_bytes = cell_size key v + slot_size in
      let rest = split_index half (acc + cell_bytes) (i + 1) cells in
      if ltb half (acc + cell_bytes) && ltb 0 i then i else rest

  unfoldable pub half_index : Slotted V → ℕ
  half_index s = split_index ((node_usable_size - free_space s) / 2) 0 0 s.cells
