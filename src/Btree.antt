-- ===== src/Btree.antt =====
-- src/btree: what the rest of the program asks of the B+tree, and the size test of `BTree::insert`.
pub mod OneLeaf
pub mod Search
pub mod Cells
pub mod Slotted
pub mod Node
pub mod Store
pub mod Descent
pub mod Shape
pub mod Insert
pub mod Remove
mod Tests
use key_v_db.Common.{
  ℕ, ◌+◌, ◌-◌, ◌≡◌, Bool, true, false, Option, none, some, length, ltb, ◌==◌, if◌then◌else◌,
}
use key_v_db.Common.Bytes.{Bytes, bytes_eq}
use key_v_db.Common.Result.{Result, ok, err, invalid_argument}

abbrev pub page_size : ℕ
page_size = 4096

abbrev pub page_header_size : ℕ
page_header_size = 24

-- Page::DATA_SIZE
abbrev pub data_size : ℕ
data_size = 4072

abbrev pub node_header_size : ℕ
node_header_size = 32

abbrev pub node_usable_size : ℕ
node_usable_size = 4040

abbrev pub slot_size : ℕ
slot_size = 2

-- The sizes of a cell, by the lengths of its key and value.
unfoldable pub leaf_cell_size : ℕ → ℕ → ℕ
leaf_cell_size key_len val_len = 2 + key_len + (2 + val_len)

unfoldable pub internal_cell_size : ℕ → ℕ
internal_cell_size key_len = 2 + key_len + 4

unfoldable pub total_cell_cost : ℕ → ℕ
total_cell_cost payload = slot_size + payload

-- The test at the head of `BTree::insert`, which throws `invalid_argument`.
unfoldable pub too_large : Bytes → Bytes → Bool
unfolding leaf_cell_size
too_large key value = ltb node_usable_size (leaf_cell_size (length key) (length value) + slot_size)

-- The contract of the tree, as a map of keys to values. `put` is `BTree::insert` behind its test. It
-- says nothing of a cell that is not among those that `fits` names. Btree/OneLeaf has what `BTree` does
-- as an instance, for sets of keys whose cells fit into one leaf.
pub record Tree : Type 1 where
  pub State : Type 0
  pub fits : Bytes → Bytes → Bool
  pub get : State → Bytes → Option Bytes
  pub put : Bytes → Bytes → State → State
  pub remove : Bytes → State → State
  pub fits-small : (k v : Bytes) → fits k v ≡ true → too_large k v ≡ false
  pub get-put :
      (k j v : Bytes) (s : State)
      → fits k v ≡ true
      → get (put k v s) j ≡ (if k == j then some v else get s j)
  pub get-remove :
      (k j : Bytes) (s : State) → get (remove k s) j ≡ (if k == j then none else get s j)

module _ (tree : Tree) where
  open tree use {State, put}

  unfoldable pub insert : Bytes → Bytes → State → Result State
  insert key value s = if too_large key value then err invalid_argument else ok (put key value s)
