-- ===== src/Btree/Node/SplitRoom.antt =====
-- src/btree/btree.cpp and node.cpp, a leaf that is split because a cell does not fit: the room in the
-- halves.
use key_v_db.Common.{
  ℕ, ◌+◌, ◌*◌, ◌<◌, ◌≤◌, ◌≡◌, ap, ◌∙◌, subst, true, false, List, [], ◌∷◌, length, arith,
  if◌then◌else◌, inl, inr, Bool-cases, ◌==◌,
}
use key_v_db.Common.Assoc.{remove}
use key_v_db.Common.Bytes.{Bytes, bytes_eq}
use key_v_db.Common.Result.{ok}
use key_v_db.Btree.Search.{bytes_ltb}
use key_v_db.Btree.Slotted.{blank}
use key_v_db.Btree.Slotted.Capacity.{content, live, packed, fits, live-le}
use key_v_db.Btree.Slotted.Room.{live-append}
use key_v_db.Btree.Slotted.Ordered.{IsValid}
use key_v_db.Btree.Slotted.Half.{IsPacked, AllWithin, half_index-balance}
use key_v_db.Btree.Node.{Leaf, leaf_size, insert_leaf_cell, split_leaf}
use key_v_db.Btree.Node.InsertLeaf.{leaf_fits, insert_leaf_cell_lem}
use key_v_db.Btree.Node.Split.{IsLeafSplit, split_leaf_lem}

live-remove :
    (key : Bytes) (cells : List (Bytes × Bytes))
    → live leaf_size (remove key cells) ≤ live leaf_size cells
unfolding remove live content
live-remove key [] = omega arith
live-remove key (c ∷ cells) = ground (arith, live-remove key cells)

AllWithin-remove :
    (m : ℕ) (key : Bytes) (cells : List (Bytes × Bytes))
    → AllWithin leaf_size m cells
    → AllWithin leaf_size m (remove key cells)
unfolding remove
AllWithin-remove m key [] all = tt
AllWithin-remove m key (c ∷ cells) all = elim (Bool-cases (c.0 == key)) [
  | inl same ↦ rw same (AllWithin-remove m key cells all.1)
  | inr other ↦ rw other (all.0, AllWithin-remove m key cells all.1)
]

live-AllWithin :
    (m : ℕ) (cells : List (Bytes × Bytes))
    → AllWithin leaf_size m cells
    → live leaf_size cells ≤ m * length cells
unfolding live content
live-AllWithin m [] all = omega arith
live-AllWithin m (c ∷ cells) all = grind (arith, live-AllWithin m cells all.1, all.0)

module _ (key value : Bytes) (s : Leaf) (v : IsValid leaf_size s)
    (full : leaf_fits key value s.cells ≡ false) (all : AllWithin leaf_size 1010 s.cells)
    (small : 2 + leaf_size key value ≤ 1010) where
  -- The leaf that the failed insertion leaves.
  abbrev pub rest : Leaf
  rest = packed leaf_size (remove key s.cells)

  rest-IsValid : IsValid leaf_size rest
  rest-IsValid =
      let (r, runs, p) = insert_leaf_cell_lem key value s v in
      subst (IsValid leaf_size) (p.refused (p.outcome ∙ full)) p.valid

  rest-live : 3030 < live leaf_size rest.cells
  unfolding leaf_fits fits
  rest-live = ground (arith, full, small)

  rest-length : 2 ≤ length rest.cells
  rest-length =
      omega
        (arith, rest-live, live-AllWithin 1010 rest.cells (AllWithin-remove 1010 key s.cells all))

  rest-IsPacked : IsPacked leaf_size rest
  unfolding live
  rest-IsPacked = omega (arith, live-le leaf_size rest-IsValid.laid_out)

  half-fits : (l : Leaf) → live leaf_size l.cells ≤ 3030 → leaf_fits key value l.cells ≡ true
  unfolding leaf_fits fits
  half-fits l le = ground (arith, le, small, live-remove key l.cells)

  -- The leaf can be split, and the cell fits into the half that the separator says.
  pub halves-fit :
      (sep : Bytes) × (left : Leaf) × (right : Leaf) × (split_leaf rest blank
        ≡ ok (sep, left, right))
      × IsLeafSplit rest sep left right
      × (leaf_fits key value (if bytes_ltb key sep then left else right).cells ≡ true)
  halves-fit =
      let (sep, left, right, runs, p) =
        split_leaf_lem rest rest-IsValid rest-IsPacked rest-length in
      let (low, high) =
        half_index-balance leaf_size 1010 rest rest-IsValid.laid_out rest-IsPacked
          (AllWithin-remove 1010 key s.cells all) (omega (arith, rest-live))
          (omega (arith, rest-live)) in
      let cut = ap (live leaf_size) p.cut in
      let whole = ap (live leaf_size) p.whole in
      let parts = live-append leaf_size left.cells right.cells in
      let le = live-le leaf_size rest-IsValid.laid_out in
      (
        sep,
        left,
        right,
        runs,
        p,
        elim (Bool-cases (bytes_ltb key sep)) [
          | inl before ↦ rw before (half-fits left (omega (arith, low, cut, le)))
          | inr from ↦ rw from (half-fits right (omega (arith, high, cut, whole, parts, le)))
        ],
      )

  -- Where the cells of a full leaf and the new one take at most 1010 bytes with their slots, the leaf
  -- that the failed insertion leaves can be split, and the second insertion, into the half that the
  -- separator says, finds room.
  pub split-insert :
      (sep : Bytes) × (left : Leaf) × (right : Leaf) × (l' : Leaf) × (split_leaf rest blank
        ≡ ok (sep, left, right))
      × (insert_leaf_cell key value (if bytes_ltb key sep then left else right) ≡ ok (true, l'))
  split-insert =
      let (sep, left, right, runs, p, room) = halves-fit in
      let valid : IsValid leaf_size (if bytes_ltb key sep then left else right) =
        elim (Bool-cases (bytes_ltb key sep)) [
          | inl before ↦ rw before p.left_valid
          | inr from ↦ rw from p.right_valid
        ] in
      let ((fine, l'), again, q) = insert_leaf_cell_lem key value _ valid in
      (sep, left, right, l', runs, again ∙ ap (λ x. ok (x, l')) (q.outcome ∙ room))
