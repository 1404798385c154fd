-- ===== src/Btree/Slotted/Capacity.antt =====
-- src/btree/node.cpp, the room in a slotted page: what `write_leaf_cell`, `compact` and the end of
-- `insert_leaf_cell` do to the fields of the header.
use key_v_db.Common.{
  ℕ, zero, suc, ◌+◌, ◌-◌, ◌*◌, ◌<◌, ◌≤◌, ◌^◌, ◌%◌, ◌≡◌, refl, ap, Bool, true, false, not, List, [],
  ◌∷◌, ◌++◌, length, leb, nat_eq, arith,
}
use key_v_db.Common.Bytes.{Bytes}
use key_v_db.Common.Result.{ok}
use key_v_db.Btree.{total_cell_cost}
use key_v_db.Btree.Slotted.{Slotted, blank, insert_at, remove_at, free_space, is_full, write_cell}

module _ {ℓ} {A : Type ℓ} where
  pub length-insert_at : (i : ℕ) (x : A) (xs : List A) → length (insert_at i x xs) ≡ suc (length xs)
  unfolding insert_at
  length-insert_at zero x xs = refl
  length-insert_at (suc i) x [] = refl
  length-insert_at (suc i) x (y ∷ ys) = ap suc (length-insert_at i x ys)

  pub insert_at-length : (x : A) (xs : List A) → insert_at (length xs) x xs ≡ xs ++ (x ∷ [])
  unfolding insert_at
  insert_at-length x [] = refl
  insert_at-length x (y ∷ ys) = ap (◌∷◌ y) (insert_at-length x ys)

  pub length-remove_at :
      (i : ℕ) (xs : List A) → i < length xs → suc (length (remove_at i xs)) ≡ length xs
  unfolding remove_at
  length-remove_at i [] h = absurd (omega (arith, h))
  length-remove_at zero (x ∷ xs) h = refl
  length-remove_at (suc i) (x ∷ xs) h = ap suc (length-remove_at i xs (omega (arith, h)))

module _ {V : Type 0} (cell_size : Bytes → V → ℕ) where
  -- The bytes of the cells, without their slots.
  unfoldable pub content : List (Bytes × V) → ℕ
  content [] = 0
  content ((key, v) ∷ cells) = cell_size key v + content cells

  -- The bytes that the cells and their slots take.
  unfoldable pub live : List (Bytes × V) → ℕ
  live cells = content cells + 2 * length cells

  -- The fields of the header agree with the cells. The bytes of removed cells are not in `content`.
  pub record IsLaidOut (s : Slotted V) : Type 0 where
    pub slots : s.free_end ≡ 32 + 2 * length s.cells
    pub apart : s.free_end ≤ s.cell_end
    pub inside : content s.cells + s.cell_end ≤ 4072

  -- A page without the bytes of removed cells.
  abbrev pub packed : List (Bytes × V) → Slotted V
  packed cells = record {
    cells = cells;
    free_end = 32 + 2 * length cells;
    cell_end = 4072 - content cells;
  }

  -- The page after a write, the 16-bit fields as plain numbers.
  abbrev pub written : ℕ → Bytes → V → Slotted V → Slotted V
  written slot key v s = record {
    cells = insert_at slot (key, v) s.cells;
    free_end = s.free_end + 2;
    cell_end = s.cell_end - cell_size key v;
  }

  -- There is room for one more cell.
  unfoldable pub fits : Bytes → V → List (Bytes × V) → Bool
  fits key v cells = leb (live cells + (2 + cell_size key v)) 4040

  pub content-insert_at :
      (i : ℕ) (key : Bytes) (v : V) (cells : List (Bytes × V))
      → content (insert_at i (key, v) cells) ≡ cell_size key v + content cells
  unfolding content insert_at
  content-insert_at zero key v cells = refl
  content-insert_at (suc i) key v [] = refl
  content-insert_at (suc i) key v (c ∷ cells) = omega (arith, content-insert_at i key v cells)

  pub content-append : (xs ys : List (Bytes × V)) → content (xs ++ ys) ≡ content xs + content ys
  unfolding content
  content-append [] ys = omega arith
  content-append (c ∷ xs) ys = omega (arith, content-append xs ys)

  pub content-remove_at :
      (i : ℕ) (cells : List (Bytes × V)) → content (remove_at i cells) ≤ content cells
  unfolding content remove_at
  content-remove_at i [] = omega arith
  content-remove_at zero (c ∷ cells) = omega arith
  content-remove_at (suc i) (c ∷ cells) = omega (arith, content-remove_at i cells)

  pub live-le : {s : Slotted V} → IsLaidOut s → live s.cells ≤ 4040
  unfolding live
  live-le o = omega (arith, o.slots, o.apart, o.inside)

  pub packed-IsLaidOut : (cells : List (Bytes × V)) → live cells ≤ 4040 → IsLaidOut (packed cells)
  unfolding live
  packed-IsLaidOut cells le = record {
    slots = refl;
    apart = omega (arith, le);
    inside = omega (arith, le);
  }

  pub blank-IsLaidOut : IsLaidOut blank
  unfolding blank content
  blank-IsLaidOut = record { slots = refl; apart = omega arith; inside = omega arith }

  -- A packed page is full exactly if the cell does not fit.
  pub is_full-packed :
      (key : Bytes) (v : V) (cells : List (Bytes × V))
      → is_full (cell_size key v) (packed cells) ≡ not (fits key v cells)
  unfolding is_full free_space total_cell_cost fits live
  is_full-packed key v cells = ground arith

  -- A page that is not full has room.
  pub fits-is_full :
      (key : Bytes) (v : V) (s : Slotted V)
      → IsLaidOut s
      → is_full (cell_size key v) s ≡ false
      → fits key v s.cells ≡ true
  unfolding is_full free_space total_cell_cost fits live
  fits-is_full key v s o h = ground (arith, o.slots, o.apart, o.inside, h)

  module _ (slot : ℕ) (key : Bytes) (v : V) (s : Slotted V) (o : IsLaidOut s)
      (room : is_full (cell_size key v) s ≡ false) where
    enough : s.free_end + (2 + cell_size key v) ≤ s.cell_end
    unfolding is_full free_space total_cell_cost
    enough = ground (arith, o.apart, room)

    pub write_cell-written : write_cell cell_size slot key v s ≡ ok (written slot key v s)
    unfolding write_cell
    write_cell-written =
        let free : (s.free_end + 2) % 2 ^ 16 ≡ s.free_end + 2 = omega (arith, o.inside, enough) in
        let cell : (s.cell_end - cell_size key v) % 2 ^ 16 ≡ s.cell_end - cell_size key v =
          omega (arith, o.inside) in
        rw (room, free, cell) refl

    pub written-IsLaidOut : IsLaidOut (written slot key v s)
    written-IsLaidOut = record {
      slots = omega (arith, o.slots, length-insert_at slot (key, v) s.cells);
      apart = omega (arith, enough);
      inside = omega (arith, o.inside, enough, content-insert_at slot key v s.cells);
    }
