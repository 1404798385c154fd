-- ===== src/Btree/Slotted/Ordered.antt =====
-- src/btree/node.cpp, slotted pages whose cells are in the order of their keys: removing the cell of
-- a key, and writing a cell at the slot that `lower_bound` finds.
use key_v_db.Common.{
  ℕ, zero, suc, ◌+◌, ◌-◌, ◌<◌, ◌^◌, ◌%◌, ◌≡◌, refl, sym, ap, ◌∙◌, subst, Bool, true, false, none,
  some, List, [], ◌∷◌, length, get_elem?, set, nat_eq, if◌then◌else◌, arith, Bool-cases, inl, inr,
  Eq-cases, ◌==◌, lt→ltb,
}
use key_v_db.Common.Assoc.{find}
use key_v_db.Common.Bytes.{Bytes, bytes_eq}
use key_v_db.Common.Result.{ok}
use key_v_db.Btree.Slotted.{Slotted, insert_at, remove_at, place, remove_cell, slot_of, is_at}
use key_v_db.Btree.Slotted.Capacity.{
  content, IsLaidOut, packed, fits, content-remove_at, length-remove_at,
}
use key_v_db.Btree.Slotted.Room.{
  placed, place-placed, placed-IsLaidOut, placed-cells, placed-packed,
}
use key_v_db.Btree.Cells.{Increasing, rank, is_some, is_at-rank, slot_of-rank}
use key_v_db.Btree.Cells.Changes.{find-insert_at, insert_at-Increasing, remove_at-Increasing}

module _ {V : Type 0} where
  -- The page without one cell; its bytes are not reclaimed.
  abbrev pub removed : ℕ → Slotted V → Slotted V
  removed slot s = record s { cells = remove_at slot s.cells; free_end = s.free_end - 2 }

module _ {V : Type 0} (cell_size : Bytes → V → ℕ) where
  -- The fields of the header agree with the cells, whose keys increase.
  pub record IsValid (s : Slotted V) : Type 0 where
    pub laid_out : IsLaidOut cell_size s
    pub increasing : Increasing s.cells

  -- Slots are 16-bit numbers.
  pub few : {s : Slotted V} → IsValid s → length s.cells < 2 ^ 16
  few v = omega (arith, v.laid_out.slots, v.laid_out.apart, v.laid_out.inside)

  pub slot_of-IsValid : (key : Bytes) (s : Slotted V) → IsValid s → slot_of key s ≡ rank key s.cells
  slot_of-IsValid key s v = slot_of-rank key s v.increasing (few v)

  pub is_at-IsValid :
      (key : Bytes) (s : Slotted V)
      → IsValid s
      → is_at (slot_of key s) key s ≡ is_some (find key s.cells)
  unfolding is_at
  is_at-IsValid key s v = rw (slot_of-IsValid key s v) (is_at-rank key s.cells v.increasing)

  pub content-remove_at-get_elem? :
      (i : ℕ) (cells : List (Bytes × V)) (key : Bytes) (v : V)
      → get_elem? cells i ≡ some (key, v)
      → content cell_size (remove_at i cells) + cell_size key v ≡ content cell_size cells
  unfolding content remove_at
  content-remove_at-get_elem? i [] key v h = cc
  content-remove_at-get_elem? zero (c ∷ cells) key v h =
      let same : c ≡ (key, v) = cc in rw same (omega arith)
  content-remove_at-get_elem? (suc i) (c ∷ cells) key v h =
      omega (arith, content-remove_at-get_elem? i cells key v h)

  pub content-set :
      (i : ℕ) (cells : List (Bytes × V)) (key : Bytes) (old new : V)
      → get_elem? cells i ≡ some (key, old)
      → cell_size key new ≡ cell_size key old
      → content cell_size (set cells i (key, new)) ≡ content cell_size cells
  unfolding content
  content-set i [] key old new h same = refl
  content-set zero (c ∷ cells) key old new h same =
      let here : c ≡ (key, old) = cc in rw (here, same) refl
  content-set (suc i) (c ∷ cells) key old new h same =
      omega (arith, content-set i cells key old new h same)

  module _ (slot : ℕ) (s : Slotted V) (v : IsValid s) (h : slot < length s.cells) where
    pub remove_cell-removed : remove_cell slot s ≡ ok (removed slot s)
    unfolding remove_cell
    remove_cell-removed =
        let free : (s.free_end - 2) % 2 ^ 16 ≡ s.free_end - 2 =
          omega (arith, v.laid_out.apart, v.laid_out.inside) in
        rw (lt→ltb slot (length s.cells) h, free) refl

    pub removed-IsValid : IsValid (removed slot s)
    removed-IsValid = record {
      laid_out = record {
        slots = omega (arith, v.laid_out.slots, length-remove_at slot s.cells h);
        apart = omega (arith, v.laid_out.apart);
        inside = omega (arith, v.laid_out.inside, content-remove_at cell_size slot s.cells);
      };
      increasing = remove_at-Increasing slot s.cells v.increasing;
    }

  module _ (key : Bytes) (value : V) (s : Slotted V) (v : IsValid s)
      (absent : find key s.cells ≡ none) where
    -- Writing the cell of a new key: the page after it is valid and has the cell if it fits.
    pub record IsPlaced (r : Bool × Slotted V) : Type 0 where
      pub outcome : r.0 ≡ fits cell_size key value s.cells
      pub valid : IsValid r.1
      pub contents :
          (j : Bytes)
          → find j r.1.cells
            ≡ (if key == j then (if r.0 then some value else none) else find j s.cells)
      pub refused : r.0 ≡ false → r.1 ≡ packed cell_size s.cells

    placed_yes :
        fits cell_size key value s.cells ≡ true
        → IsPlaced (true, placed cell_size (slot_of key s) key value s v.laid_out)
    placed_yes room =
        let slot = slot_of key s in
        let e =
          placed-cells cell_size slot key value s v.laid_out room
          ∙ ap (λ i. insert_at i (key, value) s.cells) (slot_of-IsValid key s v) in
        record {
          outcome = sym room;
          valid = record {
            laid_out = placed-IsLaidOut cell_size slot key value s v.laid_out;
            increasing =
                subst Increasing (sym e)
                  (insert_at-Increasing key value s.cells v.increasing absent);
          };
          contents = λ j. ap (find j) e ∙ find-insert_at key j value s.cells;
          refused = λ h. cc;
        }

    placed_no :
        fits cell_size key value s.cells ≡ false
        → IsPlaced (false, placed cell_size (slot_of key s) key value s v.laid_out)
    placed_no full =
        let slot = slot_of key s in
        let e = placed-packed cell_size slot key value s v.laid_out full in
        record {
          outcome = sym full;
          valid = record {
            laid_out = placed-IsLaidOut cell_size slot key value s v.laid_out;
            increasing = subst (λ p. Increasing p.cells) (sym e) v.increasing;
          };
          contents = λ j. ap (λ p. find j p.cells) e ∙ elim (Eq-cases key j) [
            | inl same ↦ rw same.1 (ap (λ x. find x s.cells) (sym same.0) ∙ absent)
            | inr other ↦ rw other.1 refl
          ];
          refused = λ h. e;
        }

    pub place-rank :
        (r : Bool × Slotted V) × (place cell_size (slot_of key s) key value s ≡ ok r) × IsPlaced r
    place-rank =
        let s1 = placed cell_size (slot_of key s) key value s v.laid_out in
        let e = place-placed cell_size (slot_of key s) key value s v.laid_out in
        elim (Bool-cases (fits cell_size key value s.cells)) [
          | inl yes' ↦ ((true, s1), e ∙ ap (λ b. ok (b, s1)) yes', placed_yes yes')
          | inr no' ↦ ((false, s1), e ∙ ap (λ b. ok (b, s1)) no', placed_no no')
        ]
