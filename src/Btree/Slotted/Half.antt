-- ===== src/Btree/Slotted/Half.antt =====
-- src/btree/node.cpp, the walk of `split_into` to the middle of the cells.
use key_v_db.Common.{
  ℕ, suc, ◌+◌, ◌-◌, ◌*◌, ◌/◌, ◌<◌, ◌≤◌, ◌≡◌, ap, ◌∙◌, List, [], ◌∷◌, length, take, arith, ltb,
  nat_eq, All, inl, inr, Bool-cases, ltb→lt, lt→ltb, nltb→le,
}
use key_v_db.Common.Bytes.{Bytes}
use key_v_db.Btree.Slotted.{Slotted, split_index, half_index, free_space}
use key_v_db.Btree.Slotted.Capacity.{content, live, IsLaidOut}

module _ {V : Type 0} (cell_size : Bytes → V → ℕ) where
  -- No bytes of removed cells.
  abbrev pub IsPacked : Slotted V → Type 0
  IsPacked s = content cell_size s.cells + s.cell_end ≡ 4072

  -- Every cell takes so many bytes with its slot at most.
  abbrev pub AllWithin : ℕ → List (Bytes × V) → Type 0
  AllWithin m cells = All (λ (c : Bytes × V). 2 + cell_size c.0 c.1 ≤ m) cells

  split_index-inside :
      (half acc i : ℕ) (cells : List (Bytes × V))
      → 0 < i
      → acc ≤ half
      → half < acc + live cell_size cells
      → (i ≤ split_index cell_size half acc i cells)
        × (split_index cell_size half acc i cells < i + length cells)
  unfolding split_index live content
  split_index-inside half acc i [] pos le less = absurd (omega (arith, le, less))
  split_index-inside half acc i ((key, v) ∷ cells) pos le less =
      elim (Bool-cases (ltb half (acc + (cell_size key v + 2)))) [
        | inl stop ↦ rw (stop, lt→ltb 0 i pos) (omega arith, omega arith)
        | inr on ↦
            let (low, high) =
              split_index-inside half (acc + (cell_size key v + 2)) (i + 1) cells (omega arith)
                (nltb→le half (acc + (cell_size key v + 2)) on) (omega (arith, less)) in
            rw on (omega (arith, low), omega (arith, high))
      ]

  -- The cells before the index take at most the half, and with one more cell they would take more.
  split_index-balance :
      (m half acc i : ℕ) (cells : List (Bytes × V))
      → AllWithin m cells
      → 0 < i
      → acc ≤ half
      → half < acc + live cell_size cells
      → (acc + live cell_size (take (split_index cell_size half acc i cells - i) cells) ≤ half)
        × (half
            < acc + live cell_size (take (split_index cell_size half acc i cells - i) cells) + m)
  unfolding split_index live content
  split_index-balance m half acc i [] all pos le less = absurd (omega (arith, le, less))
  split_index-balance m half acc i ((key, v) ∷ cells) all pos le less =
      elim (Bool-cases (ltb half (acc + (cell_size key v + 2)))) [
        | inl stop ↦
            let none' : i - i ≡ 0 = omega arith in
            let big = ltb→lt half (acc + (cell_size key v + 2)) stop in
            rw (stop, lt→ltb 0 i pos) (rw none' (omega (arith, le), omega (arith, big, all.0)))
        | inr on ↦
            let next = acc + (cell_size key v + 2) in
            let below = nltb→le half next on in
            let more : half < next + live cell_size cells = omega (arith, less) in
            let j = split_index cell_size half next (i + 1) cells in
            let (low, high) = split_index-inside half next (i + 1) cells (omega arith) below more in
            let (left, right) =
              split_index-balance m half next (i + 1) cells all.1 (omega arith) below more in
            let step : j - i ≡ suc (j - (i + 1)) = omega (arith, low) in
            rw on (rw step (omega (arith, left), omega (arith, right)))
      ]

  -- The first cell stays in the left half whatever its size.
  split_index-step :
      (half : ℕ) (k : Bytes) (v : V) (cells : List (Bytes × V))
      → split_index cell_size half 0 0 ((k, v) ∷ cells)
        ≡ split_index cell_size half (cell_size k v + 2) 1 cells
  unfolding split_index
  split_index-step half k v cells = ground arith

  split_index-early :
      (half acc : ℕ) (k : Bytes) (v : V) (cells : List (Bytes × V))
      → half < acc
      → split_index cell_size half acc 1 ((k, v) ∷ cells) ≡ 1
  unfolding split_index
  split_index-early half acc k v cells h = ground (arith, h)

  split_index-first :
      (half : ℕ) (cells : List (Bytes × V))
      → 2 ≤ length cells
      → half < live cell_size cells
      → (0 < split_index cell_size half 0 0 cells)
        × (split_index cell_size half 0 0 cells < length cells)
  unfolding live content
  split_index-first half [] two less = absurd (omega (arith, two))
  split_index-first half (c ∷ []) two less = absurd (omega (arith, two))
  split_index-first half ((k, v) ∷ (key, w) ∷ cells) two less =
      let first = cell_size k v + 2 in
      elim (Bool-cases (ltb half first)) [
        | inl above ↦
            let one =
              split_index-step half k v ((key, w) ∷ cells)
              ∙ split_index-early half first key w cells (ltb→lt half first above) in
            rw one (omega arith, omega arith)
        | inr below ↦
            let (low, high) =
              split_index-inside half first 1 ((key, w) ∷ cells) (omega arith)
                (nltb→le half first below) (omega (arith, less)) in
            rw (split_index-step half k v ((key, w) ∷ cells)) (low, omega (arith, high))
      ]

  split_index_first-balance :
      (m half : ℕ) (cells : List (Bytes × V))
      → AllWithin m cells
      → m ≤ half
      → half < live cell_size cells
      → (live cell_size (take (split_index cell_size half 0 0 cells) cells) ≤ half)
        × (half < live cell_size (take (split_index cell_size half 0 0 cells) cells) + m)
  unfolding live content
  split_index_first-balance m half [] all le less = absurd (omega (arith, less))
  split_index_first-balance m half ((k, v) ∷ cells) all le less =
      let first = cell_size k v + 2 in
      let j = split_index cell_size half first 1 cells in
      let more : half < first + live cell_size cells = omega (arith, less) in
      let below : first ≤ half = omega (arith, le, all.0) in
      let (low, high) = split_index-inside half first 1 cells (omega arith) below more in
      let (left, right) = split_index-balance m half first 1 cells all.1 (omega arith) below more in
      let step : j ≡ suc (j - 1) = omega (arith, low) in
      rw (split_index-step half k v cells) (rw step (omega (arith, left), omega (arith, right)))

  half-less :
      (s : Slotted V) → 2 ≤ length s.cells → live cell_size s.cells / 2 < live cell_size s.cells
  unfolding live
  half-less s two = omega (arith, two)

  half-live :
      (s : Slotted V)
      → IsLaidOut cell_size s
      → IsPacked s
      → (4040 - free_space s) / 2 ≡ live cell_size s.cells / 2
  unfolding free_space live
  half-live s o packed = ap (λ n. n / 2) (omega (arith, o.slots, o.apart, packed))

  pub half_index-inside :
      (s : Slotted V)
      → IsLaidOut cell_size s
      → IsPacked s
      → 2 ≤ length s.cells
      → (0 < half_index cell_size s) × (half_index cell_size s < length s.cells)
  unfolding half_index
  half_index-inside s o packed two =
      rw (half-live s o packed)
        (split_index-first (live cell_size s.cells / 2) s.cells two (half-less s two))

  pub half_index-balance :
      (m : ℕ) (s : Slotted V)
      → IsLaidOut cell_size s
      → IsPacked s
      → AllWithin m s.cells
      → 2 * m ≤ live cell_size s.cells
      → 0 < live cell_size s.cells
      → (live cell_size (take (half_index cell_size s) s.cells) ≤ live cell_size s.cells / 2)
        × (live cell_size s.cells / 2 < live cell_size (take (half_index cell_size s) s.cells) + m)
  unfolding half_index
  half_index-balance m s o packed all le pos = rw (half-live s o packed) (
      split_index_first-balance m (live cell_size s.cells / 2) s.cells all (omega (arith, le))
        (omega (arith, pos)))
