-- ===== src/Btree/Slotted/Room.antt =====
-- src/btree/node.cpp, `compact` and the end of `insert_leaf_cell` and `insert_separator`: the page
-- that they leave, and when there is room.
use key_v_db.Common.{
  ℕ, ◌+◌, ◌*◌, ◌≤◌, ◌≡◌, refl, sym, ap, ◌∙◌, subst, true, false, not, List, [], ◌∷◌, ◌++◌, length,
  nat_eq, if◌then◌else◌, arith, Bool-cases, inl, inr, length-append, append_assoc, append-nil,
}
use key_v_db.Common.Bytes.{Bytes}
use key_v_db.Common.Result.{ok}
use key_v_db.Btree.Slotted.{Slotted, blank, insert_at, is_full, write_all, compact, place}
use key_v_db.Btree.Slotted.Capacity.{
  content, live, IsLaidOut, packed, written, fits, insert_at-length, content-append, live-le,
  packed-IsLaidOut, is_full-packed, fits-is_full, write_cell-written, written-IsLaidOut,
}

Slotted-eq :
    {V : Type 0} {s t : Slotted V}
    → s.cells ≡ t.cells
    → s.free_end ≡ t.free_end
    → s.cell_end ≡ t.cell_end
    → s ≡ t
Slotted-eq c f e = λ i. record { cells = c i; free_end = f i; cell_end = e i }

module _ {V : Type 0} (cell_size : Bytes → V → ℕ) where
  pub live-cons :
      (key : Bytes) (v : V) (cells : List (Bytes × V))
      → live cell_size ((key, v) ∷ cells) ≡ 2 + cell_size key v + live cell_size cells
  unfolding live content
  live-cons key v cells = omega arith

  pub live-snoc :
      (done : List (Bytes × V)) (key : Bytes) (v : V)
      → live cell_size (done ++ ((key, v) ∷ [])) ≡ live cell_size done + (2 + cell_size key v)
  unfolding live content
  live-snoc done key v =
      omega
        (arith, length-append done ((key, v) ∷ []), content-append cell_size done ((key, v) ∷ []))

  pub live-append :
      (xs ys : List (Bytes × V)) → live cell_size (xs ++ ys) ≡ live cell_size xs + live cell_size ys
  unfolding live
  live-append xs ys = omega (arith, length-append xs ys, content-append cell_size xs ys)

  pub fits-snoc :
      (done : List (Bytes × V)) (key : Bytes) (v : V)
      → live cell_size (done ++ ((key, v) ∷ [])) ≤ 4040
      → fits cell_size key v done ≡ true
  unfolding fits
  fits-snoc done key v le = ground (arith, live-snoc done key v, le)

  written-packed :
      (done : List (Bytes × V)) (key : Bytes) (v : V)
      → live cell_size (done ++ ((key, v) ∷ [])) ≤ 4040
      → written cell_size (length done) key v (packed cell_size done)
        ≡ packed cell_size (done ++ ((key, v) ∷ []))
  unfolding live content
  written-packed done key v le =
      Slotted-eq (insert_at-length (key, v) done)
        (omega (arith, length-append done ((key, v) ∷ [])))
        (omega (arith, content-append cell_size done ((key, v) ∷ [])))

  write_all-packed :
      (cells done : List (Bytes × V))
      → live cell_size (done ++ cells) ≤ 4040
      → write_all cell_size cells (packed cell_size done) ≡ ok (packed cell_size (done ++ cells))
  unfolding write_all
  write_all-packed [] done le = ap (λ xs. ok (packed cell_size xs)) (sym (append-nil done))
  write_all-packed ((key, v) ∷ cells) done le =
      let assoc : (done ++ ((key, v) ∷ [])) ++ cells ≡ done ++ ((key, v) ∷ cells) =
        append_assoc done ((key, v) ∷ []) cells in
      let whole : live cell_size ((done ++ ((key, v) ∷ [])) ++ cells) ≤ 4040 =
        subst (λ xs. live cell_size xs ≤ 4040) (sym assoc) le in
      let part : live cell_size (done ++ ((key, v) ∷ [])) ≤ 4040 =
        omega (arith, whole, live-append (done ++ ((key, v) ∷ [])) cells) in
      let free : is_full (cell_size key v) (packed cell_size done) ≡ false =
        is_full-packed cell_size key v done ∙ ap not (fits-snoc done key v part) in
      let before : live cell_size done ≤ 4040 = omega (arith, part, live-snoc done key v) in
      rw
        (
          write_cell-written cell_size (length done) key v (packed cell_size done)
              (packed-IsLaidOut cell_size done before) free,
          written-packed done key v part,
        )
        (write_all-packed cells (done ++ ((key, v) ∷ [])) whole
          ∙ ap (λ xs. ok (packed cell_size xs)) assoc)

  compact-cells :
      (cells : List (Bytes × V)) (s : Slotted V)
      → s.cells ≡ cells
      → IsLaidOut cell_size s
      → compact cell_size s ≡ ok (packed cell_size cells)
  unfolding compact blank content
  compact-cells [] s h o =
      rw h (ap ok (Slotted-eq refl (o.slots ∙ ap (λ xs. 32 + 2 * length xs) h) refl))
  compact-cells (c ∷ cells) s h o = rw h (
      write_all-packed (c ∷ cells) []
        (subst (λ xs. live cell_size xs ≤ 4040) h (live-le cell_size o)))

  -- `compact` drops the bytes of removed cells, and no cell.
  pub compact-packed :
      (s : Slotted V) → IsLaidOut cell_size s → compact cell_size s ≡ ok (packed cell_size s.cells)
  compact-packed s o = compact-cells s.cells s refl o

  module _ (slot : ℕ) (key : Bytes) (v : V) (s : Slotted V) (o : IsLaidOut cell_size s) where
    -- The page that `place` leaves.
    abbrev pub placed : Slotted V
    placed =
        if is_full (cell_size key v) s
        then (if fits cell_size key v s.cells
            then written cell_size slot key v (packed cell_size s.cells)
            else packed cell_size s.cells)
        else written cell_size slot key v s

    -- A cell is written exactly if it fits.
    pub place-placed : place cell_size slot key v s ≡ ok (fits cell_size key v s.cells, placed)
    unfolding place
    place-placed = elim (Bool-cases (is_full (cell_size key v) s)) [
      | inr room ↦
          rw
            (
              room,
              write_cell-written cell_size slot key v s o room,
              fits-is_full cell_size key v s o room,
            )
            (rw room refl)
      | inl full ↦
          let again = is_full-packed cell_size key v s.cells in
          let laid = packed-IsLaidOut cell_size s.cells (live-le cell_size o) in
          rw (full, compact-packed s o, again)
            (elim (Bool-cases (fits cell_size key v s.cells)) [
              | inr no' ↦ rw no' refl
              | inl yes' ↦
                  rw
                    (
                      yes',
                      write_cell-written cell_size slot key v (packed cell_size s.cells) laid
                          (again ∙ ap not yes'),
                    )
                    refl
            ])
    ]

    pub placed-IsLaidOut : IsLaidOut cell_size placed
    placed-IsLaidOut = elim (Bool-cases (is_full (cell_size key v) s)) [
      | inr room ↦ rw room (written-IsLaidOut cell_size slot key v s o room)
      | inl full ↦
          let again = is_full-packed cell_size key v s.cells in
          let laid = packed-IsLaidOut cell_size s.cells (live-le cell_size o) in
          rw full (elim (Bool-cases (fits cell_size key v s.cells)) [
            | inr no' ↦ rw no' laid
            | inl yes' ↦ rw yes' (
                written-IsLaidOut cell_size slot key v (packed cell_size s.cells) laid
                  (again ∙ ap not yes'))
          ])
    ]

    pub placed-cells :
        fits cell_size key v s.cells ≡ true → placed.cells ≡ insert_at slot (key, v) s.cells
    placed-cells h = elim (Bool-cases (is_full (cell_size key v) s)) [
      | inr room ↦ rw room refl
      | inl full ↦ rw (full, h) refl
    ]

    pub placed-packed : fits cell_size key v s.cells ≡ false → placed ≡ packed cell_size s.cells
    placed-packed h = elim (Bool-cases (is_full (cell_size key v) s)) [
      | inr room ↦ cc (fits-is_full cell_size key v s o room, h)
      | inl full ↦ rw (full, h) refl
    ]
