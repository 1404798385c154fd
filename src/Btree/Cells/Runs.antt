-- ===== src/Btree/Cells/Runs.antt =====
-- Lists of cells in the order of their keys, for src/btree/node.cpp: two lists one behind the other,
-- and what is left when the last cells are removed.
use key_v_db.Common.{
  ℕ, zero, suc, ◌<◌, ◌≤◌, ◌≡◌, refl, ap, none, some, List, [], ◌∷◌, ◌++◌, length, get_elem?, take,
  drop, arith,
}
use key_v_db.Common.Assoc.{find}
use key_v_db.Common.Bytes.{Bytes, bytes_eq}
use key_v_db.Btree.Slotted.{remove_at}
use key_v_db.Btree.Cells.{Above, Increasing, rank, bytes_ltb_ne}

module _ {ℓ} {A : Type ℓ} where
  pub take-append_drop : (i : ℕ) (xs : List A) → take i xs ++ drop i xs ≡ xs
  take-append_drop zero xs = refl
  take-append_drop (suc i) [] = refl
  take-append_drop (suc i) (x ∷ xs) = ap (◌∷◌ x) (take-append_drop i xs)

  pub drop-get_elem? :
      (i : ℕ) (xs : List A) (x : A) → get_elem? xs i ≡ some x → drop i xs ≡ x ∷ drop (suc i) xs
  drop-get_elem? i [] x h = cc
  drop-get_elem? zero (y ∷ xs) x h = let same : y ≡ x = cc in ap (λ z. z ∷ xs) same
  drop-get_elem? (suc i) (y ∷ xs) x h = drop-get_elem? i xs x h

  pub get_elem?-some : (i : ℕ) (xs : List A) → i < length xs → (x : A) × (get_elem? xs i ≡ some x)
  get_elem?-some i [] h = absurd (omega (arith, h))
  get_elem?-some zero (x ∷ xs) h = (x, refl)
  get_elem?-some (suc i) (x ∷ xs) h = get_elem?-some i xs (omega (arith, h))

  -- A cell behind the first ones is not among them.
  pub take-remove_at : (i j : ℕ) (xs : List A) → i ≤ j → take i (remove_at j xs) ≡ take i xs
  unfolding remove_at
  take-remove_at i j [] h = refl
  take-remove_at zero j (x ∷ xs) h = refl
  take-remove_at (suc i) zero (x ∷ xs) h = absurd (omega (arith, h))
  take-remove_at (suc i) (suc j) (x ∷ xs) h = ap (◌∷◌ x) (take-remove_at i j xs (omega (arith, h)))

module _ {V : Type 0} where
  pub Above-append :
      (k : Bytes) (xs ys : List (Bytes × V)) → Above k (xs ++ ys) → Above k xs × Above k ys
  Above-append k [] ys a = (tt, a)
  Above-append k (c ∷ xs) ys a = let (l, r) = Above-append k xs ys a.1 in ((a.0, l), r)

  pub Increasing-append :
      (xs ys : List (Bytes × V)) → Increasing (xs ++ ys) → Increasing xs × Increasing ys
  Increasing-append [] ys inc = (tt, inc)
  Increasing-append (c ∷ xs) ys inc =
      let (l, r) = Increasing-append xs ys inc.1 in (((Above-append c.0 xs ys inc.0).0, l), r)

  -- A key above all cells.
  pub rank-last :
      (xs ys : List (Bytes × V)) (key : Bytes) (v : V)
      → Increasing (xs ++ ((key, v) ∷ ys))
      → rank key xs ≡ length xs
  unfolding rank
  rank-last [] ys key v inc = refl
  rank-last (c ∷ xs) ys key v inc =
      let above = (Above-append c.0 xs ((key, v) ∷ ys) inc.0).1.0 in
      rw above (ap suc (rank-last xs ys key v inc.1))

  pub find-last :
      (xs ys : List (Bytes × V)) (key : Bytes) (v : V)
      → Increasing (xs ++ ((key, v) ∷ ys))
      → find key xs ≡ none
  unfolding find
  find-last [] ys key v inc = refl
  find-last (c ∷ xs) ys key v inc =
      let above = (Above-append c.0 xs ((key, v) ∷ ys) inc.0).1.0 in
      rw (bytes_ltb_ne c.0 key above) (find-last xs ys key v inc.1)
