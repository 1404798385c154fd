-- ===== src/Storage/FreeList/Memory.antt =====
-- `memcpy` into and out of the data area of a page.
use key_v_db.Common.{
  ℕ, ◌+◌, ◌-◌, ◌≤◌, ◌≡◌, refl, ap, ◌∙◌, sym, [], ◌∷◌, ◌++◌, length, take, drop, length-append,
  length-take, length-drop, drop-append, take-append, arith, zero, suc,
}
use key_v_db.Common.Bytes.{Bytes}

unfoldable pub read_at : ℕ → ℕ → Bytes → Bytes
read_at n off b = take n (drop off b)

-- The bytes from `off` on replaced by as many new ones.
unfoldable pub write_at : ℕ → Bytes → Bytes → Bytes
write_at off new b = take off b ++ (new ++ drop (off + length new) b)

drop_past : (m : ℕ) (xs ys : Bytes) → drop (length xs + m) (xs ++ ys) ≡ drop m ys
drop_past m [] ys = let e : 0 + m ≡ m = omega arith in rw e refl
drop_past m (x ∷ xs) ys =
    let e : suc (length xs) + m ≡ suc (length xs + m) = omega arith in rw e (drop_past m xs ys)

drop-drop : (m n : ℕ) (xs : Bytes) → drop m (drop n xs) ≡ drop (n + m) xs
drop-drop m zero xs = let e : 0 + m ≡ m = omega arith in rw e refl
drop-drop zero (suc n) [] = let e : suc n + 0 ≡ suc n = omega arith in rw e refl
drop-drop (suc m) (suc n) [] = let e : suc n + suc m ≡ suc (n + suc m) = omega arith in rw e refl
drop-drop m (suc n) (x ∷ xs) =
    let e : suc n + m ≡ suc (n + m) = omega arith in rw e (drop-drop m n xs)

take-drop-append :
    (n off : ℕ) (xs ys : Bytes)
    → off + n ≤ length xs
    → take n (drop off (xs ++ ys)) ≡ take n (drop off xs)
take-drop-append zero off xs ys h = refl
take-drop-append (suc n) off [] ys h = absurd (omega arith)
take-drop-append (suc n) zero (x ∷ xs) ys h =
    ap (◌∷◌ x) (take-drop-append n zero xs ys (omega arith))
take-drop-append (suc n) (suc off) (x ∷ xs) ys h = take-drop-append (suc n) off xs ys (omega arith)

take-drop-take :
    (n off m : ℕ) (xs : Bytes) → off + n ≤ m → take n (drop off (take m xs)) ≡ take n (drop off xs)
take-drop-take zero off m xs h = refl
take-drop-take (suc n) off zero xs h = absurd (omega arith)
take-drop-take (suc n) zero (suc m) [] h = refl
take-drop-take (suc n) (suc off) (suc m) [] h = refl
take-drop-take (suc n) zero (suc m) (x ∷ xs) h =
    ap (◌∷◌ x) (take-drop-take n zero m xs (omega arith))
take-drop-take (suc n) (suc off) (suc m) (x ∷ xs) h = take-drop-take (suc n) off m xs (omega arith)

module _ (off : ℕ) (new b : Bytes) (fits : off + length new ≤ length b) where
  pub length-write_at : length (write_at off new b) ≡ length b
  unfolding write_at
  length-write_at = omega (
    arith,
    length-append (take off b) (new ++ drop (off + length new) b),
    length-append new (drop (off + length new) b),
    length-take off b,
    length-drop (off + length new) b,
    fits,
  )

  pub front : length (take off b) ≡ off
  front = omega (arith, length-take off b, fits)

  -- A read of what was just written.
  pub read_at-write_at : (n : ℕ) → n ≡ length new → read_at n off (write_at off new b) ≡ new
  unfolding read_at write_at
  read_at-write_at n e = rw e (
      ap (λ k. take (length new) (drop k (take off b ++ (new ++ drop (off + length new) b))))
        (sym front)
      ∙ ap (take (length new)) (drop-append (take off b) _)
      ∙ take-append new _)

  -- A read in front of it or behind it.
  pub read_at_before :
      (n at : ℕ) → at + n ≤ off → read_at n at (write_at off new b) ≡ read_at n at b
  unfolding read_at write_at
  read_at_before n at h =
      take-drop-append n at (take off b) _ (omega (arith, front)) ∙ take-drop-take n at off b h

  pub read_at_after :
      (n at : ℕ) → off + length new ≤ at → read_at n at (write_at off new b) ≡ read_at n at b
  unfolding read_at write_at
  read_at_after n at h = ap (take n) behind
    where
      rest : Bytes
      rest = drop (off + length new) b

      behind : drop at (take off b ++ (new ++ rest)) ≡ drop at b
      behind =
          ap (λ k. drop k (take off b ++ (new ++ rest))) (omega (arith, front))
          ∙ drop_past (at - off) (take off b) (new ++ rest)
          ∙ ap (λ k. drop k (new ++ rest)) (omega arith)
          ∙ drop_past (at - off - length new) new rest
          ∙ drop-drop (at - off - length new) (off + length new) b
          ∙ ap (λ k. drop k b) (omega arith)
