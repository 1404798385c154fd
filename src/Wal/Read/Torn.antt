-- ===== src/Wal/Read/Torn.antt =====
-- What recovery finds in the log after one more append, however the write ended.
use key_v_db.Common.{
  nltb→le, ltb→lt, ℕ, zero, suc, ◌+◌, ◌-◌, ◌≤◌, ◌<◌, ◌≡◌, ◌⊎◌, inl, inr, refl, sym, ap, ◌∙◌, List,
  [], ◌∷◌, ◌++◌, length, length-append, length-take, ltb, nat_eq, if◌then◌else◌, arith,
  append_assoc, append-nil, map, All, All-append, take, Bool-cases,
}
use key_v_db.Common.Bytes.{Bytes}
use key_v_db.Common.Result.{ok, err, runtime_error, done, failed, short}
use key_v_db.Wal.{WalRecord, header_size, encode, header_bytes, header_of}
use key_v_db.Wal.Codec.{pread_end, length-header_bytes}
use key_v_db.Wal.Log.{LogManager, append_record}
use key_v_db.Wal.Read.{read_field, read_record, read_loop, read_all}
use key_v_db.Wal.Read.RoundTrip.{
  encode_all, IsStored, as_read, next_header-encode, read_field-at, read_all-encode_all, walk,
  prepend_all-err, length-encode,
}

read_field_short :
    (file pre rest : Bytes) (off n : ℕ)
    → file ≡ pre ++ rest
    → off ≡ length pre
    → length rest < n
    → read_field file n off ≡ err runtime_error
unfolding read_field
read_field_short file pre rest off n f e h =
    rw (f, pread_end pre rest off n e (omega arith)) (ground arith)

-- A proper prefix of a record's payload ends inside the key, the before-image or the after-image.
abbrev CutIn : WalRecord → Bytes → Type 0
CutIn r p =
    (length p < length r.key)
    ⊎ (((q : Bytes) × (p ≡ r.key ++ q) × (length q < length r.before_val))
        ⊎ ((q : Bytes) × (p ≡ r.key ++ (r.before_val ++ q)) × (length q < length r.after_val)))

take_front : (m : ℕ) (xs ys : Bytes) → m ≤ length xs → take m (xs ++ ys) ≡ take m xs
take_front zero xs ys h = refl
take_front (suc m) [] ys h = absurd (omega arith)
take_front (suc m) (x ∷ xs) ys h = ap (◌∷◌ x) (take_front m xs ys (omega arith))

take_past : (m : ℕ) (xs ys : Bytes) → take (length xs + m) (xs ++ ys) ≡ xs ++ take m ys
take_past m [] ys = let e : 0 + m ≡ m = omega arith in rw e refl
take_past m (x ∷ xs) ys =
    let e : suc (length xs) + m ≡ suc (length xs + m) = omega arith in
    rw e (ap (◌∷◌ x) (take_past m xs ys))

take_beyond :
    (m : ℕ) (xs ys : Bytes) → length xs ≤ m → take m (xs ++ ys) ≡ xs ++ take (m - length xs) ys
take_beyond m xs ys h =
    let e : m ≡ length xs + (m - length xs) = omega arith in
    ap (λ k. take k (xs ++ ys)) e ∙ take_past (m - length xs) xs ys

cut :
    (r : WalRecord) (m : ℕ)
    → m < length r.key + length r.before_val + length r.after_val
    → CutIn r (take m (r.key ++ (r.before_val ++ r.after_val)))
cut r m h = elim (Bool-cases (ltb m (length r.key))) [
  | inl inside ↦ inl (
      rw (take_front m r.key (r.before_val ++ r.after_val) (ground arith))
        (ground (arith, length-take m r.key)))
  | inr past ↦ inr (elim (Bool-cases (ltb (m - length r.key) (length r.before_val))) [
    | inl inside ↦ inl (
      take (m - length r.key) r.before_val,
      take_beyond m r.key (r.before_val ++ r.after_val) (ground arith)
          ∙ ap (◌++◌ r.key) (take_front (m - length r.key) r.before_val r.after_val (ground arith)),
      ground (arith, length-take (m - length r.key) r.before_val),
    )
    | inr far ↦ inr (
      take (m - length r.key - length r.before_val) r.after_val,
      take_beyond m r.key (r.before_val ++ r.after_val) (ground arith)
          ∙ ap (◌++◌ r.key)
              (take_beyond (m - length r.key) r.before_val r.after_val (ground arith)),
      ground (arith, length-take (m - length r.key - length r.before_val) r.after_val),
    )
  ])
]

module _ (pre : Bytes) (r : WalRecord) (off : ℕ) (start : off ≡ length pre) where
  cut_record :
      (p : Bytes) → CutIn r p → read_record (pre ++ p) (header_of r) off ≡ err runtime_error
  unfolding read_record
  cut_record p (inl h) = rw (read_field_short (pre ++ p) pre p off (length r.key) refl start h) refl
  cut_record p (inr (inl (q, e, h))) =
      rw
        (
          read_field-at (pre ++ p) pre r.key q off (length r.key) (ap (◌++◌ pre) e) start refl,
          read_field_short (pre ++ p) (pre ++ r.key) q (off + length r.key) (length r.before_val)
              (ap (◌++◌ pre) e ∙ sym (append_assoc pre r.key q))
              (omega (arith, start, length-append pre r.key)) h,
        )
        refl
  cut_record p (inr (inr (q, e, h))) =
      rw
        (
          read_field-at (pre ++ p) pre r.key (r.before_val ++ q) off (length r.key)
              (ap (◌++◌ pre) e) start refl,
          read_field-at (pre ++ p) (pre ++ r.key) r.before_val q (off + length r.key)
              (length r.before_val)
              (ap (◌++◌ pre) e ∙ sym (append_assoc pre r.key (r.before_val ++ q)))
              (omega (arith, start, length-append pre r.key)) refl,
          read_field_short (pre ++ p) ((pre ++ r.key) ++ r.before_val) q
              (off + length r.key + length r.before_val) (length r.after_val)
              (ap (◌++◌ pre) e ∙ simp append_assoc)
              (omega
                (arith, start, length-append pre r.key, length-append (pre ++ r.key) r.before_val))
              h,
        )
        refl

take-encode :
    (r : WalRecord) (n : ℕ)
    → header_size ≤ n
    → take n (encode r)
      ≡ header_bytes (header_of r)
        ++ take (n - header_size) (r.key ++ (r.before_val ++ r.after_val))
unfolding encode
take-encode r n h =
    take_beyond n (header_bytes (header_of r)) (r.key ++ (r.before_val ++ r.after_val))
      (omega (arith, length-header_bytes (header_of r)))
    ∙ rw (length-header_bytes (header_of r)) refl

cut_image :
    (fuel off : ℕ) (pre p : Bytes) (r : WalRecord)
    → off ≡ length pre
    → IsStored r
    → CutIn r p
    → read_loop (suc fuel) (pre ++ (header_bytes (header_of r) ++ p)) off ≡ err runtime_error
unfolding read_loop
cut_image fuel off pre p r start v c =
    rw (next_header-encode pre p r off start v, failing, read_loop) refl
  where
    failing :
        read_record (pre ++ (header_bytes (header_of r) ++ p)) (header_of r) (off + header_size)
        ≡ err runtime_error
    failing = rw (← append_assoc pre (header_bytes (header_of r)) p) (
        cut_record (pre ++ header_bytes (header_of r)) r (off + header_size)
          (omega (
            arith,
            start,
            length-header_bytes (header_of r),
            length-append pre (header_bytes (header_of r)),
          ))
          p c)

cut_walk :
    (fuel off n : ℕ) (pre : Bytes) (r : WalRecord)
    → off ≡ length pre
    → IsStored r
    → header_size ≤ n
    → n < length (encode r)
    → read_loop (suc fuel) (pre ++ take n (encode r)) off ≡ err runtime_error
cut_walk fuel off n pre r start v lo hi = rw (take-encode r n lo) (
    cut_image fuel off pre _ r start v
      (cut r (n - header_size) (omega (arith, hi, length-encode r))))

cut_loop :
    (extra off n : ℕ) (pre : Bytes) (r : WalRecord)
    → off ≡ length pre
    → IsStored r
    → header_size ≤ n
    → n < length (encode r)
    → 0 < extra
    → read_loop extra (pre ++ take n (encode r)) off ≡ err runtime_error
cut_loop zero off n pre r start v lo hi h = absurd (omega arith)
cut_loop (suc fuel) off n pre r start v lo hi h = cut_walk fuel off n pre r start v lo hi

encode_all-append :
    (rs : List WalRecord) (r : WalRecord) → encode_all (rs ++ r ∷ []) ≡ encode_all rs ++ encode r
unfolding encode_all
encode_all-append [] r = append-nil (encode r)
encode_all-append (s ∷ rs) r =
    ap (◌++◌ (encode s)) (encode_all-append rs r)
    ∙ sym (append_assoc (encode s) (encode_all rs) (encode r))

-- The record with the number that the log gives it.
abbrev pub numbered : LogManager → WalRecord → WalRecord
numbered lm r = record r { lsn = lm.next_lsn }

module _ (lm : LogManager) (rs : List WalRecord) (r : WalRecord) (holds : lm.file ≡ encode_all rs)
    (stored : All IsStored rs) (fits : IsStored (numbered lm r)) where
  -- After a write that succeeds, the records and the new one are read back; after a write that
  -- fails, the records are.
  pub read_all-append_record :
      (read_all (append_record done lm r).1 ≡ ok (map as_read (rs ++ numbered lm r ∷ [])))
      × (read_all (append_record failed lm r).1 ≡ ok (map as_read rs))
  unfolding append_record
  read_all-append_record = (
    read_all-encode_all _ (rs ++ numbered lm r ∷ []) []
        (rw (holds, encode_all-append rs (numbered lm r)) (sym (append-nil _)))
        (All-append IsStored rs (numbered lm r ∷ []) stored (fits, tt)) (omega arith),
    read_all-encode_all _ rs [] (rw holds (sym (append-nil _))) stored (omega arith),
  )

  -- After a write that is cut off inside the record's header, the records before it are read back;
  -- one that is cut off behind the header makes `read_all` throw.
  pub read_all-torn :
      (n : ℕ)
      → n < length (encode (numbered lm r))
      → read_all (append_record (short n) lm r).1
        ≡ (if ltb n header_size then ok (map as_read rs) else err runtime_error)
  unfolding append_record
  read_all-torn n hi = elim (Bool-cases (ltb n header_size)) [
    | inl early ↦ rw early (
        read_all-encode_all _ rs (take n (encode (numbered lm r))) (rw holds refl) stored
          (omega (arith, length-take n (encode (numbered lm r)), ltb→lt n header_size early)))
    | inr late ↦ rw late (
        walk _ rs (take n (encode (numbered lm r))) (err runtime_error) (rw holds refl) stored
          (λ extra off e h.
            cut_loop extra off n (encode_all rs) (numbered lm r) e fits (nltb→le n header_size late)
              hi (omega arith))
        ∙ prepend_all-err rs runtime_error)
  ]
