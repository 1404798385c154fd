-- ===== src/Wal/Read/RoundTrip.antt =====
-- What was appended is what `read_all` returns; and what it does with a log that ends in a torn
-- record.
use key_v_db.Common.{
  ℕ, zero, suc, ◌+◌, ◌-◌, ◌≤◌, ◌<◌, ◌≡◌, ◌≢◌, refl, sym, ap, ◌∙◌, not, some, List, [], ◌∷◌, ◌++◌,
  length, length-append, ◌==◌, nat_eq, arith, append_assoc, append-nil, map, All,
}
use key_v_db.Common.Bytes.{Bytes}
use key_v_db.Common.Result.{Result, Error, ok, err}
use key_v_db.Wal.{WalRecord, header_size, invalid_type, InRange, encode, header_bytes, header_of}
use key_v_db.Wal.Codec.{pread_mid, pread_end, length-header_bytes, read_header-header_of}
use key_v_db.Wal.Log.{LogManager}
use key_v_db.Wal.Read.{next_header, read_field, read_record, read_loop, read_all}

-- The log file with these records.
unfoldable pub encode_all : List WalRecord → Bytes
encode_all [] = []
encode_all (r ∷ rs) = encode r ++ encode_all rs

-- A record that `append_record` can have written: it fits, and has a type.
abbrev pub IsStored : WalRecord → Type 0
IsStored r = InRange r × (r.type ≢ invalid_type)

-- What `read_all` makes of a record: `before_exists` is not in the file, and is taken from the
-- length of the before-image.
abbrev pub as_read : WalRecord → WalRecord
as_read r = record r { before_exists = not (length r.before_val == 0) }

pub next_header-encode :
    (pre post : Bytes) (r : WalRecord) (off : ℕ)
    → off ≡ length pre
    → IsStored r
    → next_header (pre ++ (header_bytes (header_of r) ++ post)) off ≡ some (header_of r)
unfolding next_header
next_header-encode pre post r off e v =
    rw
      (
        pread_mid pre (header_bytes (header_of r)) post off header_size e
            (sym (length-header_bytes (header_of r))),
        length-header_bytes (header_of r),
        read_header-header_of r v.0,
      )
      (ground (arith, v.1))

pub read_field-mid :
    (pre mid post : Bytes) (off n : ℕ)
    → off ≡ length pre
    → n ≡ length mid
    → read_field (pre ++ (mid ++ post)) n off ≡ ok mid
unfolding read_field
read_field-mid pre [] post off n e q = rw q refl
read_field-mid pre (b ∷ mid) post off n e q =
    rw (pread_mid pre (b ∷ mid) post off n e q, q) (ground arith)

pub read_field-at :
    (file pre mid post : Bytes) (off n : ℕ)
    → file ≡ pre ++ (mid ++ post)
    → off ≡ length pre
    → n ≡ length mid
    → read_field file n off ≡ ok mid
read_field-at file pre mid post off n f e q = rw f (read_field-mid pre mid post off n e q)

module _ (pre post : Bytes) (r : WalRecord) (off : ℕ) (start : off ≡ length pre) where
  abbrev image : Bytes
  image = pre ++ (r.key ++ (r.before_val ++ (r.after_val ++ post)))

  before-at : read_field image (length r.before_val) (off + length r.key) ≡ ok r.before_val
  before-at =
      read_field-at image (pre ++ r.key) r.before_val (r.after_val ++ post) _ _
        (sym (append_assoc pre r.key _)) (omega (arith, length-append pre r.key, start)) refl

  after-at :
      read_field image (length r.after_val) (off + length r.key + length r.before_val)
      ≡ ok r.after_val
  after-at =
      read_field-at image ((pre ++ r.key) ++ r.before_val) r.after_val post _ _ (simp append_assoc)
        (omega (arith, length-append (pre ++ r.key) r.before_val, length-append pre r.key, start))
        refl

  read_record-encode :
      read_record image (header_of r) off
      ≡ ok (as_read r, off + length r.key + length r.before_val + length r.after_val)
  unfolding read_record
  read_record-encode =
      rw
        (
          read_field-mid pre r.key (r.before_val ++ (r.after_val ++ post)) off (length r.key) start
              refl,
          before-at,
          after-at,
        )
        refl

pub length-encode :
    (r : WalRecord)
    → length (encode r) ≡ header_size + length r.key + length r.before_val + length r.after_val
unfolding encode
length-encode r = omega (
  arith,
  length-append (header_bytes (header_of r)) (r.key ++ (r.before_val ++ r.after_val)),
  length-append r.key (r.before_val ++ r.after_val),
  length-append r.before_val r.after_val,
  length-header_bytes (header_of r),
)

-- The parts of a stored record, with what stands before and after it in the file.
encode-parts :
    (pre post : Bytes) (r : WalRecord)
    → pre ++ (encode r ++ post)
      ≡ pre ++ (header_bytes (header_of r) ++ (r.key ++ (r.before_val ++ (r.after_val ++ post))))
unfolding encode
encode-parts pre post r = simp append_assoc

encode-payload :
    (pre post : Bytes) (r : WalRecord)
    → pre ++ (encode r ++ post)
      ≡ (pre ++ header_bytes (header_of r)) ++ (r.key ++ (r.before_val ++ (r.after_val ++ post)))
unfolding encode
encode-payload pre post r = simp append_assoc

-- Prefix a record to what the rest of the walk gives.
abbrev pub before : WalRecord → Result (List WalRecord) → Result (List WalRecord)
before r (ok rs) = ok (r ∷ rs)
before r (err e) = err e

pub header_at :
    (pre post : Bytes) (r : WalRecord) (off : ℕ)
    → off ≡ length pre
    → IsStored r
    → next_header (pre ++ (encode r ++ post)) off ≡ some (header_of r)
header_at pre post r off start v =
    rw (encode-parts pre post r) (next_header-encode pre _ r off start v)

payload_at :
    (pre post : Bytes) (r : WalRecord) (off : ℕ)
    → off ≡ length pre
    → read_record (pre ++ (encode r ++ post)) (header_of r) (off + header_size)
      ≡ ok (as_read r, off + header_size + length r.key + length r.before_val + length r.after_val)
payload_at pre post r off start = rw (encode-payload pre post r) (
    read_record-encode (pre ++ header_bytes (header_of r)) post r (off + header_size) (
      omega (
        arith,
        start,
        length-append pre (header_bytes (header_of r)),
        length-header_bytes (header_of r),
      )))

-- One round of the loop reads one record and goes on behind it.
read_loop-encode :
    (fuel : ℕ) (pre post : Bytes) (r : WalRecord) (off : ℕ) (rest : Result (List WalRecord))
    → off ≡ length pre
    → IsStored r
    → ((next : ℕ)
        → next ≡ length (pre ++ encode r)
        → read_loop fuel ((pre ++ encode r) ++ post) next ≡ rest)
    → read_loop (suc fuel) (pre ++ (encode r ++ post)) off ≡ before (as_read r) rest
unfolding read_loop
read_loop-encode fuel pre post r off rest start v behind =
    rw (header_at pre post r off start v, payload_at pre post r off start, tail, read_loop)
      (ground arith)
  where
    tail :
        read_loop fuel
          (pre ++ (encode r ++ post))
          (off + header_size + length r.key + length r.before_val + length r.after_val)
        ≡ rest
    tail =
        rw (← append_assoc pre (encode r) post)
          (behind _ (omega (arith, start, length-append pre (encode r), length-encode r)))

abbrev pub prepend_all : List WalRecord → Result (List WalRecord) → Result (List WalRecord)
prepend_all [] rest = rest
prepend_all (r ∷ rs) rest = before (as_read r) (prepend_all rs rest)

-- The walk over a run of stored records, with what it meets behind them.
read_loop-encode_all :
    (rs : List WalRecord) (fuel extra : ℕ) (pre tail : Bytes) (off : ℕ)
    (rest : Result (List WalRecord))
    → off ≡ length pre
    → All IsStored rs
    → fuel ≡ length rs + extra
    → ((off' : ℕ)
        → off' ≡ length (pre ++ encode_all rs)
        → read_loop extra ((pre ++ encode_all rs) ++ tail) off' ≡ rest)
    → read_loop fuel (pre ++ (encode_all rs ++ tail)) off ≡ prepend_all rs rest
unfolding encode_all
read_loop-encode_all [] fuel extra pre tail off rest start v enough end =
    let same : fuel ≡ extra = omega (arith, enough) in
    rw same (rw append-nil at (end off (rw append-nil start)))
read_loop-encode_all (r ∷ rs) fuel extra pre tail off rest start v enough end =
    let same : fuel ≡ suc (length rs + extra) = omega (arith, enough) in
    rw (same, append_assoc (encode r) (encode_all rs) tail)
      (read_loop-encode (length rs + extra) pre (encode_all rs ++ tail) r off (prepend_all rs rest)
        start v.0
        (λ next e.
          read_loop-encode_all rs (length rs + extra) extra (pre ++ encode r) tail next rest e v.1
            refl
            (λ off' e'.
              rw (append_assoc pre (encode r) (encode_all rs))
                (end off' (e' ∙ ap length (append_assoc pre (encode r) (encode_all rs)))))))

-- The walk stops without an error when fewer bytes than a header are left.
stop_short :
    (fuel : ℕ) (pre tail : Bytes) (off : ℕ)
    → off ≡ length pre
    → length tail < header_size
    → read_loop fuel (pre ++ tail) off ≡ ok []
unfolding read_loop next_header
stop_short zero pre tail off e h = refl
stop_short (suc fuel) pre tail off e h =
    rw (pread_end pre tail off header_size e (omega arith), read_loop, next_header) (ground arith)

prepend_all-ok : (rs : List WalRecord) → prepend_all rs (ok []) ≡ ok (map as_read rs)
prepend_all-ok [] = refl
prepend_all-ok (r ∷ rs) = rw (prepend_all-ok rs) refl

pub prepend_all-err : (rs : List WalRecord) (e : Error) → prepend_all rs (err e) ≡ err e
prepend_all-err [] e = refl
prepend_all-err (r ∷ rs) e = rw (prepend_all-err rs e) refl

pub count-le : (rs : List WalRecord) → length rs ≤ length (encode_all rs)
unfolding encode_all
count-le [] = omega arith
count-le (r ∷ rs) =
    omega (arith, count-le rs, length-append (encode r) (encode_all rs), length-encode r)

-- What `read_all` makes of a file that begins with stored records: the records, then whatever the
-- walk makes of the bytes behind them.
pub walk :
    (lm : LogManager) (rs : List WalRecord) (tail : Bytes) (rest : Result (List WalRecord))
    → lm.file ≡ encode_all rs ++ tail
    → All IsStored rs
    → ((extra off : ℕ)
        → off ≡ length (encode_all rs)
        → length tail < extra
        → read_loop extra (encode_all rs ++ tail) off ≡ rest)
    → read_all lm ≡ prepend_all rs rest
unfolding read_all
walk lm rs tail rest e v end = rw e (
    read_loop-encode_all rs _ (suc (length (encode_all rs ++ tail)) - length rs) [] tail 0 rest refl
      v (omega (arith, count-le rs, length-append (encode_all rs) tail))
      (λ off' e'. end _ off' e' (omega (arith, count-le rs, length-append (encode_all rs) tail))))

-- A file of stored records, with a torn header behind them or nothing, is read back whole:
-- each record as it was appended, its `before_exists` by the length of its before-image.
pub read_all-encode_all :
    (lm : LogManager) (rs : List WalRecord) (torn : Bytes)
    → lm.file ≡ encode_all rs ++ torn
    → All IsStored rs
    → length torn < header_size
    → read_all lm ≡ ok (map as_read rs)
read_all-encode_all lm rs torn e v h =
    walk lm rs torn (ok []) e v (λ extra off e' _. stop_short extra (encode_all rs) torn off e' h)
    ∙ prepend_all-ok rs
