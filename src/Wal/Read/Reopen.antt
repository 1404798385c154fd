-- ===== src/Wal/Read/Reopen.antt =====
-- `scan_for_max_ids`: the ids that a reopened log hands out.
use key_v_db.Common.{
  ℕ, zero, suc, ◌+◌, ◌-◌, ◌≤◌, ◌<◌, ◌^◌, ◌≡◌, refl, List, [], ◌∷◌, ◌++◌, length, length-append,
  nat_eq, arith, append_assoc, All,
}
use key_v_db.Common.Bytes.{Bytes}
use key_v_db.Wal.{WalRecord, header_size, encode}
use key_v_db.Wal.Codec.{pread_end}
use key_v_db.Wal.Read.{next_header, scan_loop, signed_max, resume, open_log}
use key_v_db.Wal.Read.RoundTrip.{encode_all, IsStored, header_at, length-encode, count-le}

scan-encode :
    (fuel : ℕ) (pre post : Bytes) (r : WalRecord) (off l t : ℕ) (result : ℕ × ℕ)
    → off ≡ length pre
    → IsStored r
    → ((next : ℕ)
        → next ≡ length (pre ++ encode r)
        → scan_loop fuel
            ((pre ++ encode r) ++ post)
            next
            (signed_max l r.lsn)
            (signed_max t r.txn_id)
          ≡ result)
    → scan_loop (suc fuel) (pre ++ (encode r ++ post)) off l t ≡ result
unfolding scan_loop
scan-encode fuel pre post r off l t result start v behind =
    rw (header_at pre post r off start v, scan_loop)
      (rw (← append_assoc pre (encode r) post)
        (behind _ (omega (arith, start, length-append pre (encode r), length-encode r))))

scan_short :
    (fuel : ℕ) (pre tail : Bytes) (off l t : ℕ)
    → off ≡ length pre
    → length tail < header_size
    → scan_loop fuel (pre ++ tail) off l t ≡ (l, t)
unfolding scan_loop next_header
scan_short zero pre tail off l t e h = refl
scan_short (suc fuel) pre tail off l t e h =
    rw (pread_end pre tail off header_size e (omega arith), scan_loop, next_header) (ground arith)

-- The largest ids among the records, as the loop accumulates them.
abbrev max_ids : List WalRecord → ℕ → ℕ → ℕ × ℕ
max_ids [] l t = (l, t)
max_ids (r ∷ rs) l t = max_ids rs (signed_max l r.lsn) (signed_max t r.txn_id)

scan-encode_all :
    (rs : List WalRecord) (fuel extra : ℕ) (pre torn : Bytes) (off l t : ℕ)
    → off ≡ length pre
    → All IsStored rs
    → length torn < header_size
    → fuel ≡ length rs + extra
    → scan_loop fuel (pre ++ (encode_all rs ++ torn)) off l t ≡ max_ids rs l t
unfolding encode_all
scan-encode_all [] fuel extra pre torn off l t start v h enough =
    scan_short fuel pre torn off l t start h
scan-encode_all (r ∷ rs) fuel extra pre torn off l t start v h enough =
    let same : fuel ≡ suc (length rs + extra) = omega (arith, enough) in
    rw (same, append_assoc (encode r) (encode_all rs) torn)
      (scan-encode (length rs + extra) pre (encode_all rs ++ torn) r off l t _ start v.0 (λ next e.
        scan-encode_all rs (length rs + extra) extra (pre ++ encode r) torn next
          (signed_max l r.lsn) (signed_max t r.txn_id) e v.1 h refl))

-- Ids that are not negative as `int64_t`, nor the largest one, whose successor overflows.
abbrev pub IsPositive : ℕ → Type 0
IsPositive n = n + 1 < 2 ^ 63

abbrev pub HasIds : WalRecord → Type 0
HasIds r = IsPositive r.lsn × IsPositive r.txn_id

signed_max-eq :
    (a b : ℕ)
    → a + 1 < 2 ^ 63
    → b + 1 < 2 ^ 63
    → (a ≤ signed_max a b) × (b ≤ signed_max a b) × (signed_max a b + 1 < 2 ^ 63)
signed_max-eq a b ha hb = ground arith

abbrev Bounds : List WalRecord → ℕ → ℕ → ℕ × ℕ → Type 0
Bounds rs l t m =
    (l ≤ m.0)
    × (t ≤ m.1)
    × IsPositive m.0
    × IsPositive m.1
    × All (λ r. (r.lsn ≤ m.0) × (r.txn_id ≤ m.1)) rs

max_ids-Bounds :
    (rs : List WalRecord) (l t : ℕ)
    → IsPositive l
    → IsPositive t
    → All HasIds rs
    → Bounds rs l t (max_ids rs l t)
max_ids-Bounds [] l t hl ht h = (omega arith, omega arith, hl, ht, tt)
max_ids-Bounds (r ∷ rs) l t hl ht h =
    let a = signed_max-eq l r.lsn hl h.0.0 in
    let b = signed_max-eq t r.txn_id ht h.0.1 in
    let ih = max_ids-Bounds rs (signed_max l r.lsn) (signed_max t r.txn_id) a.2 b.2 h.1 in
    (
      omega (arith, ih.0, a.0),
      omega (arith, ih.1, b.0),
      ih.2,
      ih.3,
      ((omega (arith, ih.0, a.1), omega (arith, ih.1, b.1)), ih.4),
    )

All-map {ℓ} :
    {A : Type ℓ} {P Q : A → Type 0} (xs : List A) → ((a : A) → P a → Q a) → All P xs → All Q xs
All-map [] f h = tt
All-map (x ∷ xs) f h = (f x h.0, All-map xs f h.1)

resume-gt : (m n : ℕ) → n ≤ m → IsPositive m → n < resume m
resume-gt m n h p = ground arith

resume-lt : (m : ℕ) → IsPositive m → resume m < 2 ^ 63
resume-lt m p = ground arith

-- A reopened log hands out numbers and transactions above all that stand in the file, also when the
-- file ends in a torn header. The ids in the file are not negative as `int64_t` and below the largest
-- one, and the next ones are not negative either.
pub open_log-fresh :
    (rs : List WalRecord) (torn : Bytes)
    → All IsStored rs
    → All HasIds rs
    → length torn < header_size
    → let lm = open_log (encode_all rs ++ torn) in
      All (λ r. (r.lsn < lm.next_lsn) × (r.txn_id < lm.next_txn_id)) rs
      × (lm.next_lsn < 2 ^ 63)
      × (lm.next_txn_id < 2 ^ 63)
unfolding open_log
open_log-fresh rs torn v ids h =
    rw
      (scan-encode_all rs (suc (length (encode_all rs ++ torn)))
        (suc (length (encode_all rs ++ torn)) - length rs) [] torn 0 0 0 refl v h
        (omega (arith, count-le rs, length-append (encode_all rs) torn)))
      (let m = max_ids-Bounds rs 0 0 (omega arith) (omega arith) ids in
        (
          All-map rs (λ r p. (resume-gt _ r.lsn p.0 m.2, resume-gt _ r.txn_id p.1 m.3)) m.4,
          resume-lt _ m.2,
          resume-lt _ m.3,
        ))
