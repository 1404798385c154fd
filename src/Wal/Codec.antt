-- ===== src/Wal/Codec.antt =====
-- A header read back from its image.
use key_v_db.Common.{
  ℕ, ◌≡◌, refl, ◌++◌, length, take, drop, drop-append, take-append, take_of_length-le, ◌≤◌,
}
use key_v_db.Common.Bytes.{Bytes, le_bytes, from_le, from_le-le_bytes}
use key_v_db.Wal.{WalRecordHeader, WalRecord, header_bytes, header_of, InRange, header_size}

-- pread(fd, buf, len, offset): what of the file lies in the range.
unfoldable pub pread : Bytes → ℕ → ℕ → Bytes
pread file len offset = take len (drop offset file)

unfoldable pub read_header : Bytes → WalRecordHeader
unfolding pread from_le
read_header b = record {
  lsn = from_le (pread b 8 0);
  txn_id = from_le (pread b 8 8);
  type = from_le (pread b 4 16);
  key_len = from_le (pread b 4 20);
  before_len = from_le (pread b 4 24);
  after_len = from_le (pread b 4 28);
}

pub length-header_bytes : (h : WalRecordHeader) → length (header_bytes h) ≡ header_size
unfolding header_bytes le_bytes
length-header_bytes h = refl

read_header-fields :
    (h : WalRecordHeader)
    → read_header (header_bytes h) ≡ record {
      lsn = from_le (le_bytes 8 h.lsn);
      txn_id = from_le (le_bytes 8 h.txn_id);
      type = from_le (le_bytes 4 h.type);
      key_len = from_le (le_bytes 4 h.key_len);
      before_len = from_le (le_bytes 4 h.before_len);
      after_len = from_le (le_bytes 4 h.after_len);
    }
unfolding read_header header_bytes le_bytes
read_header-fields h = refl

pub read_header-header_of :
    (r : WalRecord) → InRange r → read_header (header_bytes (header_of r)) ≡ header_of r
read_header-header_of r v =
    rw
      (
        read_header-fields (header_of r),
        from_le-le_bytes 8 r.lsn v.lsn,
        from_le-le_bytes 8 r.txn_id v.txn_id,
        from_le-le_bytes 4 r.type v.type,
        from_le-le_bytes 4 (length r.key) v.key,
        from_le-le_bytes 4 (length r.before_val) v.before_val,
        from_le-le_bytes 4 (length r.after_val) v.after_val,
      )
      refl

pub pread_mid :
    (pre mid post : Bytes) (off n : ℕ)
    → off ≡ length pre
    → n ≡ length mid
    → pread (pre ++ (mid ++ post)) n off ≡ mid
unfolding pread
pread_mid pre mid post off n p q = rw (p, q, drop-append pre (mid ++ post)) (take-append mid post)

-- A read that starts in the last piece and reaches past its end returns what is there.
pub pread_end :
    (pre mid : Bytes) (off n : ℕ)
    → off ≡ length pre
    → length mid ≤ n
    → pread (pre ++ mid) n off ≡ mid
unfolding pread
pread_end pre mid off n p q = rw (p, drop-append pre mid) (take_of_length-le n mid q)
