-- ===== src/Storage/Page.antt =====
-- src/storage/page.h: a page by the fields of its header and the bytes behind it. A `page_id_t` is
-- the bit pattern of its `int32_t`, so the negative ones are those from 2 ^ 31 on.
use key_v_db.Common.{ℕ, zero, suc, ◌^◌, ◌≡◌, refl, Bool, [], ◌∷◌, leb, length, arith}
use key_v_db.Common.Bytes.{Bytes}

-- INVALID_PAGE_ID, -1
abbrev pub invalid_page_id : ℕ
invalid_page_id = 0xffff_ffff

abbrev pub buffer_pool_size : ℕ
buffer_pool_size = 64

abbrev pub is_negative : ℕ → Bool
is_negative id = leb (2 ^ 31) id

pub data PageType : Type 0 where
  invalid db_header btree_internal btree_leaf wal_segment : PageType

pub record Page : Type 0 where
  pub page_id : ℕ
  pub page_type : PageType
  pub page_lsn : ℕ
  pub payload : Bytes

unfoldable pub zeros : ℕ → Bytes
zeros zero = []
zeros (suc n) = 0 ∷ zeros n

-- Page::clear. The type with number 0 is `invalid`.
unfoldable pub cleared : Page
cleared = record { page_id = 0; page_type = PageType.invalid; page_lsn = 0; payload = zeros 4072 }

pub length-zeros : (n : ℕ) → length (zeros n) ≡ n
unfolding zeros
length-zeros zero = refl
length-zeros (suc n) = omega (arith, length-zeros n)
