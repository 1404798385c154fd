-- ===== src/Storage/FreeList.antt =====
-- src/storage/free_list.h and free_list.cpp: the free pages, kept in page 0 behind their count, and
-- the id of the tree's root in its last four bytes.
pub mod Memory
pub mod Laws
use key_v_db.Common.{
  ℕ, zero, suc, ◌+◌, ◌*◌, Bool, true, false, Option, none, some, List, [], ◌∷◌, ◌++◌, length, take,
  drop, ltb, leb, ◌==◌, nat_eq, if◌then◌else◌,
}
use key_v_db.Common.Bytes.{Bytes, le_bytes, from_le}
use key_v_db.Common.Result.{Result, ok, err, ◌>>=◌, ◌>>◌, runtime_error, failed_assertion}
use key_v_db.Storage.Page.{Page, PageType, invalid_page_id, cleared}
use key_v_db.Storage.Disk.{Disk, read_page, write_page, allocate_page}
use Memory.{read_at, write_at}

-- MAX_FREE_PAGES and ROOT_ID_OFFSET
abbrev pub max_free_pages : ℕ
max_free_pages = 1016

abbrev pub root_id_offset : ℕ
root_id_offset = 4068

-- The back of the vector is the end of the list.
pub record FreeList : Type 0 where
  pub dm : Disk
  pub free_pages : List ℕ

abbrev pub guard : Bool → Result (Unit {0})
guard true = ok tt
guard false = err failed_assertion

-- The image of the vector's ids in memory, and back.
unfoldable pub encode_ids : List ℕ → Bytes
encode_ids [] = []
encode_ids (id ∷ ids) = le_bytes 4 id ++ encode_ids ids

unfoldable pub decode_ids : ℕ → Bytes → List ℕ
decode_ids zero b = []
decode_ids (suc n) b = from_le (take 4 b) ∷ decode_ids n (drop 4 b)

-- The page that `load` writes to a new file.
unfoldable pub first_page : Page
unfolding cleared
first_page = record {
  page_id = 0;
  page_type = PageType.db_header;
  page_lsn = 0;
  payload =
      write_at root_id_offset (le_bytes 4 invalid_page_id)
        (write_at 0 (le_bytes 4 0) cleared.payload);
}

unfoldable pub decode_page : Disk → Page → Result FreeList
decode_page dm page =
    let count = from_le (read_at 4 0 page.payload) in
    if ltb max_free_pages count
    then err runtime_error
    else ok (record { dm = dm; free_pages = decode_ids count (read_at (count * 4) 4 page.payload) })

unfoldable pub load : Disk → Result FreeList
load dm =
    if dm.num_pages == 0
    then (do
      let (p0, dm1) = allocate_page dm
      guard (p0 == 0)
      dm2 ← write_page 0 first_page dm1
      ok (record { dm = dm2; free_pages = [] }))
    else (do page ← read_page 0 dm; decode_page dm page)

-- The new content of page 0: only the count and the entries are overwritten.
unfoldable pub with_ids : List ℕ → Page → Page
with_ids ids page = record page {
  payload = write_at 4 (encode_ids ids) (write_at 0 (le_bytes 4 (length ids)) page.payload);
}

unfoldable pub save : FreeList → Result FreeList
save fl = do
  guard (ltb 0 fl.dm.num_pages)
  page ← read_page 0 fl.dm
  guard (leb (length fl.free_pages) max_free_pages)
  dm ← write_page 0 (with_ids fl.free_pages page) fl.dm
  ok (record fl { dm = dm })

-- back() and pop_back()
unfoldable pub split_back : List ℕ → Option (ℕ × List ℕ)
split_back [] = none
split_back (x ∷ xs) = elim (split_back xs) [
  | none ↦ some (x, [])
  | some (last, rest) ↦ some (last, x ∷ rest)
]

abbrev allocate_from : FreeList → Option (ℕ × List ℕ) → Result (ℕ × FreeList)
allocate_from fl none = ok (invalid_page_id, fl)
allocate_from fl (some (id, rest)) = do fl' ← save (record fl { free_pages = rest }); ok (id, fl')

unfoldable pub allocate : FreeList → Result (ℕ × FreeList)
unfolding split_back
allocate fl = allocate_from fl (split_back fl.free_pages)

unfoldable pub free : ℕ → FreeList → Result FreeList
free id fl = do
  guard (ltb (length fl.free_pages) max_free_pages)
  save (record fl { free_pages = fl.free_pages ++ id ∷ [] })

unfoldable pub root_page_id : FreeList → Result ℕ
root_page_id fl = do
  guard (ltb 0 fl.dm.num_pages)
  page ← read_page 0 fl.dm
  ok (from_le (read_at 4 root_id_offset page.payload))

unfoldable pub with_root : ℕ → Page → Page
with_root id page = record page { payload = write_at root_id_offset (le_bytes 4 id) page.payload }

unfoldable pub set_root_page_id : ℕ → FreeList → Result FreeList
set_root_page_id id fl = do
  guard (ltb 0 fl.dm.num_pages)
  page ← read_page 0 fl.dm
  dm ← write_page 0 (with_root id page) fl.dm
  ok (record fl { dm = dm })
