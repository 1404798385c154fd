-- ===== src/Storage/Disk.antt =====
-- src/storage/disk_manager.h and disk_manager.cpp. The system calls succeed; `page n` is the file
-- from byte n * 4096 on, all zero where nothing has been written.
use key_v_db.Common.{ℕ, ◌+◌, ◌/◌, if◌then◌else◌, leb, ◌==◌, nat_eq, ◌||◌}
use key_v_db.Common.Result.{Result, ok, err, out_of_range, invalid_argument}
use key_v_db.Storage.Page.{Page, cleared, is_negative}

pub record Disk : Type 0 where
  pub num_pages : ℕ
  pub page : ℕ → Page

-- A family of values with the one at an index replaced.
abbrev pub update {ℓ} : {A : Type ℓ} → (ℕ → A) → ℕ → A → ℕ → A
update f i a j = if i == j then a else f j

-- The constructor: the number of whole pages in a file of this size.
unfoldable pub open_disk : ℕ → (ℕ → Page) → Disk
open_disk file_size page = record { num_pages = file_size / 4096; page = page }

unfoldable pub read_page : ℕ → Disk → Result Page
read_page page_id dm =
    if is_negative page_id || leb dm.num_pages page_id
    then err out_of_range
    else ok (dm.page page_id)

unfoldable pub write_page : ℕ → Page → Disk → Result Disk
write_page page_id p dm =
    if is_negative page_id
    then err invalid_argument
    else ok (record dm { page = update dm.page page_id p })

-- The new page's id, and the file with a zeroed page at its end.
unfoldable pub allocate_page : Disk → ℕ × Disk
allocate_page dm = (
  dm.num_pages,
  record { num_pages = dm.num_pages + 1; page = update dm.page dm.num_pages cleared },
)
