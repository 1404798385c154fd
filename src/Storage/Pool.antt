-- ===== src/Storage/Pool.antt =====
-- src/storage/buffer_pool.h and buffer_pool.cpp: the page cache. A frame's index stands for a
-- pointer to its page. `lru_map_`, which only finds a frame's place in `lru_list_`, is left out.
pub mod Coherent
pub mod Delete
pub mod Evict
pub mod Fetch
pub mod Flush
pub mod Install
pub mod Unpin
use key_v_db.Common.{
  ℕ, zero, suc, ◌+◌, ◌-◌, Bool, true, false, not, Option, none, some, List, [], ◌∷◌, ltb, ◌==◌,
  nat_eq, ◌&&◌, if◌then◌else◌,
}
use key_v_db.Common.Assoc.{find, put, remove, erase}
use key_v_db.Common.Result.{Result, ok, err, ◌>>=◌, ◌>>◌, failed_assertion}
use key_v_db.Storage.Page.{Page, cleared, invalid_page_id, buffer_pool_size}
use key_v_db.Storage.Disk.{Disk, update, read_page, write_page, allocate_page}
use key_v_db.Storage.FreeList.{FreeList, guard}
use key_v_db.Storage.FreeList

pub record Frame : Type 0 where
  pub page : Page
  pub pin_count : ℕ
  pub is_dirty : Bool
  pub in_use : Bool

-- `free_frames` has its back first, `lru_list` the most recently used frame.
pub record Pool : Type 0 where
  pub frames : ℕ → Frame
  pub free_list : FreeList
  pub page_table : List (ℕ × ℕ)
  pub free_frames : List ℕ
  pub lru_list : List ℕ

abbrev pub dm : Pool → Disk
dm p = p.free_list.dm

abbrev pub with_dm : Disk → Pool → Pool
with_dm d p = record p { free_list = record p.free_list { dm = d } }

-- The frame ids that the constructor pushes, n - 1 last.
abbrev pub all_frames : ℕ → List ℕ
all_frames zero = []
all_frames (suc n) = n ∷ all_frames n

abbrev pub unused : Frame
unused = record { page = cleared; pin_count = 0; is_dirty = false; in_use = false }

unfoldable pub create : FreeList → Pool
create fl = record {
  frames = λ _. unused;
  free_list = fl;
  page_table = [];
  free_frames = all_frames buffer_pool_size;
  lru_list = [];
}

unfoldable pub touch : ℕ → Pool → Pool
touch id p = record p { lru_list = id ∷ erase id p.lru_list }

-- The flush of a dirty frame: the disk behind it.
unfoldable pub flush_frame : ℕ → Frame → Disk → Result Disk
flush_frame page_id f d = if f.is_dirty then write_page page_id f.page d else ok d

unfoldable pub evict_frame : ℕ → Pool → Result Pool
evict_frame id p = do
  guard (p.frames id).in_use
  guard ((p.frames id).pin_count == 0)
  d ← flush_frame (p.frames id).page.page_id (p.frames id) (dm p)
  ok (record p {
    frames = update p.frames id unused;
    free_list = record p.free_list { dm = d };
    page_table = remove (p.frames id).page.page_id p.page_table;
    lru_list = erase id p.lru_list;
  })

-- The scan from the back: the last frame of the list that is not pinned.
unfoldable pub victim : (ℕ → Frame) → List ℕ → Option ℕ
victim frames [] = none
victim frames (id ∷ ids) = elim (victim frames ids) [
  | some v ↦ some v
  | none ↦ if (frames id).pin_count == 0 then some id else none
]

abbrev pub evict_victim : Pool → Option ℕ → Result (Option ℕ × Pool)
evict_victim p none = ok (none, p)
evict_victim p (some v) = evict_frame v p >>= λ p'. ok (some v, p')

abbrev pub take_free : Pool → List ℕ → Result (Option ℕ × Pool)
take_free p (id ∷ ids) = ok (some id, record p { free_frames = ids })
take_free p [] = evict_victim p (victim p.frames p.lru_list)

-- `none` is INVALID_PAGE_ID: every frame is pinned.
unfoldable pub find_free_frame : Pool → Result (Option ℕ × Pool)
find_free_frame p = take_free p p.free_frames

-- Put a page into a frame and enter it into the table.
abbrev pub install : ℕ → ℕ → Frame → Pool → Pool
install page_id id f p =
    touch id (record p { frames = update p.frames id f; page_table = put page_id id p.page_table })

abbrev pub pinned : Page → Bool → Frame
pinned page dirty = record { page = page; pin_count = 1; is_dirty = dirty; in_use = true }

abbrev pub fetch_into : ℕ → Option ℕ × Pool → Result (Option ℕ × Pool)
fetch_into page_id (none, p) = ok (none, p)
fetch_into page_id (some id, p) = do
  page ← read_page page_id (dm p)
  ok (some id, install page_id id (pinned page false) p)

abbrev pub fetch_found : ℕ → Pool → Option ℕ → Result (Option ℕ × Pool)
fetch_found page_id p (some id) =
    let f = p.frames id in
    ok (
      some id,
      touch id
          (record p { frames = update p.frames id (record f { pin_count = f.pin_count + 1 }) }),
    )
fetch_found page_id p none = find_free_frame p >>= fetch_into page_id

-- The frame with the page, or `none` for the null pointer.
unfoldable pub fetch_page : ℕ → Pool → Result (Option ℕ × Pool)
fetch_page page_id p = fetch_found page_id p (find page_id p.page_table)

abbrev pub unpin_found : Bool → Pool → Option ℕ → Pool
unpin_found dirty p none = p
unpin_found dirty p (some id) =
    let f = p.frames id in
    record p {
      frames = update p.frames id (record f {
        pin_count = if ltb 0 f.pin_count then f.pin_count - 1 else f.pin_count;
        is_dirty = if dirty then true else f.is_dirty;
      });
    }

unfoldable pub unpin_page : ℕ → Bool → Pool → Pool
unpin_page page_id dirty p = unpin_found dirty p (find page_id p.page_table)

-- What a caller does through the pointer while it holds the pin.
unfoldable pub write_through : ℕ → (Page → Page) → Pool → Pool
write_through id change p = record p {
  frames = update p.frames id (record (p.frames id) { page = change (p.frames id).page });
}

abbrev pub flush_found : ℕ → Pool → Option ℕ → Result (Bool × Pool)
flush_found page_id p none = ok (false, p)
flush_found page_id p (some id) = do
  d ← flush_frame page_id (p.frames id) (dm p)
  ok (
    true,
    record (with_dm d p) {
      frames = update p.frames id (record (p.frames id) { is_dirty = false });
    },
  )

unfoldable pub flush_page : ℕ → Pool → Result (Bool × Pool)
flush_page page_id p = flush_found page_id p (find page_id p.page_table)

unfoldable pub flush_entries : List (ℕ × ℕ) → Pool → Result Pool
flush_entries [] p = ok p
flush_entries ((pid, fid) ∷ rest) p = flush_found pid p (some fid) >>= λ r. flush_entries rest r.1

unfoldable pub flush_all : Pool → Result Pool
flush_all p = flush_entries p.page_table p

-- The id of a page for `new_page`: a free one, or one more at the end of the file.
unfoldable pub fresh_page_id : Pool → Result (ℕ × Pool)
fresh_page_id p = do
  (id, fl) ← FreeList.allocate p.free_list
  let (new_id, d) = allocate_page fl.dm
  ok (
      if id == invalid_page_id
      then (new_id, record p { free_list = record fl { dm = d } })
      else (id, record p { free_list = fl }))

abbrev pub new_into : ℕ → Option ℕ × Pool → Result (ℕ × ℕ × Pool)
new_into page_id (none, p) = err failed_assertion
new_into page_id (some id, p) =
    ok (page_id, id, install page_id id (pinned (record cleared { page_id = page_id }) true) p)

-- The new page's id and its frame.
unfoldable pub new_page : Pool → Result (ℕ × ℕ × Pool)
new_page p = do (page_id, p1) ← fresh_page_id p; r ← find_free_frame p1; new_into page_id r

abbrev pub drop_found : Pool → Option ℕ → Result Pool
drop_found p none = ok p
drop_found p (some id) = do
  guard ((p.frames id).pin_count == 0)
  evict_frame id
      (record p { frames = update p.frames id (record (p.frames id) { is_dirty = false }) })

unfoldable pub delete_page : ℕ → Pool → Result Pool
delete_page page_id p = do
  p1 ← drop_found p (find page_id p.page_table)
  fl ← FreeList.free page_id p1.free_list
  ok (record p1 { free_list = fl })
