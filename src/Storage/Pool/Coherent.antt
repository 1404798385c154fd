-- ===== src/Storage/Pool/Coherent.antt =====
-- The contents that the pool shows of each page, and the invariant behind it.
use key_v_db.Common.{
  ℕ, zero, suc, arith, ◌<◌, ◌≤◌, ◌^◌, ◌≡◌, refl, true, false, Option, none, some, nat_eq,
}
use key_v_db.Common.Assoc.{find, contains, Distinct}
use key_v_db.Storage.Page.{Page, buffer_pool_size}
use key_v_db.Storage.FreeList.{FreeList}
use key_v_db.Storage.Disk.{Disk}
use key_v_db.Storage.Pool.{Pool, Frame, dm, create, all_frames}

-- The current content of a page: its frame if it has one, else the file.
abbrev pub content : (ℕ → Frame) → Disk → ℕ → Option ℕ → Page
content frames d page_id none = d.page page_id
content frames d page_id (some id) = (frames id).page

unfoldable pub view : Pool → ℕ → Page
view p page_id = content p.frames (dm p) page_id (find page_id p.page_table)

-- What holds of a page in the table and its frame.
pub record IsHeld (p : Pool) (page_id id : ℕ) : Type 0 where
  pub used : (p.frames id).in_use ≡ true
  pub named : (p.frames id).page.page_id ≡ page_id
  pub positive : page_id < 2 ^ 31
  pub clean : (p.frames id).is_dirty ≡ false → (p.frames id).page ≡ (dm p).page page_id
  pub taken : contains id p.free_frames ≡ false

pub record IsValid (p : Pool) : Type 0 where
  pub held : (page_id id : ℕ) → find page_id p.page_table ≡ some id → IsHeld p page_id id
  pub listed :
      (id : ℕ)
      → contains id p.lru_list ≡ true
      → find (p.frames id).page.page_id p.page_table ≡ some id
  pub free : Distinct p.free_frames
  pub idle : (id : ℕ) → contains id p.free_frames ≡ true → contains id p.lru_list ≡ false

pub view-absent :
    (p : Pool) (page_id : ℕ)
    → find page_id p.page_table ≡ none
    → view p page_id ≡ (dm p).page page_id
unfolding view
view-absent p page_id e = rw e refl

pub view-present :
    (p : Pool) (page_id id : ℕ)
    → find page_id p.page_table ≡ some id
    → view p page_id ≡ (p.frames id).page
unfolding view
view-present p page_id id e = rw e refl

contains-all_frames : (m n : ℕ) → n ≤ m → contains m (all_frames n) ≡ false
unfolding contains
contains-all_frames m zero le = refl
contains-all_frames m (suc n) le = ground (arith, contains-all_frames m n (omega (arith, le)), le)

all_frames-Distinct : (n : ℕ) → Distinct (all_frames n)
all_frames-Distinct zero = tt
all_frames-Distinct (suc n) = (contains-all_frames n n (omega arith), all_frames-Distinct n)

pub create-IsValid : (fl : FreeList) → IsValid (create fl)
unfolding create find contains
create-IsValid fl = record {
  held = λ page_id id e. cc;
  listed = λ id e. cc;
  free = all_frames-Distinct buffer_pool_size;
  idle = λ id e. refl;
}
