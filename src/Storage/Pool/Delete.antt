-- ===== src/Storage/Pool/Delete.antt =====
-- `delete_page`, and what becomes of the page's frame.
use key_v_db.Common.{ℕ, ◌≡◌, refl, ◌∙◌, false, none, some, nat_eq, beq_refl}
use key_v_db.Common.Assoc.{find, remove, erase, contains, find-remove, contains-erase}
use key_v_db.Common.Result.{ok}
use key_v_db.Storage.Disk.{update}
use key_v_db.Storage.FreeList.{FreeList}
use key_v_db.Storage.FreeList
use key_v_db.Storage.Pool.{Pool, unused, flush_frame, evict_frame, drop_found, delete_page}
use key_v_db.Storage.Pool.Coherent.{IsValid}

module _ (p : Pool) (v : IsValid p) (page_id id : ℕ) (h : find page_id p.page_table ≡ some id)
    (idle : (p.frames id).pin_count ≡ 0) where
  -- The pool without the page, whose frame is not written.
  abbrev dropped : Pool
  dropped = record p {
    frames = update (update p.frames id (record (p.frames id) { is_dirty = false })) id unused;
    page_table = remove page_id p.page_table;
    lru_list = erase id p.lru_list;
  }

  drop_found-eq : drop_found p (some id) ≡ ok dropped
  unfolding evict_frame flush_frame
  drop_found-eq =
      let held = v.held page_id id h in rw (idle, beq_refl id, held.used, held.named) refl

  -- A page that is in the pool and not pinned is deleted: it leaves the table, and its id goes to
  -- the free list, if it can be freed. Its frame is afterwards neither on the list of free frames
  -- nor on the LRU list.
  pub delete_page_lem :
      (fl : FreeList)
      → FreeList.free page_id p.free_list ≡ ok fl
      → (q : Pool) × (delete_page page_id p ≡ ok q)
        × (find page_id q.page_table ≡ none)
        × (q.free_list ≡ fl)
        × (contains id q.free_frames ≡ false)
        × (contains id q.lru_list ≡ false)
  unfolding delete_page
  delete_page_lem fl freed = (
    record dropped { free_list = fl },
    rw (h, drop_found-eq, freed) refl,
    find-remove page_id page_id p.page_table ∙ rw (beq_refl page_id) refl,
    refl,
    (v.held page_id id h).taken,
    contains-erase id id p.lru_list ∙ rw (beq_refl id) refl,
  )
