-- ===== src/Storage/Tests.antt =====
-- The free list and the buffer pool over a file of three empty pages.
use key_v_db.Common.{
  ◌==◌, if◌then◌else◌, ℕ, ◌≡◌, refl, true, false, Option, none, some, [], ◌∷◌, arith, nat_eq,
  Eq-cases, inl, inr, subst,
}
use key_v_db.Common.Assoc.{find, contains}
use key_v_db.Common.Result.{ok}
use key_v_db.Storage.Page.{Page, cleared, zeros, length-zeros}
use key_v_db.Storage.Disk.{Disk, read_page, update}
use key_v_db.Storage.FreeList.{
  FreeList, load, save, allocate, free, root_page_id, set_root_page_id, decode_page, decode_ids,
}
use key_v_db.Common.Bytes.{from_le}
use key_v_db.Storage.FreeList.Memory.{read_at}
use key_v_db.Storage.FreeList.Laws
use key_v_db.Storage.FreeList.Laws.{save-load, set_root_lem, allocate-free}
use key_v_db.Storage.Pool.{
  Pool, create, fetch_page, flush_all, pinned, dm, delete_page, unpin_page, write_through,
}
use key_v_db.Storage.Pool.Coherent.{view, IsHeld, IsValid, create-IsValid}
use key_v_db.Storage.Pool.Delete.{delete_page_lem}
use key_v_db.Storage.Pool.Unpin.{unpin_page_lem}
use key_v_db.Storage.Pool.Flush.{flush_all_lem}
use key_v_db.Storage.Pool.Fetch.{Fetched, fetch_page_lem}

abbrev disk : Disk
disk = record { num_pages = 3; page = λ n. record cleared { page_id = n } }

abbrev empty_list : FreeList
empty_list = record { dm = disk; free_pages = [] }

abbrev one_free : FreeList
one_free = record { dm = disk; free_pages = 2 ∷ [] }

empty_list-IsValid : Laws.IsValid empty_list
unfolding cleared
empty_list-IsValid = record {
  exists = omega arith;
  whole = length-zeros 4072;
  ids = tt;
  few = omega arith;
}

one_free-IsValid : Laws.IsValid one_free
unfolding cleared
one_free-IsValid = record {
  exists = omega arith;
  whole = length-zeros 4072;
  ids = (omega arith, tt);
  few = omega arith;
}

save-load_example :
    (fl' : FreeList) × (save one_free ≡ ok fl')
    × (load fl'.dm ≡ ok fl')
    × (fl'.free_pages ≡ 2 ∷ [])
    × (root_page_id fl' ≡ root_page_id one_free)
save-load_example = save-load one_free one_free-IsValid

empty_list_stored : load disk ≡ ok empty_list
unfolding load read_page decode_page decode_ids cleared zeros from_le read_at
empty_list_stored = refl

set_root_lem_example :
    (fl' : FreeList) × (set_root_page_id 1 empty_list ≡ ok fl')
    × (root_page_id fl' ≡ ok 1)
    × (load fl'.dm ≡ ok fl')
    × (fl'.free_pages ≡ [])
set_root_lem_example = set_root_lem 1 empty_list empty_list-IsValid (omega arith) empty_list_stored

allocate-free_example :
    (fl' : FreeList) × (fl'' : FreeList) × (free 1 one_free ≡ ok fl')
    × (allocate fl' ≡ ok (1, fl''))
    × (load fl'.dm ≡ ok fl')
    × (load fl''.dm ≡ ok fl'')
    × (fl''.free_pages ≡ 2 ∷ [])
allocate-free_example = allocate-free 1 one_free one_free-IsValid (omega arith) (omega arith)

fetch_page_lem_example :
    (r : Option ℕ × Pool) × (fetch_page 1 (create empty_list) ≡ ok r)
    × IsValid r.1
    × ((j : ℕ) → view r.1 j ≡ view (create empty_list) j)
    × Fetched (create empty_list) 1 r
unfolding create view find
fetch_page_lem_example =
    fetch_page_lem (create empty_list) 1 (create-IsValid empty_list) (omega arith) (omega arith)
      refl

-- A pool with page 1, changed, in its frame 63.
abbrev holding : ℕ → FreeList → Pool
holding pins fl = record (create fl) {
  frames =
      update (create fl).frames 63
        (record (pinned (record cleared { page_id = 1 }) true) { pin_count = pins });
  free_frames = [];
  page_table = (1, 63) ∷ [];
  lru_list = 63 ∷ [];
}

holding-IsValid : (pins : ℕ) (fl : FreeList) → IsValid (holding pins fl)
unfolding create find contains
holding-IsValid pins fl = record {
  held = λ j i e. elim (Eq-cases 1 j) [
    | inl same ↦
        let found : some 63 ≡ some i = rw same.1 at e in
        let hit : 63 ≡ i = cc found in
        subst (λ n. IsHeld (holding pins fl) j n) hit
          (subst (λ n. IsHeld (holding pins fl) n 63) same.0 first_held)
    | inr other ↦ absurd (cc (rw other.1 at e))
  ];
  listed = λ i e. elim (Eq-cases 63 i) [
    | inl same ↦
        subst
          (λ n.
            find ((holding pins fl).frames n).page.page_id (holding pins fl).page_table ≡ some n)
          same.0 refl
    | inr other ↦ absurd (cc (rw other.1 at e))
  ];
  free = tt;
  idle = λ i e. cc;
}
  where
    first_held : IsHeld (holding pins fl) 1 63
    first_held = record {
      used = refl;
      named = refl;
      positive = omega arith;
      clean = λ h. cc;
      taken = refl;
    }

abbrev one_page : Pool
one_page = holding 1 empty_list

flush_all_lem_example :
    (q : Pool) × (flush_all one_page ≡ ok q)
    × IsValid q
    × ((j : ℕ) → (view q j ≡ view one_page j) × ((dm q).page j ≡ view one_page j))
unfolding find
flush_all_lem_example = flush_all_lem one_page (holding-IsValid 1 empty_list) (refl, tt)

abbrev unpinned : Pool
unpinned = holding 0 one_free

-- The free list after page 1 is freed.
abbrev freed_one : FreeList
freed_one = (allocate-free 1 one_free one_free-IsValid (omega arith) (omega arith)).0

freed_one_eq : free 1 one_free ≡ ok freed_one
freed_one_eq = (allocate-free 1 one_free one_free-IsValid (omega arith) (omega arith)).2

delete_page_lem_example :
    (q : Pool) × (delete_page 1 unpinned ≡ ok q)
    × (find 1 q.page_table ≡ none)
    × (q.free_list ≡ freed_one)
    × (contains 63 q.free_frames ≡ false)
    × (contains 63 q.lru_list ≡ false)
unfolding find create
delete_page_lem_example =
    delete_page_lem unpinned (holding-IsValid 0 one_free) 1 63 refl refl freed_one freed_one_eq

abbrev stamp : Page → Page
stamp page = record page { page_lsn = 9 }

unpin_page_lem_example :
    let q = unpin_page 1 true (write_through 63 stamp one_page) in
    IsValid q × ((j : ℕ) → view q j ≡ (if 1 == j then stamp (view one_page 1) else view one_page j))
unfolding find
unpin_page_lem_example = unpin_page_lem one_page (holding-IsValid 1 empty_list) 1 63 refl stamp refl
