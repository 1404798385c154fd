-- ===== src/Storage/FreeList/Laws.antt =====
-- What page 0 keeps: the list that was saved, and the root that was set, side by side.
use key_v_db.Common.{
  ℕ, ◌+◌, ◌*◌, ◌≤◌, ◌<◌, ◌^◌, ◌≡◌, refl, sym, ap, ◌∙◌, false, some, List, [], ◌∷◌, ◌++◌, length,
  length-append, take, drop, All, All-append, arith, ltb, nat_eq, lt→ltb, le→nltb, nat_beq,
  Bool-cases, inl, inr,
}
use key_v_db.Common.Bytes.{Bytes, le_bytes, from_le, from_le-le_bytes, length-le_bytes}
use key_v_db.Common.Result.{Result, ok, err}
use key_v_db.Storage.Page.{Page}
use key_v_db.Storage.Disk.{Disk, update, read_page, write_page}
use key_v_db.Storage.FreeList.{
  FreeList, max_free_pages, root_id_offset, encode_ids, decode_ids, decode_page, load, with_ids,
  save, split_back, allocate, free, root_page_id, with_root, set_root_page_id,
}
use key_v_db.Storage.FreeList.Memory.{
  read_at, write_at, length-write_at, read_at-write_at, read_at_before, read_at_after,
}

abbrev pub IsPageId : ℕ → Type 0
IsPageId id = id < 2 ^ 32

-- Page 0 exists, and the list fits it.
pub record IsValid (fl : FreeList) : Type 0 where
  pub exists : 0 < fl.dm.num_pages
  pub whole : length (fl.dm.page 0).payload ≡ 4072
  pub ids : All IsPageId fl.free_pages
  pub few : length fl.free_pages ≤ max_free_pages

length-encode_ids : (ids : List ℕ) → length (encode_ids ids) ≡ length ids * 4
unfolding encode_ids
length-encode_ids [] = omega arith
length-encode_ids (id ∷ ids) = omega (
  arith,
  length-encode_ids ids,
  length-append (le_bytes 4 id) (encode_ids ids),
  length-le_bytes 4 id,
)

decode_ids-encode_ids :
    (ids : List ℕ) → All IsPageId ids → decode_ids (length ids) (encode_ids ids) ≡ ids
unfolding encode_ids decode_ids
decode_ids-encode_ids [] h = refl
decode_ids-encode_ids (id ∷ ids) h =
    rw (front, behind, from_le-le_bytes 4 id h.0, decode_ids-encode_ids ids h.1) refl
  where
    front : take 4 (le_bytes 4 id ++ encode_ids ids) ≡ le_bytes 4 id
    front = unfold le_bytes in refl

    behind : drop 4 (le_bytes 4 id ++ encode_ids ids) ≡ encode_ids ids
    behind = unfold le_bytes in refl

read_first : (dm : Disk) → 0 < dm.num_pages → read_page 0 dm ≡ ok (dm.page 0)
unfolding read_page
read_first dm h = ground arith

write_first :
    (p : Page) (dm : Disk) → write_page 0 p dm ≡ ok (record dm { page = update dm.page 0 p })
unfolding write_page
write_first p dm = refl

module _ (ids : List ℕ) (page : Page) (whole : length page.payload ≡ 4072)
    (small : All IsPageId ids) (few : length ids ≤ max_free_pages) where
  counted : Bytes
  counted = write_at 0 (le_bytes 4 (length ids)) page.payload

  counted-whole : length counted ≡ 4072
  unfolding counted
  counted-whole =
      length-write_at 0 (le_bytes 4 (length ids)) page.payload
        (omega (arith, whole, length-le_bytes 4 (length ids)))
      ∙ whole

  entries_fit : 4 + length (encode_ids ids) ≤ length counted
  entries_fit = omega (arith, counted-whole, length-encode_ids ids)

  with_ids-whole : length (with_ids ids page).payload ≡ 4072
  unfolding with_ids counted
  with_ids-whole = length-write_at 4 (encode_ids ids) counted entries_fit ∙ counted-whole

  count_back : from_le (read_at 4 0 (with_ids ids page).payload) ≡ length ids
  unfolding with_ids counted
  count_back =
      ap from_le (
        read_at_before 4 (encode_ids ids) counted entries_fit 4 0 (omega arith)
        ∙ read_at-write_at 0 (le_bytes 4 (length ids)) page.payload
            (omega (arith, whole, length-le_bytes 4 (length ids))) 4
            (sym (length-le_bytes 4 (length ids))))
      ∙ from_le-le_bytes 4 (length ids) (omega (arith, few))

  ids_back : read_at (length ids * 4) 4 (with_ids ids page).payload ≡ encode_ids ids
  unfolding with_ids counted
  ids_back =
      read_at-write_at 4 (encode_ids ids) counted entries_fit (length ids * 4)
        (sym (length-encode_ids ids))

  -- Writing the list leaves the root's four bytes alone.
  root_kept :
      read_at 4 root_id_offset (with_ids ids page).payload ≡ read_at 4 root_id_offset page.payload
  unfolding with_ids counted
  root_kept =
      read_at_after 4 (encode_ids ids) counted entries_fit 4 root_id_offset
        (omega (arith, length-encode_ids ids, few))
      ∙ read_at_after 0 (le_bytes 4 (length ids)) page.payload
          (omega (arith, whole, length-le_bytes 4 (length ids))) 4 root_id_offset
          (omega (arith, length-le_bytes 4 (length ids)))

  decoded :
      (dm : Disk) → decode_page dm (with_ids ids page) ≡ ok (record { dm = dm; free_pages = ids })
  unfolding decode_page
  decoded dm =
      rw
        (
          count_back,
          ids_back,
          le→nltb max_free_pages (length ids) few,
          decode_ids-encode_ids ids small,
        )
        refl

abbrev saved : FreeList → FreeList
saved fl = record fl {
  dm = record fl.dm { page = update fl.dm.page 0 (with_ids fl.free_pages (fl.dm.page 0)) };
}

save-eq : (fl : FreeList) → IsValid fl → save fl ≡ ok (saved fl)
unfolding save
save-eq fl v =
    rw (lt→ltb 0 fl.dm.num_pages v.exists, read_first fl.dm v.exists)
      (rw (write_first (with_ids fl.free_pages (fl.dm.page 0)) fl.dm) (ground (arith, v.few)))

load-eq : (dm : Disk) → 0 < dm.num_pages → load dm ≡ decode_page dm (dm.page 0)
unfolding load
load-eq dm h =
    let some_page : nat_beq dm.num_pages 0 ≡ false = ground arith in
    rw some_page (rw (read_first dm h) refl)

root-eq :
    (fl : FreeList)
    → 0 < fl.dm.num_pages
    → root_page_id fl ≡ ok (from_le (read_at 4 root_id_offset (fl.dm.page 0).payload))
unfolding root_page_id
root-eq fl h = rw (lt→ltb 0 fl.dm.num_pages h, read_first fl.dm h) refl

saved-load : (fl : FreeList) → IsValid fl → load (saved fl).dm ≡ ok (saved fl)
saved-load fl v =
    load-eq (saved fl).dm v.exists ∙ decoded fl.free_pages (fl.dm.page 0) v.whole v.ids v.few _

saved-IsValid : (fl : FreeList) → IsValid fl → IsValid (saved fl)
saved-IsValid fl v = record {
  exists = v.exists;
  whole = with_ids-whole fl.free_pages (fl.dm.page 0) v.whole v.ids v.few;
  ids = v.ids;
  few = v.few;
}

-- The list that was saved is the list that is loaded from the file, and saving it does not touch
-- the id of the tree's root.
pub save-load :
    (fl : FreeList)
    → IsValid fl
    → (fl' : FreeList) × (save fl ≡ ok fl')
      × (load fl'.dm ≡ ok fl')
      × (fl'.free_pages ≡ fl.free_pages)
      × (root_page_id fl' ≡ root_page_id fl)
save-load fl v = (
  saved fl,
  save-eq fl v,
  saved-load fl v,
  refl,
  root-eq (saved fl) v.exists
      ∙ ap (λ b. ok (from_le b)) (root_kept fl.free_pages (fl.dm.page 0) v.whole v.ids v.few)
      ∙ sym (root-eq fl v.exists),
)

module _ (id : ℕ) (page : Page) (whole : length page.payload ≡ 4072) where
  root_fits : root_id_offset + length (le_bytes 4 id) ≤ length page.payload
  root_fits = omega (arith, whole, length-le_bytes 4 id)

  root_back : id < 2 ^ 32 → from_le (read_at 4 root_id_offset (with_root id page).payload) ≡ id
  unfolding with_root
  root_back h =
      ap from_le (
        read_at-write_at root_id_offset (le_bytes 4 id) page.payload root_fits 4
          (sym (length-le_bytes 4 id)))
      ∙ from_le-le_bytes 4 id h

  list_kept :
      (n at : ℕ)
      → at + n ≤ root_id_offset
      → read_at n at (with_root id page).payload ≡ read_at n at page.payload
  unfolding with_root
  list_kept n at h = read_at_before root_id_offset (le_bytes 4 id) page.payload root_fits n at h

abbrev rooted : ℕ → FreeList → FreeList
rooted id fl = record fl {
  dm = record fl.dm { page = update fl.dm.page 0 (with_root id (fl.dm.page 0)) };
}

abbrev pages_of : Result FreeList → List ℕ
pages_of (ok fl) = fl.free_pages
pages_of (err e) = []

-- The pages that `load` decodes alike.
same_list :
    (dm dm' : Disk) (page page' : Page) (ids : List ℕ)
    → ((n at : ℕ)
        → at + n ≤ root_id_offset
        → read_at n at page'.payload ≡ read_at n at page.payload)
    → decode_page dm page ≡ ok (record { dm = dm; free_pages = ids })
    → decode_page dm' page' ≡ ok (record { dm = dm'; free_pages = ids })
unfolding decode_page
same_list dm dm' page page' ids same h =
    rw (same 4 0 (omega arith))
      (elim (Bool-cases (ltb max_free_pages (from_le (read_at 4 0 page.payload)))) [
        | inl corrupt ↦ let bad = rw corrupt at h in cc
        | inr good ↦
            rw (good, same (from_le (read_at 4 0 page.payload) * 4) 4 (ground arith))
              (ap (λ l. ok (record { dm = dm'; free_pages = l })) (ap pages_of (rw good at h)))
      ])

-- The root that was set is the root that is read, and a list that page 0 held is still there.
pub set_root_lem :
    (id : ℕ) (fl : FreeList)
    → IsValid fl
    → IsPageId id
    → load fl.dm ≡ ok fl
    → (fl' : FreeList) × (set_root_page_id id fl ≡ ok fl')
      × (root_page_id fl' ≡ ok id)
      × (load fl'.dm ≡ ok fl')
      × (fl'.free_pages ≡ fl.free_pages)
unfolding set_root_page_id
set_root_lem id fl v small stored = (
  rooted id fl,
  rw (lt→ltb 0 fl.dm.num_pages v.exists, read_first fl.dm v.exists)
      (rw (write_first (with_root id (fl.dm.page 0)) fl.dm) refl),
  root-eq (rooted id fl) v.exists ∙ ap ok (root_back id (fl.dm.page 0) v.whole small),
  load-eq (rooted id fl).dm v.exists
      ∙ same_list fl.dm _ (fl.dm.page 0) _ fl.free_pages (list_kept id (fl.dm.page 0) v.whole)
          (sym (load-eq fl.dm v.exists) ∙ stored),
  refl,
)

split_back-append : (xs : List ℕ) (x : ℕ) → split_back (xs ++ x ∷ []) ≡ some (x, xs)
unfolding split_back
split_back-append [] x = refl
split_back-append (y ∷ xs) x = rw (split_back-append xs x) refl

-- A page that is freed is the next one to be allocated, and then the list is as it was, in memory
-- and in the file.
pub allocate-free :
    (id : ℕ) (fl : FreeList)
    → IsValid fl
    → IsPageId id
    → length fl.free_pages < max_free_pages
    → (fl' : FreeList) × (fl'' : FreeList) × (free id fl ≡ ok fl')
      × (allocate fl' ≡ ok (id, fl''))
      × (load fl'.dm ≡ ok fl')
      × (load fl''.dm ≡ ok fl'')
      × (fl''.free_pages ≡ fl.free_pages)
allocate-free id fl v small room = (
  saved longer,
  saved shorter,
  freed,
  taken,
  saved-load longer longer-IsValid,
  saved-load shorter shorter-IsValid,
  refl,
)
  where
    longer : FreeList
    longer = record fl { free_pages = fl.free_pages ++ id ∷ [] }

    longer-IsValid : IsValid longer
    longer-IsValid = record {
      exists = v.exists;
      whole = v.whole;
      ids = All-append IsPageId fl.free_pages (id ∷ []) v.ids (small, tt);
      few = omega (arith, length-append fl.free_pages (id ∷ []), room);
    }

    shorter : FreeList
    shorter = record (saved longer) { free_pages = fl.free_pages }

    shorter-IsValid : IsValid shorter
    shorter-IsValid = record {
      exists = v.exists;
      whole = (saved-IsValid longer longer-IsValid).whole;
      ids = v.ids;
      few = v.few;
    }

    freed : free id fl ≡ ok (saved longer)
    freed =
        unfold free in
        rw (lt→ltb (length fl.free_pages) max_free_pages room) (save-eq longer longer-IsValid)

    taken : allocate (saved longer) ≡ ok (id, saved shorter)
    taken =
        unfold allocate in
        rw (split_back-append fl.free_pages id) (rw (save-eq shorter shorter-IsValid) refl)
