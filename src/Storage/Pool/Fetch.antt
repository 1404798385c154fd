-- ===== src/Storage/Pool/Fetch.antt =====
-- The search for a frame, and `fetch_page` over it.
use key_v_db.Common.{
  ℕ, ◌<◌, ◌^◌, ◌+◌, ◌≡◌, refl, sym, ap, subst, ◌∙◌, ◌⊎◌, inl, inr, true, false, Option, none, some,
  List, [], ◌∷◌, ◌==◌, nat_eq, ◌||◌, if◌then◌else◌, arith, Option-cases, Eq-cases, beq_refl, All,
}
use key_v_db.Common.Assoc.{find, erase, contains, Distinct, contains-erase}
use key_v_db.Common.Result.{ok}
use key_v_db.Storage.Page.{Page}
use key_v_db.Storage.Disk.{update, read_page}
use key_v_db.Storage.Pool.{
  Pool, Frame, dm, pinned, install, touch, victim, take_free, evict_victim, find_free_frame,
  fetch_page, fetch_into,
}
use key_v_db.Storage.Pool.Coherent.{view, view-absent, view-present, IsValid}
use key_v_db.Storage.Pool.Install.{IsSpare, after-find, after-frame, install-view, install-IsValid}
use key_v_db.Storage.Pool.Evict.{
  evicted, evict_frame-eq, evicted-view, evicted-IsValid, IsHeld-as, evicted-apart,
  flushed-num_pages,
}

victim_lem :
    (frames : ℕ → Frame) (ids : List ℕ) (id : ℕ)
    → victim frames ids ≡ some id
    → (contains id ids ≡ true) × ((frames id).pin_count ≡ 0)
unfolding victim contains
victim_lem frames [] id e = cc
victim_lem frames (i ∷ ids) id e = elim (Option-cases (victim frames ids)) [
  | inr (u, h) ↦
      let (there, idle) = victim_lem frames ids u h in
      let hit : some u ≡ some id = rw h at e in
      let same : u ≡ id = cc hit in
      subst (λ n. ((i == n) || contains n ids ≡ true) × ((frames n).pin_count ≡ 0)) same
        (ground (arith, there), idle)
  | inl h ↦
      let hit : (if (frames i).pin_count == 0 then some i else none) ≡ some id = rw h at e in
      elim (Eq-cases (frames i).pin_count 0) [
        | inl zero' ↦
            let same : i ≡ id = cc (rw zero'.1 at hit) in
            (ground (arith, same), ap (λ n. (frames n).pin_count) (sym same) ∙ zero'.0)
        | inr more ↦ absurd (cc (rw more.1 at hit))
      ]
]

victim-none :
    (frames : ℕ → Frame) (ids : List ℕ)
    → victim frames ids ≡ none
    → All (λ id. 0 < (frames id).pin_count) ids
unfolding victim
victim-none frames [] e = tt
victim-none frames (i ∷ ids) e = elim (Option-cases (victim frames ids)) [
  | inr (u, h) ↦ absurd (cc (rw h at e))
  | inl h ↦
      let hit : (if (frames i).pin_count == 0 then some i else none) ≡ none = rw h at e in
      elim (Eq-cases (frames i).pin_count 0) [
        | inl zero' ↦ absurd (cc (rw zero'.1 at hit))
        | inr more ↦ (omega (arith, more.0), victim-none frames ids h)
      ]
]

-- No frame is free, and every frame that could be evicted is pinned.
abbrev pub IsFull : Pool → Type 0
IsFull p = (p.free_frames ≡ []) × All (λ id. 0 < (p.frames id).pin_count) p.lru_list

-- What is found: a spare frame of a pool that shows the same pages, or none.
abbrev pub Found : Pool → Option ℕ × Pool → Type 0
Found p r =
    IsValid r.1
    × ((j : ℕ) → view r.1 j ≡ view p j)
    × ((j i : ℕ) → find j r.1.page_table ≡ some i → find j p.page_table ≡ some i)
    × ((dm r.1).num_pages ≡ (dm p).num_pages)
    × (((r.0 ≡ none) × IsFull p) ⊎ ((id : ℕ) × (r.0 ≡ some id) × IsSpare r.1 id))

evict-Found :
    (p : Pool)
    → IsValid p
    → p.free_frames ≡ []
    → (o : Option ℕ) → victim p.frames p.lru_list ≡ o
    → (r : Option ℕ × Pool) × (evict_victim p o ≡ ok r) × Found p r
evict-Found p v none_free none e = (
  (none, p),
  refl,
  (v, λ j. refl, λ j i h. h, refl, inl (refl, (none_free, victim-none p.frames p.lru_list e))),
)
evict-Found p v none_free (some id) e =
    let (listed, idle) = victim_lem p.frames p.lru_list id e in
    let page_id = (p.frames id).page.page_id in
    let h = v.listed id listed in
    let q = evicted p v page_id id h idle in
    (
      (some id, q),
      rw (evict_frame-eq p v page_id id h idle) refl,
      (
        evicted-IsValid p v page_id id h idle,
        evicted-view p v page_id id h idle,
        λ j i e'. (evicted-apart p v page_id id h idle j i e').0,
        flushed-num_pages (p.frames id).is_dirty page_id (p.frames id).page (dm p),
        inr (
          id,
          refl,
          record {
            outside = λ j e'. cc (beq_refl id, (evicted-apart p v page_id id h idle j id e').3);
            unfree = rw none_free (unfold contains in refl);
            unlisted = contains-erase id id p.lru_list ∙ rw (beq_refl id) refl;
          },
        ),
      ),
    )

in_front : (i : ℕ) (l : List ℕ) → contains i (i ∷ l) ≡ true
unfolding contains
in_front i l = rw (beq_refl i) refl

in_longer : (i j : ℕ) (l : List ℕ) → contains i l ≡ true → contains i (j ∷ l) ≡ true
unfolding contains
in_longer i j l h = ground (arith, h)

in_rest : (i j : ℕ) (l : List ℕ) → contains i (j ∷ l) ≡ false → contains i l ≡ false
unfolding contains
in_rest i j l h = ground (arith, h)

take_free-Found :
    (p : Pool)
    → IsValid p
    → (fs : List ℕ) → p.free_frames ≡ fs
    → (r : Option ℕ × Pool) × (take_free p fs ≡ ok r) × Found p r
take_free-Found p v [] e = evict-Found p v e (victim p.frames p.lru_list) refl
take_free-Found p v (id ∷ fs) e =
    let q = record p { free_frames = fs } in
    let distinct = subst Distinct e v.free in
    (
      (some id, q),
      refl,
      (
        record {
          held = λ j i h.
              IsHeld-as p q j i refl refl
                (in_rest i id fs (subst (λ l. contains i l ≡ false) e (v.held j i h).taken))
                (v.held j i h);
          listed = v.listed;
          free = distinct.1;
          idle = λ i h. v.idle i (subst (λ l. contains i l ≡ true) (sym e) (in_longer i id fs h));
        },
        λ j. unfold view in refl,
        λ j i h. h,
        refl,
        inr (
          id,
          refl,
          record {
            outside = λ j h.
                cc (subst (λ l. contains id l ≡ false) e (v.held j id h).taken, in_front id fs);
            unfree = distinct.0;
            unlisted = v.idle id (subst (λ l. contains id l ≡ true) (sym e) (in_front id fs));
          },
        ),
      ),
    )

find_free_frame_lem :
    (p : Pool) → IsValid p → (r : Option ℕ × Pool) × (find_free_frame p ≡ ok r) × Found p r
unfolding find_free_frame
find_free_frame_lem p v = take_free-Found p v p.free_frames refl

-- A page that is in the pool already is pinned once more.
module _ (p : Pool) (v : IsValid p) (page_id id : ℕ) (h : find page_id p.page_table ≡ some id) where
  abbrev again : Pool
  again = touch id (record p {
    frames = update p.frames id (record (p.frames id) { pin_count = (p.frames id).pin_count + 1 });
  })

  -- Only the pin counts differ.
  again-frame :
      (i : ℕ)
      → ((again.frames i).page ≡ (p.frames i).page)
        × ((again.frames i).is_dirty ≡ (p.frames i).is_dirty)
        × ((again.frames i).in_use ≡ (p.frames i).in_use)
  unfolding touch
  again-frame i = elim (Eq-cases id i) [
    | inl same ↦ rw same.1 (
      ap (λ n. (p.frames n).page) same.0,
      ap (λ n. (p.frames n).is_dirty) same.0,
      ap (λ n. (p.frames n).in_use) same.0,
    )
    | inr other ↦ rw other.1 (refl, refl, refl)
  ]

  again-pinned : 0 < (again.frames id).pin_count
  unfolding touch
  again-pinned = rw (beq_refl id) (omega arith)

  again-view : (j : ℕ) → view again j ≡ view p j
  unfolding view touch
  again-view j = elim (Option-cases (find j p.page_table)) [
    | inl n ↦ rw n refl
    | inr (i, e) ↦ rw e (again-frame i).0
  ]

  again-listed :
      (i : ℕ)
      → contains i again.lru_list ≡ true
      → find (again.frames i).page.page_id p.page_table ≡ some i
  unfolding touch contains
  again-listed i l =
      ap (λ (x : Page). find x.page_id p.page_table) (again-frame i).0 ∙ elim (Eq-cases id i) [
        | inl same ↦
            subst (λ n. find (p.frames n).page.page_id p.page_table ≡ some n) same.0
              (ap (λ n. find n p.page_table) (v.held page_id id h).named ∙ h)
        | inr other ↦
            let later : contains i (erase id p.lru_list) ≡ true = rw other.1 at l in
            v.listed i (sym (contains-erase id i p.lru_list ∙ rw other.1 refl) ∙ later)
      ]

  again-idle : (i : ℕ) → contains i p.free_frames ≡ true → contains i again.lru_list ≡ false
  unfolding touch contains
  again-idle i l = elim (Eq-cases id i) [
    | inl same ↦ absurd (cc ((v.held page_id id h).taken, same.0, l))
    | inr other ↦ rw other.1 (contains-erase id i p.lru_list ∙ rw other.1 (v.idle i l))
  ]

  again-IsValid : IsValid again
  unfolding touch
  again-IsValid = record {
    held = λ j i e.
        let (page, dirty, use') = again-frame i in
        let old = v.held j i e in
        record {
          used = use' ∙ old.used;
          named = ap (λ (x : Page). x.page_id) page ∙ old.named;
          positive = old.positive;
          clean = λ c. page ∙ old.clean (sym dirty ∙ c);
          taken = old.taken;
        };
    listed = again-listed;
    free = v.free;
    idle = again-idle;
  }

-- What a fetch may return, the frame with its page or none.
abbrev pub Fetched : Pool → ℕ → Option ℕ × Pool → Type 0
Fetched p page_id r =
    ((r.0 ≡ none) × IsFull p)
    ⊎ ((id : ℕ) × (r.0 ≡ some id)
        × (find page_id r.1.page_table ≡ some id)
        × ((r.1.frames id).page ≡ view p page_id)
        × (0 < (r.1.frames id).pin_count))

module _ (p : Pool) (page_id : ℕ) (exists : page_id < (dm p).num_pages) (small : page_id < 2 ^ 31)
    (named : (view p page_id).page_id ≡ page_id) (absent : find page_id p.page_table ≡ none) where
  fetch_into_lem :
      (r : Option ℕ × Pool)
      → Found p r
      → (r' : Option ℕ × Pool) × (fetch_into page_id r ≡ ok r')
        × IsValid r'.1
        × ((j : ℕ) → view r'.1 j ≡ view p j)
        × Fetched p page_id r'
  unfolding read_page
  fetch_into_lem (none, q) (v, same, less, size, inl full) = ((none, q), refl, v, same, inl full)
  fetch_into_lem (none, q) (v, same, less, size, inr (id, e, spare)) = absurd (cc e)
  fetch_into_lem (some id, q) (v, same, less, size, inl full) = absurd (cc full.0)
  fetch_into_lem (some id, q) (v, same, less, size, inr (i, e, spare)) = (
    (some id, install page_id id f q),
    rw readable refl,
    install-IsValid q v id here page_id f still refl carries small (λ _. refl),
    λ j.
        install-view q v id here page_id f still refl carries small (λ _. refl) j
        ∙ elim (Eq-cases page_id j) [
          | inl hit ↦ rw hit.1 (content' ∙ ap (view p) hit.0)
          | inr other ↦ rw other.1 (same j)
        ],
    inr (
      id,
      refl,
      after-find q v id here page_id f still refl carries small (λ _. refl) page_id
          ∙ rw (beq_refl page_id) refl,
      ap (λ (x : Frame). x.page) filled ∙ content',
      rw filled (omega arith),
    ),
  )
    where
      f : Frame
      f = pinned ((dm q).page page_id) false

      here : IsSpare q id
      here = subst (IsSpare q) (cc e) spare

      still : find page_id q.page_table ≡ none
      still = elim (Option-cases (find page_id q.page_table)) [
        | inl n ↦ n
        | inr (k, there) ↦ absurd (cc (absent, less page_id k there))
      ]

      content' : (dm q).page page_id ≡ view p page_id
      content' = sym (view-absent q page_id still) ∙ same page_id

      carries : f.page.page_id ≡ page_id
      carries = ap (λ (x : Page). x.page_id) content' ∙ named

      filled : (install page_id id f q).frames id ≡ f
      filled = after-frame q v id here page_id f still refl carries small (λ _. refl)

      readable : read_page page_id (dm q) ≡ ok ((dm q).page page_id)
      readable = ground (arith, exists, small, size)

-- Fetching a page keeps the pool's invariant and changes no page's contents, whatever is evicted for
-- it. The frame that it returns has the page, pinned; there is none only if no frame is free and
-- every one that could be evicted is pinned. The page must be one of the file's, with a number that
-- is not negative, and carry that number.
pub fetch_page_lem :
    (p : Pool) (page_id : ℕ)
    → IsValid p
    → page_id < (dm p).num_pages
    → page_id < 2 ^ 31
    → (view p page_id).page_id ≡ page_id
    → (r : Option ℕ × Pool) × (fetch_page page_id p ≡ ok r)
      × IsValid r.1
      × ((j : ℕ) → view r.1 j ≡ view p j)
      × Fetched p page_id r
unfolding fetch_page
fetch_page_lem p page_id v exists small named = elim (Option-cases (find page_id p.page_table)) [
  | inr (id, e) ↦ (
    (some id, again p v page_id id e),
    rw e refl,
    again-IsValid p v page_id id e,
    again-view p v page_id id e,
    inr (
      id,
      refl,
      unfold touch in e,
      (again-frame p v page_id id e id).0 ∙ sym (view-present p page_id id e),
      again-pinned p v page_id id e,
    ),
  )
  | inl absent ↦
      let (r, e, found) = find_free_frame_lem p v in
      let (r', e', v', same, got) = fetch_into_lem p page_id exists small named absent r found in
      (r', rw (absent, e) e', v', same, got)
]
