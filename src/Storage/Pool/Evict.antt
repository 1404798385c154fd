-- ===== src/Storage/Pool/Evict.antt =====
-- Evicting a page from its frame: `evict_frame` and the search for a frame.
use key_v_db.Common.{
  ℕ, ◌<◌, ◌^◌, ◌≡◌, ◌≢◌, refl, sym, ap, subst, ◌∙◌, inl, inr, Bool, true, false, none, some, ◌==◌,
  nat_eq, if◌then◌else◌, arith, Bool-cases, Option-cases, Eq-cases, beq_ne,
}
use key_v_db.Common.Assoc.{find, remove, erase, contains, find-remove, contains-erase}
use key_v_db.Common.Result.{ok}
use key_v_db.Storage.Page.{Page}
use key_v_db.Storage.Disk.{Disk, update, write_page}
use key_v_db.Storage.Pool.{Pool, Frame, dm, unused, flush_frame, evict_frame}
use key_v_db.Storage.Pool.Coherent.{view, IsHeld, IsValid}

-- The file after a page is flushed if it is dirty.
abbrev pub flushed : Bool → ℕ → Page → Disk → Disk
flushed true page_id page d = record d { page = update d.page page_id page }
flushed false page_id page d = d

abbrev pub written : ℕ → Frame → Disk → Disk
written page_id f d = flushed f.is_dirty page_id f.page d

pub flush_frame-eq :
    (page_id : ℕ) (f : Frame) (d : Disk)
    → page_id < 2 ^ 31
    → flush_frame page_id f d ≡ ok (written page_id f d)
unfolding flush_frame write_page
flush_frame-eq page_id f d small = if-flushed f.is_dirty
  where
    if-flushed :
        (b : Bool)
        → (if b then write_page page_id f.page d else ok d) ≡ ok (flushed b page_id f.page d)
    if-flushed true = ground (arith, small)
    if-flushed false = refl

flushed-page :
    (b : Bool) (page_id : ℕ) (page : Page) (d : Disk)
    → (b ≡ false → page ≡ d.page page_id)
    → (j : ℕ) → (flushed b page_id page d).page j ≡ (if page_id == j then page else d.page j)
flushed-page true page_id page d clean j = refl
flushed-page false page_id page d clean j = elim (Eq-cases page_id j) [
  | inl same ↦ rw same.1 (ap d.page (sym same.0) ∙ sym (clean refl))
  | inr other ↦ rw other.1 refl
]

pub flushed-num_pages :
    (b : Bool) (page_id : ℕ) (page : Page) (d : Disk)
    → (flushed b page_id page d).num_pages ≡ d.num_pages
flushed-num_pages true page_id page d = refl
flushed-num_pages false page_id page d = refl

-- The file holds the frame's page, the other pages are as they were.
pub written-page :
    (page_id : ℕ) (f : Frame) (d : Disk)
    → (f.is_dirty ≡ false → f.page ≡ d.page page_id)
    → (j : ℕ) → (written page_id f d).page j ≡ (if page_id == j then f.page else d.page j)
written-page page_id f d clean j = flushed-page f.is_dirty page_id f.page d clean j

pub update-other {ℓ} :
    {A : Type ℓ} (f : ℕ → A) (i j : ℕ) (a : A) → (i == j) ≡ false → update f i a j ≡ f j
update-other f i j a e = ap (λ b. if b then a else f j) e

-- A page stays in its frame if neither the frame nor the page's place in the file changes.
pub IsHeld-as :
    (p q : Pool) (page_id id : ℕ)
    → q.frames id ≡ p.frames id
    → (dm q).page page_id ≡ (dm p).page page_id
    → contains id q.free_frames ≡ false
    → IsHeld p page_id id
    → IsHeld q page_id id
IsHeld-as p q page_id id frame page taken h = record {
  used = rw frame h.used;
  named = rw frame h.named;
  positive = h.positive;
  clean = rw (frame, page) h.clean;
  taken = taken;
}

module _ (p : Pool) (v : IsValid p) (page_id id : ℕ) (h : find page_id p.page_table ≡ some id)
    (idle : (p.frames id).pin_count ≡ 0) where
  -- The pool without the frame's page.
  abbrev pub evicted : Pool
  evicted = record p {
    frames = update p.frames id unused;
    free_list = record p.free_list { dm = written page_id (p.frames id) (dm p) };
    page_table = remove page_id p.page_table;
    lru_list = erase id p.lru_list;
  }

  pub evict_frame-eq : evict_frame id p ≡ ok evicted
  unfolding evict_frame
  evict_frame-eq =
      let held = v.held page_id id h in
      rw
        (flush_frame-eq (p.frames id).page.page_id (p.frames id) (dm p)
          (subst (λ n. n < 2 ^ 31) (sym held.named) held.positive))
        (rw (held.used, idle, held.named) refl)

  -- Two pages never share a frame.
  pub apart : (j i : ℕ) → page_id ≢ j → find j p.page_table ≡ some i → id ≢ i
  apart j i ne e same = ne (
      sym (v.held page_id id h).named
      ∙ ap (λ n. (p.frames n).page.page_id) same
      ∙ (v.held j i e).named)

  pub evicted-apart :
      (j i : ℕ)
      → find j evicted.page_table ≡ some i
      → (find j p.page_table ≡ some i)
        × (page_id ≢ j)
        × ((page_id == j) ≡ false)
        × ((id == i) ≡ false)
  evicted-apart j i e = elim (Eq-cases page_id j) [
    | inl same ↦ absurd (cc (find-remove page_id j p.page_table, same.1, e))
    | inr other ↦
        let e' : find j p.page_table ≡ some i =
          sym (find-remove page_id j p.page_table ∙ rw other.1 refl) ∙ e in
        (e', other.0, other.1, beq_ne id i (apart j i other.0 e'))
  ]

  evicted-frame : (i : ℕ) → (id == i) ≡ false → evicted.frames i ≡ p.frames i
  evicted-frame i e = update-other p.frames id i unused e

  pub evicted-page :
      (j : ℕ) → (dm evicted).page j ≡ (if page_id == j then (p.frames id).page else (dm p).page j)
  evicted-page j = written-page page_id (p.frames id) (dm p) (v.held page_id id h).clean j

  -- No page's contents are lost by an eviction.
  pub evicted-view : (j : ℕ) → view evicted j ≡ view p j
  unfolding view
  evicted-view j = elim (Option-cases (find j evicted.page_table)) [
    | inr (i, e) ↦
        let (e', ne, b, b') = evicted-apart j i e in
        rw (e, e') (ap (λ f. f.page) (evicted-frame i b'))
    | inl gone ↦ elim (Eq-cases page_id j) [
      | inl same ↦
          let there : find j p.page_table ≡ some id =
            subst (λ n. find n p.page_table ≡ some id) same.0 h in
          rw (gone, there) (evicted-page j ∙ rw same.1 refl)
      | inr other ↦
          let absent : find j p.page_table ≡ none =
            sym (find-remove page_id j p.page_table ∙ rw other.1 refl) ∙ gone in
          rw (gone, absent) (evicted-page j ∙ rw other.1 refl)
    ]
  ]

  evicted-listed :
      (i : ℕ)
      → contains i evicted.lru_list ≡ true
      → find (evicted.frames i).page.page_id evicted.page_table ≡ some i
  evicted-listed i e = elim (Eq-cases id i) [
    | inl same ↦ absurd (cc (contains-erase id i p.lru_list, same.1, e))
    | inr other ↦
        let there = v.listed i (sym (contains-erase id i p.lru_list ∙ rw other.1 refl) ∙ e) in
        ap (λ f. find f.page.page_id evicted.page_table) (evicted-frame i other.1)
        ∙ (find-remove page_id (p.frames i).page.page_id p.page_table
            ∙ elim (Eq-cases page_id (p.frames i).page.page_id) [
              | inl clash ↦ absurd (other.0 (cc (clash.0, there, h)))
              | inr fine ↦ rw fine.1 there
            ])
  ]

  pub evicted-IsValid : IsValid evicted
  evicted-IsValid = record {
    held = λ j i e.
        let (e', ne, b, b') = evicted-apart j i e in
        IsHeld-as p evicted j i (evicted-frame i b') (evicted-page j ∙ rw b refl)
          (v.held j i e').taken (v.held j i e');
    listed = evicted-listed;
    free = v.free;
    idle = λ i e. rw (contains-erase id i p.lru_list) (elim (Bool-cases (id == i)) [
      | inl same ↦ rw same refl
      | inr other ↦ rw other (v.idle i e)
    ]);
  }
