-- ===== src/Storage/Pool/Flush.antt =====
-- `flush_all`: the pages of the pool are written to the file.
use key_v_db.Common.{
  ℕ, ◌≡◌, refl, sym, ap, ◌∙◌, ◌⊎◌, inl, inr, Bool, true, false, some, List, [], ◌∷◌, ◌==◌, nat_eq,
  if◌then◌else◌, Option-cases, Eq-cases, beq_ne, All,
}
use key_v_db.Common.Assoc.{find}
use key_v_db.Common.Result.{Result, ok, ◌>>=◌}
use key_v_db.Storage.Page.{Page}
use key_v_db.Storage.Disk.{update}
use key_v_db.Storage.Pool.{Pool, Frame, dm, with_dm, flush_found, flush_entries, flush_all}
use key_v_db.Storage.Pool.Coherent.{view, view-absent, view-present, IsValid}
use key_v_db.Storage.Pool.Evict.{written, written-page, flush_frame-eq, update-other}

module _ (p : Pool) (v : IsValid p) (page_id id : ℕ) (h : find page_id p.page_table ≡ some id) where
  abbrev cleaned : Frame
  cleaned = record (p.frames id) { is_dirty = false }

  -- The pool after one frame is flushed.
  abbrev pub flushed_one : Pool
  flushed_one = record (with_dm (written page_id (p.frames id) (dm p)) p) {
    frames = update p.frames id cleaned;
  }

  flush_found-eq : flush_found page_id p (some id) ≡ ok (true, flushed_one)
  flush_found-eq =
      rw (flush_frame-eq page_id (p.frames id) (dm p) (v.held page_id id h).positive) refl

  one-frame :
      (i : ℕ)
      → ((flushed_one.frames i).page ≡ (p.frames i).page)
        × ((flushed_one.frames i).in_use ≡ (p.frames i).in_use)
  one-frame i = elim (Eq-cases id i) [
    | inl same ↦
        rw same.1 (ap (λ n. (p.frames n).page) same.0, ap (λ n. (p.frames n).in_use) same.0)
    | inr other ↦ rw other.1 (refl, refl)
  ]

  -- The file then has the page, and what it had before.
  one-page : (j : ℕ) → (dm flushed_one).page j ≡ (if page_id == j then view p j else (dm p).page j)
  one-page j =
      written-page page_id (p.frames id) (dm p) (v.held page_id id h).clean j
      ∙ elim (Eq-cases page_id j) [
        | inl same ↦ rw same.1 (sym (view-present p page_id id h) ∙ ap (view p) same.0)
        | inr other ↦ rw other.1 refl
      ]

  one-view : (j : ℕ) → view flushed_one j ≡ view p j
  one-view j = elim (Option-cases (find j p.page_table)) [
    | inr (i, e) ↦ view-present flushed_one j i e ∙ ((one-frame i).0 ∙ sym (view-present p j i e))
    | inl n ↦
        view-absent flushed_one j n
        ∙ (one-page j ∙ elim (Eq-cases page_id j) [
          | inl same ↦ rw same.1 refl
          | inr other ↦ rw other.1 (sym (view-absent p j n))
        ])
  ]

  one-clean :
      (j i : ℕ)
      → find j p.page_table ≡ some i
      → (flushed_one.frames i).is_dirty ≡ false
      → (flushed_one.frames i).page ≡ (dm flushed_one).page j
  one-clean j i e c = elim (Eq-cases page_id j) [
    | inl same ↦ (one-frame i).0 ∙ (sym (view-present p j i e) ∙ sym (one-page j ∙ rw same.1 refl))
    | inr other ↦
        let apart : (id == i) ≡ false = beq_ne id i (λ q. other.0 (
          sym (v.held page_id id h).named
          ∙ (ap (λ n. (p.frames n).page.page_id) q ∙ (v.held j i e).named))) in
        (one-frame i).0
        ∙ ((v.held j i e).clean
              (sym (ap (λ (x : Frame). x.is_dirty) (update-other p.frames id i cleaned apart)) ∙ c)
            ∙ sym (one-page j ∙ rw other.1 refl))
  ]

  one-IsValid : IsValid flushed_one
  one-IsValid = record {
    held = λ j i e.
        let old = v.held j i e in
        record {
          used = (one-frame i).1 ∙ old.used;
          named = ap (λ (x : Page). x.page_id) (one-frame i).0 ∙ old.named;
          positive = old.positive;
          clean = one-clean j i e;
          taken = old.taken;
        };
    listed = λ i l. ap (λ (x : Page). find x.page_id p.page_table) (one-frame i).0 ∙ v.listed i l;
    free = v.free;
    idle = v.idle;
  }

-- The entries are ones that the table finds.
abbrev pub AreIn : List (ℕ × ℕ) → List (ℕ × ℕ) → Type 0
AreIn table es = All (λ (e : ℕ × ℕ). find e.0 table ≡ some e.1) es

-- The file has the page's contents.
abbrev pub IsSaved : Pool → ℕ → Type 0
IsSaved p j = (dm p).page j ≡ view p j

flush_entries_lem :
    (es : List (ℕ × ℕ)) (p : Pool)
    → IsValid p
    → AreIn p.page_table es
    → (q : Pool) × (flush_entries es p ≡ ok q)
      × IsValid q
      × ((j : ℕ) → view q j ≡ view p j)
      × ((j : ℕ) → IsSaved p j ⊎ ((id : ℕ) × (find j es ≡ some id)) → IsSaved q j)
unfolding flush_entries find
flush_entries_lem [] p v all = (p, refl, v, λ j. refl, λ j o. elim o [ inl s ↦ s | inr e ↦ cc e.1 ])
flush_entries_lem ((pid, fid) ∷ es) p v all =
    let p' = flushed_one p v pid fid all.0 in
    let (q, e, v', same, saved) = flush_entries_lem es p' (one-IsValid p v pid fid all.0) all.1 in
    (
      q,
      ap (λ (m : Result (Bool × Pool)). m >>= λ r. flush_entries es r.1)
            (flush_found-eq p v pid fid all.0)
          ∙ e,
      v',
      λ j. same j ∙ one-view p v pid fid all.0 j,
      λ j o. saved j (next j o),
    )
  where
    next :
        (j : ℕ)
        → IsSaved p j ⊎ ((id : ℕ) × (find j ((pid, fid) ∷ es) ≡ some id))
        → IsSaved (flushed_one p v pid fid all.0) j ⊎ ((id : ℕ) × (find j es ≡ some id))
    next j o = elim (Eq-cases pid j) [
      | inl hit ↦ inl (one-page p v pid fid all.0 j ∙ rw hit.1 (sym (one-view p v pid fid all.0 j)))
      | inr other ↦ elim o [
        | inl s ↦
            inl (one-page p v pid fid all.0 j ∙ rw other.1 (s ∙ sym (one-view p v pid fid all.0 j)))
        | inr found ↦ inr (found.0, rw other.1 at found.1)
      ]
    ]

-- After `flush_all` the file has the contents of every page that the pool shows, no contents have
-- changed, and the pool is valid. The table has each page once.
pub flush_all_lem :
    (p : Pool)
    → IsValid p
    → AreIn p.page_table p.page_table
    → (q : Pool) × (flush_all p ≡ ok q)
      × IsValid q
      × ((j : ℕ) → (view q j ≡ view p j) × ((dm q).page j ≡ view p j))
unfolding flush_all
flush_all_lem p v once =
    let (q, e, v', same, saved) = flush_entries_lem p.page_table p v once in
    (
      q,
      e,
      v',
      λ j. (
        same j,
        saved j (elim (Option-cases (find j p.page_table)) [
          | inl n ↦ inl (sym (view-absent p j n))
          | inr f ↦ inr f
        ])
            ∙ same j,
      ),
    )
