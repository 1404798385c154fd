-- ===== src/Storage/Pool/Install.antt =====
-- `install`: a page is put into a spare frame.
use key_v_db.Common.{
  ℕ, ◌<◌, ◌^◌, ◌≡◌, ◌≢◌, refl, sym, ap, subst, ◌∙◌, inl, inr, true, false, none, some, ◌==◌, nat_eq,
  if◌then◌else◌, Option-cases, Eq-cases, beq_refl, beq_ne,
}
use key_v_db.Common.Assoc.{find, erase, contains, contains-erase, find-put}
use key_v_db.Storage.Pool.{Pool, Frame, dm, install, touch}
use key_v_db.Storage.Pool.Coherent.{view, IsHeld, IsValid}
use key_v_db.Storage.Pool.Evict.{update-other, IsHeld-as}

-- A frame that holds no page and that no list of the pool names.
pub record IsSpare (p : Pool) (id : ℕ) : Type 0 where
  pub outside : (j : ℕ) → find j p.page_table ≢ some id
  pub unfree : contains id p.free_frames ≡ false
  pub unlisted : contains id p.lru_list ≡ false

module _ (p : Pool) (v : IsValid p) (id : ℕ) (spare : IsSpare p id) (page_id : ℕ) (f : Frame)
    (absent : find page_id p.page_table ≡ none) (used : f.in_use ≡ true)
    (named : f.page.page_id ≡ page_id) (small : page_id < 2 ^ 31)
    (clean : f.is_dirty ≡ false → f.page ≡ (dm p).page page_id) where
  abbrev pub after : Pool
  after = install page_id id f p

  pub after-frame : after.frames id ≡ f
  unfolding touch
  after-frame = ap (λ b. if b then f else p.frames id) (beq_refl id)

  pub after-find :
      (j : ℕ) → find j after.page_table ≡ (if page_id == j then some id else find j p.page_table)
  unfolding touch
  after-find j = find-put page_id j id p.page_table

  -- A frame of another page is not the one that is filled.
  kept : (j i : ℕ) → find j p.page_table ≡ some i → (id == i) ≡ false
  kept j i e = beq_ne id i (λ same. spare.outside j (e ∙ ap some (sym same)))

  pub install-view : (j : ℕ) → view after j ≡ (if page_id == j then f.page else view p j)
  unfolding view touch
  install-view j = elim (Eq-cases page_id j) [
    | inl same ↦
        let hit : find j after.page_table ≡ some id = after-find j ∙ rw same.1 refl in
        rw (hit, same.1) (ap (λ x. x.page) after-frame)
    | inr other ↦
        let miss : find j after.page_table ≡ find j p.page_table = after-find j ∙ rw other.1 refl in
        elim (Option-cases (find j p.page_table)) [
          | inl n ↦ rw (miss ∙ n, other.1, n) refl
          | inr (i, e) ↦
              rw (miss ∙ e, other.1, e)
                (ap (λ x. x.page) (update-other p.frames id i f (kept j i e)))
        ]
  ]

  install-IsHeld : (j i : ℕ) → find j after.page_table ≡ some i → IsHeld after j i
  unfolding touch
  install-IsHeld j i h = elim (Eq-cases page_id j) [
    | inl same ↦
        let at_j : find j after.page_table ≡ some id = after-find j ∙ rw same.1 refl in
        let hit : id ≡ i = cc (at_j, h) in
        subst (λ n. IsHeld after j n) hit (subst (λ n. IsHeld after n id) same.0 filled)
    | inr other ↦
        let e : find j p.page_table ≡ some i = sym (after-find j ∙ rw other.1 refl) ∙ h in
        IsHeld-as p after j i (update-other p.frames id i f (kept j i e)) refl (v.held j i e).taken
          (v.held j i e)
  ]
    where
      filled : IsHeld after page_id id
      filled = record {
        used = rw after-frame used;
        named = rw after-frame named;
        positive = small;
        clean = rw after-frame clean;
        taken = spare.unfree;
      }

  install-listed :
      (i : ℕ)
      → contains i after.lru_list ≡ true
      → find (after.frames i).page.page_id after.page_table ≡ some i
  unfolding touch contains
  install-listed i h = elim (Eq-cases id i) [
    | inl same ↦
        subst (λ n. find (after.frames n).page.page_id after.page_table ≡ some n) same.0
          (ap (λ x. find x.page.page_id after.page_table) after-frame
            ∙ (ap (λ n. find n after.page_table) named
                ∙ (after-find page_id ∙ rw (beq_refl page_id) refl)))
    | inr other ↦
        let later : contains i (erase id p.lru_list) ≡ true = rw other.1 at h in
        let old : contains i p.lru_list ≡ true =
          sym (contains-erase id i p.lru_list ∙ rw other.1 refl) ∙ later in
        let there = v.listed i old in
        ap (λ x. find x.page.page_id after.page_table) (update-other p.frames id i f other.1)
        ∙ (after-find (p.frames i).page.page_id
            ∙ elim (Eq-cases page_id (p.frames i).page.page_id) [
              | inl clash ↦ absurd (cc (absent, clash.0, there))
              | inr fine ↦ rw fine.1 there
            ])
  ]

  install-idle : (i : ℕ) → contains i p.free_frames ≡ true → contains i after.lru_list ≡ false
  unfolding touch contains
  install-idle i h = elim (Eq-cases id i) [
    | inl same ↦ absurd (cc (spare.unfree, same.0, h))
    | inr other ↦ rw other.1 (contains-erase id i p.lru_list ∙ rw other.1 (v.idle i h))
  ]

  pub install-IsValid : IsValid after
  unfolding touch
  install-IsValid = record {
    held = install-IsHeld;
    listed = install-listed;
    free = v.free;
    idle = install-idle;
  }
