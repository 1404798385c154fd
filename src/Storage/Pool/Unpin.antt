-- ===== src/Storage/Pool/Unpin.antt =====
-- A write through a pinned page, and `unpin_page` behind it.
use key_v_db.Common.{
  ℕ, ◌≡◌, ◌≢◌, refl, sym, ap, subst, ◌∙◌, true, false, some, ◌==◌, nat_eq, if◌then◌else◌,
  Option-cases, Eq-cases, beq_refl, beq_ne, inl, inr,
}
use key_v_db.Common.Assoc.{find, contains}
use key_v_db.Storage.Page.{Page}
use key_v_db.Storage.Pool.{Pool, Frame, write_through, unpin_page, unpin_found}
use key_v_db.Storage.Pool.Coherent.{view, view-absent, view-present, IsHeld, IsValid}
use key_v_db.Storage.Pool.Evict.{IsHeld-as}

module _ (p : Pool) (v : IsValid p) (page_id id : ℕ) (h : find page_id p.page_table ≡ some id)
    (change : Page → Page) (keeps : (change (p.frames id).page).page_id ≡ page_id) where
  abbrev after : Pool
  after = unpin_found true (write_through id change p) (some id)

  after-this :
      ((after.frames id).page ≡ change (p.frames id).page)
      × ((after.frames id).is_dirty ≡ true)
      × ((after.frames id).in_use ≡ (p.frames id).in_use)
  unfolding write_through
  after-this = rw (beq_refl id) (refl, refl, refl)

  after-other : (i : ℕ) → (id == i) ≡ false → after.frames i ≡ p.frames i
  unfolding write_through
  after-other i e = rw e refl

  -- Another page is in another frame.
  apart : (j i : ℕ) → page_id ≢ j → find j p.page_table ≡ some i → (id == i) ≡ false
  apart j i ne e = beq_ne id i (λ q. ne (
      sym (v.held page_id id h).named
      ∙ (ap (λ n. (p.frames n).page.page_id) q ∙ (v.held j i e).named)))

  after-view : (j : ℕ) → view after j ≡ (if page_id == j then change (view p page_id) else view p j)
  unfolding write_through
  after-view j = elim (Eq-cases page_id j) [
    | inl same ↦ rw (same.1) (
        ap (view after) (sym same.0)
        ∙ (view-present after page_id id h
            ∙ (after-this.0 ∙ ap change (sym (view-present p page_id id h)))))
    | inr other ↦ rw other.1 (elim (Option-cases (find j p.page_table)) [
      | inl n ↦ view-absent after j n ∙ sym (view-absent p j n)
      | inr (i, e) ↦
          view-present after j i e
          ∙ (ap (λ (x : Frame). x.page) (after-other i (apart j i other.0 e))
              ∙ sym (view-present p j i e))
    ])
  ]

  after-IsHeld : (j i : ℕ) → find j p.page_table ≡ some i → IsHeld after j i
  unfolding write_through
  after-IsHeld j i e = elim (Eq-cases page_id j) [
    | inr other ↦
        IsHeld-as p after j i (after-other i (apart j i other.0 e)) refl (v.held j i e).taken
          (v.held j i e)
    | inl same ↦
        let hit : id ≡ i = cc (h, e, same.0) in
        subst (λ n. IsHeld after j n) hit (subst (λ n. IsHeld after n id) same.0 here)
  ]
    where
      here : IsHeld after page_id id
      here =
          let old = v.held page_id id h in
          record {
            used = after-this.2 ∙ old.used;
            named = ap (λ (x : Page). x.page_id) after-this.0 ∙ keeps;
            positive = old.positive;
            clean = λ c. cc (c, after-this.1);
            taken = old.taken;
          }

  after-listed :
      (i : ℕ)
      → contains i p.lru_list ≡ true
      → find (after.frames i).page.page_id p.page_table ≡ some i
  after-listed i l = elim (Eq-cases id i) [
    | inl same ↦
        subst (λ n. find (after.frames n).page.page_id p.page_table ≡ some n) same.0
          (ap (λ (x : Page). find x.page_id p.page_table) after-this.0
            ∙ (ap (λ n. find n p.page_table) keeps ∙ h))
    | inr other ↦
        ap (λ (x : Frame). find x.page.page_id p.page_table) (after-other i other.1) ∙ v.listed i l
  ]

  -- What a caller writes through a page that it has pinned is not lost: after `unpin_page` with the
  -- dirty flag the pool is valid, shows the new contents of that page, and no other page's contents
  -- have changed. The write leaves the page's number.
  pub unpin_page_lem :
      let q = unpin_page page_id true (write_through id change p) in
      IsValid q
      × ((j : ℕ) → view q j ≡ (if page_id == j then change (view p page_id) else view p j))
  unfolding unpin_page write_through
  unpin_page_lem = rw h (
    record { held = after-IsHeld; listed = after-listed; free = v.free; idle = v.idle },
    after-view,
  )
