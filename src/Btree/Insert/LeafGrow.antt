-- ===== src/Btree/Insert/LeafGrow.antt =====
-- src/btree/btree.cpp, `BTree::insert`: what an insertion makes of the leaf of the key.
use key_v_db.Common.{
  ℕ, zero, ◌+◌, ◌≤◌, ◌≡◌, refl, sym, ap, ◌∙◌, subst, true, Option, some, List, [], ◌∷◌, inl, inr,
  Eq-cases, nat_eq, beq_refl, All,
}
use key_v_db.Common.Assoc.{find, contains}
use key_v_db.Common.Bytes.{Bytes, bytes_eq}
use key_v_db.Btree.Search.{bytes_ltb}
use key_v_db.Btree.Slotted.Half.{AllWithin}
use key_v_db.Btree.Slotted.Ordered.{IsValid}
use key_v_db.Btree.Cells.{Increasing, bytes_ltb_ne}
use key_v_db.Btree.Node.{leaf_size, leaf_of, with_leaf}
use key_v_db.Btree.Node.InsertLeaf.{leaf_fits, insert_leaf_cell_lem}
use key_v_db.Btree.Store.{Store, fetch, save}
use key_v_db.Btree.Store.Steps.{IsStore, save-here, save-Steps}
use key_v_db.Btree.Store.Links.{same_link}
use key_v_db.Btree.Insert.{insert_in}
use key_v_db.Btree.Insert.Outcome.{Absorbed}
use key_v_db.Btree.Shape.{HoldsLeaf, From, Before, Ordered, flatten, ids}
use key_v_db.Btree.Shape.Contents.{Updates}

pub All-both :
    {A : Type 0} (P Q R : A → Type 0) (xs : List A)
    → ((x : A) → P x → Q x → R x)
    → All P xs
    → All Q xs
    → All R xs
All-both P Q R [] f ps qs = tt
All-both P Q R (x ∷ xs) f ps qs = (f x ps.0 qs.0, All-both P Q R xs f ps.1 qs.1)

-- Each cell is the one that a search for its key finds.
pub find_self :
    (cells : List (Bytes × Bytes))
    → Increasing cells
    → All (λ (c : Bytes × Bytes). find c.0 cells ≡ some c.1) cells
unfolding find
find_self [] inc = tt
find_self (c ∷ cells) inc = (
  rw (beq_refl c.0) refl,
  All-both (λ (d : Bytes × Bytes). bytes_ltb c.0 d.0 ≡ true)
      (λ (d : Bytes × Bytes). find d.0 cells ≡ some d.1)
      (λ (d : Bytes × Bytes). find d.0 (c ∷ cells) ≡ some d.1) cells
      (λ d above here. rw (bytes_ltb_ne c.0 d.0 above) here) inc.0 (find_self cells inc.1),
)

pub find-cell :
    (Q : Bytes → Bytes → Type 0) (cells : List (Bytes × Bytes)) (j v : Bytes)
    → All (λ (c : Bytes × Bytes). Q c.0 c.1) cells
    → find j cells ≡ some v
    → Q j v
unfolding find
find-cell Q [] j v all h = cc
find-cell Q (c ∷ cells) j v all h = elim (Eq-cases c.0 j) [
  | inl same ↦
      let e : some c.1 ≡ some v = rw same.1 at h in
      let e' : c.1 ≡ v = cc e in subst (λ x. Q x v) same.0 (subst (Q c.0) e' all.0)
  | inr other ↦ find-cell Q cells j v all.1 (rw other.1 at h)
]

-- What holds of the key and the value of each cell holds of the new one and the others.
pub All-Updates :
    (Q : Bytes → Bytes → Type 0) (key value : Bytes) (xs ys : List (Bytes × Bytes))
    → Q key value
    → All (λ (c : Bytes × Bytes). Q c.0 c.1) xs
    → Increasing ys
    → Updates key (some value) xs ys
    → All (λ (c : Bytes × Bytes). Q c.0 c.1) ys
All-Updates Q key value xs ys q all inc up =
    All-both (λ c. find c.0 ys ≡ some c.1) (λ c. find c.0 ys ≡ some c.1) (λ c. Q c.0 c.1) ys
      (λ c here again. elim (Eq-cases key c.0) [
        | inl same ↦
            let e : some value ≡ some c.1 = sym (up c.0 ∙ rw same.1 refl) ∙ here in
            let e' : value ≡ c.1 = cc e in subst (λ x. Q x c.1) same.0 (subst (Q key) e' q)
        | inr other ↦ find-cell Q xs c.0 c.1 all (sym (up c.0 ∙ rw other.1 refl) ∙ here)
      ])
      (find_self ys inc) (find_self ys inc)

module _ (key value : Bytes) (lo hi : Option Bytes) (id : ℕ) (cells : List (Bytes × Bytes))
    (s : Store) (v : IsStore s) (holds : HoldsLeaf id cells s) (o : Ordered zero lo hi (id, cells))
    (low : From lo key) (high : Before hi key) (small : AllWithin leaf_size 1010 cells)
    (new_small : 2 + leaf_size key value ≤ 1010) (breadcrumbs : List ℕ) where
  pub valid : IsValid leaf_size holds.body
  valid = record { laid_out = holds.laid_out; increasing = subst Increasing (sym holds.same) o.0 }

  absorb :
      leaf_fits key value cells ≡ true
      → Absorbed key value zero lo hi (id, cells) s (insert_in key value (id, breadcrumbs) s)
  unfolding fetch leaf_of flatten ids contains
  absorb room =
      let ((fits, l), runs, p) = insert_leaf_cell_lem key value holds.body valid in
      let yes' : fits ≡ true = p.outcome ∙ ap (leaf_fits key value) holds.same ∙ room in
      let n' = with_leaf holds.node l in
      let up : Updates key (some value) cells l.cells =
        λ j. p.contents j ∙ rw (yes', holds.same) refl in
      record {
        s' = save id n' s;
        t' = (id, l.cells);
        runs = rw (holds.here, holds.kind, runs, yes') refl;
        steps =
            save-Steps s v id holds.node n' holds.here
              (same_link s v id holds.node n' holds.here refl);
        holds = record {
          node = n';
          body = l;
          here = save-here id n' s;
          kind = refl;
          laid_out = p.valid.laid_out;
          same = refl;
        };
        ordered = (
          p.valid.increasing,
          All-Updates (λ k w. From lo k × Before hi k) key value cells l.cells (low, high) o.1
              p.valid.increasing up,
        );
        same_id = refl;
        distinct = (refl, tt);
        fresh = λ j h away. cc;
        updates = up;
        small =
            All-Updates (λ k w. 2 + leaf_size k w ≤ 1010) key value cells l.cells new_small small
              p.valid.increasing up;
      }
