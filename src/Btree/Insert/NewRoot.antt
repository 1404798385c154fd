-- ===== src/Btree/Insert/NewRoot.antt =====
-- src/btree/btree.cpp, `BTree::create_new_root`: the node above the two halves of a root.
use key_v_db.Common.{ℕ, suc, ◌+◌, ◌≤◌, ◌≡◌, refl, true, none, [], ◌∷◌, arith, nat_eq}
use key_v_db.Common.Assoc.{contains}
use key_v_db.Common.Bytes.{Bytes}
use key_v_db.Common.Result.{Result, ok}
use key_v_db.Storage.Page.{invalid_page_id}
use key_v_db.Btree.Slotted.{blank}
use key_v_db.Btree.Slotted.Capacity.{live, content, blank-IsLaidOut, IsLaidOut}
use key_v_db.Btree.Node.{
  Node, Internal, internal_size, internal_of, with_internal, init_internal, init_leaf,
  insert_separator,
}
use key_v_db.Btree.Node.Append.{insert-last}
use key_v_db.Btree.Store.{Store, fetch, save, edit_internal, set_root, new_page}
use key_v_db.Btree.Store.Steps.{IsStore, Steps, Steps-grow, Steps-rest, save-here, both-Steps}
use key_v_db.Btree.Store.Links.{set_parent-Steps}
use key_v_db.Btree.Store.New.{IsNew, new_page-IsNew, IsNew-Steps, absent_other}
use key_v_db.Btree.Insert.{create_new_root}
use key_v_db.Btree.Shape.{Shape, id_of, Holds}
use key_v_db.Btree.Shape.Keep.{Holds-Same, HoldsInternal-Same, ids-present, id_of-present}

-- A new root with two children is there, and the store knows it.
pub record IsGrown (h : ℕ) (left right : Shape h) (sep : Bytes) (s : Store) (run : Result Store)
    : Type 0 where
  pub s' : Store
  pub id : ℕ
  pub runs : run ≡ ok s'
  pub valid : IsStore s'
  pub absent : s.nodes id ≡ none
  pub holds : Holds (suc h) (id, left, (sep, right) ∷ []) s'
  pub root : s'.root ≡ id
  pub saved : s'.saved_root ≡ id

-- The separator fits into an empty node.
first_separator :
    (sep : Bytes) (right_id : ℕ)
    → 2 + internal_size sep 0 ≤ 1012
    → (i : Internal) × (insert_separator sep right_id blank ≡ ok (true, i))
      × IsLaidOut internal_size i
      × (i.cells ≡ (sep, right_id) ∷ [])
unfolding insert_separator blank live content
first_separator sep right_id small =
    insert-last internal_size insert_separator (λ key v s valid none'. refl) sep right_id blank
      (blank-IsLaidOut internal_size) (tt, tt) (omega (arith, small))

module _ (h : ℕ) (left right : Shape h) (sep : Bytes) (s : Store) (v : IsStore s)
    (holds_left : Holds h left s) (holds_right : Holds h right s)
    (small : 2 + internal_size sep 0 ≤ 1012) where
  -- On a store that holds two trees of one height, `create_new_root` ends, and its new page is a root
  -- above the two.
  pub create_new_root_lem :
      IsGrown h left right sep s (create_new_root (id_of h left) sep (id_of h right) s)
  unfolding create_new_root edit_internal fetch internal_of init_internal init_leaf set_root
      contains
  create_new_root_lem =
      let r : ℕ = (new_page s).0 in
      let s1 : Store = (new_page s).1 in
      let new : IsNew s r s1 = new_page-IsNew s v in
      let (i, inserts, laid_out, cells) = first_separator sep (id_of h right) small in
      let n : Node = record (init_internal r invalid_page_id) { first_child = id_of h left } in
      let n' = with_internal n i in
      let sa = save r n s1 in
      let sb = save r n' sa in
      let two : Steps s1 sb (r ∷ []) =
        both-Steps s1 new.valid r r n n' new.owned new.owned (λ j p away. away) refl refl in
      let grown : Steps s sb (r ∷ []) = Steps-grow (IsNew-Steps new) two in
      let (s3, set3, st3) =
        set_parent-Steps sb grown.valid (id_of h left) r
          (grown.stays (id_of h left) (id_of-present s h left holds_left)) in
      let (s4, set4, st4) = set_parent-Steps s3 st3.valid (id_of h right) r (
        st3.stays (id_of h right)
          (grown.stays (id_of h right) (id_of-present s h right holds_right))) in
      let all : Steps s s4 (r ∷ []) = Steps-rest (Steps-rest grown st3) st4 in
      let after : Steps sb s4 [] = Steps-rest st3 st4 in
      let s' = set_root r s4 in
      let keep : (t : Shape h) → Holds h t s → Holds h t s' = λ t holds.
        Holds-Same s s' h t
          (λ j p.
            all.kept j (rw (absent_other s r j new.absent (ids-present s h t holds j p)) refl))
          holds in
      record {
        s' = s';
        id = r;
        runs = rw (save-here r n s1, inserts, set3, set4) refl;
        valid = record {
          linked = all.valid.linked;
          free = all.valid.free;
          beyond = all.valid.beyond;
          inside = all.valid.inside;
          distinct = all.valid.distinct;
        };
        absent = new.absent;
        holds = (
          HoldsInternal-Same sb s' r (id_of h left) ((sep, id_of h right) ∷ []) (after.kept r refl)
              (record {
                node = n';
                body = i;
                here = save-here r n' sa;
                kind = refl;
                first = refl;
                laid_out = laid_out;
                same = cells;
              }),
          keep left holds_left,
          (keep right holds_right, tt),
        );
        root = refl;
        saved = refl;
      }
