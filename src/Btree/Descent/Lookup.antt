-- ===== src/Btree/Descent/Lookup.antt =====
-- src/btree/btree.cpp, the search in the leaf at the end of `BTree::get`.
use key_v_db.Common.{◌≡◌, refl, inl, inr, Option-cases}
use key_v_db.Common.Assoc.{find}
use key_v_db.Common.Bytes.{Bytes, bytes_eq}
use key_v_db.Common.Result.{ok}
use key_v_db.Btree.Slotted.{cell_at}
use key_v_db.Btree.Slotted.Ordered.{IsValid, is_at-IsValid, slot_of-IsValid}
use key_v_db.Btree.Cells.{get_elem?-rank}
use key_v_db.Btree.Node.{Leaf, leaf_size}
use key_v_db.Btree.Descent.{lookup}

-- The search in a valid leaf never fails an assertion, and finds what a walk over all its cells
-- finds.
pub lookup-find :
    (key : Bytes) (s : Leaf) → IsValid leaf_size s → lookup key s ≡ ok (find key s.cells)
unfolding lookup cell_at
lookup-find key s v =
    rw (is_at-IsValid leaf_size key s v, slot_of-IsValid leaf_size key s v)
      (elim (Option-cases (find key s.cells)) [
        | inl absent ↦ rw absent refl
        | inr present ↦
            rw (present.1, get_elem?-rank key s.cells present.0 v.increasing present.1) refl
      ])
