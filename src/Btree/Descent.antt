-- ===== src/Btree/Descent.antt =====
-- src/btree/btree.cpp: `find_leaf` and `get`.
pub mod Lookup
use key_v_db.Common.{
  ℕ, zero, suc, ◌+◌, ◌-◌, Bool, true, false, Option, none, some, List, [], ◌∷◌, ◌==◌, nat_eq,
  if◌then◌else◌,
}
use key_v_db.Common.Bytes.{Bytes}
use key_v_db.Common.Result.{Result, ok, err, ◌>>=◌}
use key_v_db.Btree.Slotted.{Slotted, num_keys, slot_of, is_at, cell_at}
use key_v_db.Btree.Node.{Node, Body, Leaf, Internal, leaf, internal, leaf_of}
use key_v_db.Btree.Store.{Run, done, throws, out_of_fuel, Store, fetch}

abbrev pub lift : {A : Type 0} → Result A → Run A
lift (ok a) = done a
lift (err e) = throws e

infixl 5 ◌>>>◌
abbrev pub ◌>>>◌ : {A B : Type 0} → Run A → (A → Run B) → Run B
done a >>> f = f a
throws e >>> f = throws e
out_of_fuel >>> f = out_of_fuel

-- The inner loop of `find_leaf`: past the separators that are the key itself.
unfoldable pub advance : ℕ → Bytes → Internal → ℕ → ℕ
advance zero key s ub = ub
advance (suc fuel) key s ub =
    let rest = advance fuel key s (ub + 1) in if is_at ub key s then rest else ub

unfoldable pub upper : Bytes → Internal → ℕ
upper key s = advance (num_keys s) key s (slot_of key s)

-- The child that `find_leaf` goes down to.
unfoldable pub next_child : Bytes → ℕ → Internal → Result ℕ
next_child key first_child s =
    let ub = upper key s in if ub == 0 then ok first_child else cell_at s (ub - 1) >>= λ c. ok c.1

abbrev pub descend : Result Node → Bytes → ℕ → List ℕ → (ℕ → Run (ℕ × List ℕ)) → Run (ℕ × List ℕ)
descend (err e) key cur breadcrumbs down = throws e
descend (ok n) key cur breadcrumbs down = elim n.body [
  | leaf _ ↦ done (cur, breadcrumbs)
  | internal i ↦ lift (next_child key n.first_child i) >>> down
]

-- The leaf for a key and the internal nodes above it, the lowest first.
unfoldable pub find_leaf : ℕ → Bytes → Store → ℕ → List ℕ → Run (ℕ × List ℕ)
find_leaf zero key s cur breadcrumbs = out_of_fuel
find_leaf (suc fuel) key s cur breadcrumbs =
    descend (fetch cur s) key cur breadcrumbs
      (λ next. find_leaf fuel key s next (cur ∷ breadcrumbs))

-- The value in a leaf.
unfoldable pub lookup : Bytes → Leaf → Result (Option Bytes)
lookup key l =
    let slot = slot_of key l in
    if is_at slot key l then (cell_at l slot >>= λ c. ok (some c.1)) else ok none

abbrev pub get_in : Bytes → ℕ → Store → Result (Option Bytes)
get_in key leaf_id s = do n ← fetch leaf_id s; l ← leaf_of n; lookup key l

unfoldable pub get : ℕ → Bytes → Store → Run (Option Bytes)
get fuel key s = find_leaf fuel key s s.root [] >>> λ r. lift (get_in key r.0 s)
