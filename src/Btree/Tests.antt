-- ===== src/Btree/Tests.antt =====
-- The search in a node with the keys 0, 1 and 2.
use key_v_db.Common.{ℕ, ◌≤◌, ◌≡◌, refl, [], ◌∷◌, arith, ltb, ◌&&◌}
use key_v_db.Common.Bytes.{Bytes}
use key_v_db.Btree.Search.{bytes_ltb, lower_bound, IsSorted, search, lower_bound_lem}

abbrev key_at : ℕ → Bytes
key_at slot = slot ∷ []

key_at-IsSorted : IsSorted key_at 3
unfolding bytes_ltb
key_at-IsSorted i j h h' = ground (arith, h)

finds_key : lower_bound key_at (1 ∷ []) 3 ≡ 1
unfolding lower_bound search bytes_ltb
finds_key = refl

lower_bound_lem_example :
    (lower_bound key_at (1 ∷ []) 3 ≤ 3)
    × ((ltb 2 3 && bytes_ltb (key_at 2) (1 ∷ [])) ≡ ltb 2 (lower_bound key_at (1 ∷ []) 3))
lower_bound_lem_example = lower_bound_lem key_at (1 ∷ []) 3 key_at-IsSorted (omega arith) 2
