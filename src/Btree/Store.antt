-- ===== src/Btree/Store.antt =====
-- src/btree/btree.h and btree.cpp: the pages of the tree as the nodes that they hold. A page that is
-- fetched and changed in its frame is a node of the store that is replaced; pins are left out, and
-- the pool always has a frame. `saved_root` is the root that page 0 keeps.
pub mod Steps
pub mod Links
pub mod New
use key_v_db.Common.{
  ℕ, ◌+◌, Option, none, some, List, [], ◌∷◌, ◌==◌, nat_eq, if◌then◌else◌, map, ◌++◌,
}
use key_v_db.Common.Result.{Result, ok, err, ◌>>=◌, Error, failed_assertion}
use key_v_db.Storage.Page.{invalid_page_id}
use key_v_db.Storage.Disk.{update}
use key_v_db.Storage.FreeList.{split_back}
use key_v_db.Btree.Node.{
  Node, Leaf, Internal, leaf_of, internal_of, with_leaf, with_internal, init_leaf,
}

-- A run of a loop on fuel.
pub data Run (A : Type 0) : Type 0 where
  done : A → Run A
  throws : Error → Run A
  out_of_fuel : Run A

-- `none` is a page that holds no node, which the constructor of `Node` refuses.
pub record Store : Type 0 where
  pub nodes : ℕ → Option Node
  pub free_pages : List ℕ
  pub num_pages : ℕ
  pub root : ℕ
  pub saved_root : ℕ

abbrev pub present : Option Node → Result Node
present none = err failed_assertion
present (some n) = ok n

-- `fetch_page` and the node in the page.
unfoldable pub fetch : ℕ → Store → Result Node
fetch id s = present (s.nodes id)

unfoldable pub save : ℕ → Node → Store → Store
save id n s = record s { nodes = update s.nodes id (some n) }

-- A change of a pinned page.
unfoldable pub edit : ℕ → (Node → Node) → Store → Result Store
edit id f s = fetch id s >>= λ n. ok (save id (f n) s)

unfoldable pub edit_leaf : ℕ → (Leaf → Result Leaf) → Store → Result Store
edit_leaf id f s = do n ← fetch id s; l ← leaf_of n; l' ← f l; ok (save id (with_leaf n l') s)

unfoldable pub edit_internal : ℕ → (Internal → Result Internal) → Store → Result Store
edit_internal id f s = do
  n ← fetch id s
  i ← internal_of n
  i' ← f i
  ok (save id (with_internal n i') s)

abbrev pub with_parent : ℕ → Node → Node
with_parent parent_id n = record n { parent_id = parent_id }

unfoldable pub set_parent : ℕ → ℕ → Store → Result Store
set_parent id parent_id s = edit id (with_parent parent_id) s

-- `update_parent` and `reparent`: nothing is done for a page that there is not.
unfoldable pub reparent : ℕ → ℕ → Store → Result Store
reparent parent_id child s = if child == invalid_page_id then ok s else set_parent child parent_id s

unfoldable pub reparent_all : ℕ → List ℕ → Store → Result Store
reparent_all parent_id [] s = ok s
reparent_all parent_id (child ∷ children) s =
    reparent parent_id child s >>= reparent_all parent_id children

-- The children of an internal node, the leftmost first.
abbrev pub children_of : Node → Internal → List ℕ
children_of n i = n.first_child ∷ map (λ c. c.1) i.cells

abbrev pub allocated : Store → Option (ℕ × List ℕ) → ℕ × Store
allocated s none =
    (s.num_pages, record s { nodes = update s.nodes s.num_pages none; num_pages = s.num_pages + 1 })
allocated s (some (id, rest)) = (id, record s { nodes = update s.nodes id none; free_pages = rest })

-- `BufferPool::new_page`: the id of a cleared page, a free one if there is one.
unfoldable pub new_page : Store → ℕ × Store
new_page s = allocated s (split_back s.free_pages)

unfoldable pub delete_page : ℕ → Store → Store
delete_page id s = record s { nodes = update s.nodes id none; free_pages = s.free_pages ++ id ∷ [] }

-- A new root, and `persist_root`.
unfoldable pub set_root : ℕ → Store → Store
set_root id s = record s { root = id; saved_root = id }

unfoldable pub create : Store → Store
create s = let (id, s1) = new_page s in set_root id (save id (init_leaf id invalid_page_id) s1)

-- `BTree::open`
unfoldable pub open_tree : ℕ → Store → Store
open_tree id s = record s { root = id }
