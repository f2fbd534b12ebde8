-- ===== src/Index/Tree.antt =====
-- `BPlusTree` (include/AkatsukiDB/Index/BPlusTree.hpp, src/Index/BPlusTree.cpp): the nodes are pages
-- of a buffer pool of the tree's own. A node that the source holds is the address of its page object;
-- what is read from it is read from the object, and what is set is set there (`modify`). A walk that
-- passes more nodes than the file has pages goes in a circle, where the source does not return.
pub mod Descent
pub mod Child
pub mod Query
pub mod Interval
pub mod Scan
pub mod Insert
pub mod Split
pub mod Delete
use akatsuki_db.Base.{
  ℕ, zero, suc, ◌+◌, ◌-◌, Bool, true, false, Option, none, some, List, [], ◌∷◌, Bytes, ℤ, pos,
  negsuc, ◌==◌, if◌then◌else◌, Result, ok, err, ◌>>=◌,
}
use akatsuki_db.Storage.Page.{Page, read_int, write_int}
use akatsuki_db.Storage.PageManager.{StorageError}
use akatsuki_db.Storage.LruCache.{Address}
use akatsuki_db.Storage.BufferPool
use akatsuki_db.Storage.BufferPool.{BufferPool, open_pool, modify, total_pages, get_page, flush_all}
use akatsuki_db.Index.Key.{IndexKey, equal}
use akatsuki_db.Index.Node.{
  Node, internal, get_type, get_key_count, get_key, find_key_index, get_child_page_id, create_leaf,
}

pub data TreeError : Type 0 where
  storage : StorageError → TreeError
  endless : TreeError

abbrev pub of_storage : {X : Type 0} → Result StorageError X → Result TreeError X
of_storage (ok x) = ok x
of_storage (err e) = err (storage e)

pub record BPlusTree : Type 0 where
  pub pool : BufferPool
  pub root_page_id : ℤ

-- The node behind an address.
abbrev pub node_at : Address → BufferPool → Node
node_at a s = s.objects a

unfoldable pub load_node : ℤ → BufferPool → Result TreeError (Address × BufferPool)
unfolding get_page
load_node id s = of_storage (get_page id s)

unfoldable pub write_root_page_id : ℤ → BufferPool → Result TreeError BufferPool
unfolding load_node modify write_int
write_root_page_id id s =
    load_node (pos 0) s >>= λ (header, s'). ok (modify header (write_int 10 id) s')

unfoldable pub read_root_page_id : BufferPool → Result TreeError (ℤ × BufferPool)
unfolding load_node read_int
read_root_page_id s =
    load_node (pos 0) s >>= λ (header, s'). ok (read_int 10 (node_at header s'), s')

-- `AllocatePage`, and `GetPage` of the page that it made.
unfoldable pub new_node : BufferPool → Result TreeError (ℤ × Address × BufferPool)
unfolding BufferPool.allocate_page load_node
new_node s =
    let (id, s') = BufferPool.allocate_page s in
    load_node (pos id) s' >>= λ (a, s''). ok (pos id, a, s'')

-- The constructor.
unfoldable pub open_tree : Bytes → (Address → Page) → Result TreeError BPlusTree
unfolding open_pool total_pages new_node create_leaf write_root_page_id read_root_page_id modify
open_tree file objects =
    let s = open_pool file objects in
    if total_pages s == 1
    then (new_node s >>= λ (id, a, s').
        write_root_page_id id (modify a (create_leaf id) s') >>= λ s''.
        ok (record { pool = s''; root_page_id = id }))
    else (read_root_page_id s >>= λ (id, s'). ok (record { pool = s'; root_page_id = id }))

unfoldable pub flush : BPlusTree → BPlusTree
unfolding flush_all
flush t = record t { pool = flush_all t.pool }

-- Which child of an internal node `GetChildNodeForInternal` loads: keys equal to a separator are to
-- its right.
unfoldable pub child_for : IndexKey → Node → ℤ
unfolding find_key_index get_key_count get_key get_child_page_id
child_for key n =
    let index = find_key_index key n in
    if index == get_key_count n
    then get_child_page_id index n
    else if equal (get_key index n) key
    then get_child_page_id (index + 1) n
    else get_child_page_id index n

-- The loop of `FindLeaf` from a node on.
unfoldable pub find_leaf_loop :
    ℕ → IndexKey → Address → BufferPool → Result TreeError (Address × BufferPool)
unfolding get_type child_for load_node
find_leaf_loop zero key a s = err endless
find_leaf_loop (suc fuel) key a s =
    if get_type (node_at a s) == internal
    then (load_node (child_for key (node_at a s)) s >>= λ (child, s').
        find_leaf_loop fuel key child s')
    else ok (a, s)

unfoldable pub find_leaf : IndexKey → BPlusTree → Result TreeError (Address × BufferPool)
unfolding load_node find_leaf_loop total_pages
find_leaf key t =
    load_node t.root_page_id t.pool >>= λ (root, s). find_leaf_loop (total_pages t.pool) key root s
