-- ===== src/Index/Tree/Delete.antt =====
-- `Delete`, `DeleteRec`, `BorrowFromLeft`, `BorrowFromRight` and `MergeChildren`. The two children that
-- are merged are different pages.
use akatsuki_db.Base.{
  ℕ, zero, suc, ◌+◌, ◌-◌, ◌/◌, Bool, true, false, ◌&&◌, ℤ, negsuc, eqb_ℤ, ◌==◌, ltb, leb,
  if◌then◌else◌, Result, ok, err, ◌>>=◌,
}
use akatsuki_db.Storage.LruCache.{Address}
use akatsuki_db.Storage.BufferPool.{BufferPool, modify, total_pages}
use akatsuki_db.Index.Key.{IndexKey}
use akatsuki_db.Index.Node.{
  Node, InsertEntry, leaf, internal, get_type, get_key_count, set_key_count, get_key, set_key,
  get_child_page_id, set_child_page_id, find_key_index, get_entry, set_entry, shift_right,
  shift_left, delete_from_leaf, get_page_id, get_next_leaf_page_id, set_next_leaf_page_id,
  set_prev_leaf_page_id, leaf_order, internal_order,
}
use akatsuki_db.Index.Node.Leaf.{entries}
use akatsuki_db.Index.Tree.{
  TreeError, endless, BPlusTree, node_at, load_node, write_root_page_id, child_for,
}
use akatsuki_db.Index.Tree.Insert.{shift_keys_right, shift_children_right, write_entries}

-- Keys or children move down by one, the first first.
unfoldable pub shift_keys_left : ℕ → ℕ → Node → Node
unfolding set_key get_key
shift_keys_left zero index n = n
shift_keys_left (suc moves) index n =
    shift_keys_left moves (index + 1) (set_key index (get_key (index + 1) n) n)

unfoldable pub shift_children_left : ℕ → ℕ → Node → Node
unfolding set_child_page_id get_child_page_id
shift_children_left zero index n = n
shift_children_left (suc moves) index n =
    shift_children_left moves (index + 1)
      (set_child_page_id index (get_child_page_id (index + 1) n) n)

-- One key and one child more at the end of an internal node.
unfoldable pub append_child : IndexKey → ℤ → Node → Node
unfolding set_key set_child_page_id get_key_count set_key_count
append_child key child n =
    let count = get_key_count n in
    set_key_count (count + 1) (set_child_page_id (count + 1) child (set_key count key n))

-- One key less.
unfoldable pub drop_last : Node → Node
unfolding set_key_count get_key_count
drop_last n = set_key_count (get_key_count n - 1) n

-- A leaf or an internal node with one entry more at the front.
unfoldable pub push_entry : InsertEntry → Node → Node
unfolding shift_right set_entry set_key_count get_key_count
push_entry e n =
    let count = get_key_count n in set_key_count (count + 1) (set_entry 0 e (shift_right count 0 n))

unfoldable pub push_child : IndexKey → ℤ → Node → Node
unfolding shift_keys_right shift_children_right set_key set_child_page_id set_key_count
    get_key_count
push_child key first n =
    let count = get_key_count n in
    let shifted = shift_children_right (count + 1) 0 (shift_keys_right count 0 n) in
    set_key_count (count + 1) (set_child_page_id 0 first (set_key 0 key shifted))

unfoldable pub borrow_from_left : Address → ℕ → Address → Address → BufferPool → BufferPool
unfolding get_type get_key_count get_entry push_entry drop_last modify set_key get_key
    get_child_page_id push_child
borrow_from_left parent index child left s =
    if get_type (node_at child s) == leaf
    then (let e = get_entry (get_key_count (node_at left s) - 1) (node_at left s) in
        modify parent (set_key (index - 1) e.key)
          (modify left drop_last (modify child (push_entry e) s)))
    else let separator = get_key (index - 1) (node_at parent s) in
      let last = get_child_page_id (get_key_count (node_at left s)) (node_at left s) in
      let s1 = modify child (push_child separator last) s in
      let borrowed = get_key (get_key_count (node_at left s1) - 1) (node_at left s1) in
      modify left drop_last (modify parent (set_key (index - 1) borrowed) s1)

-- The loop over an internal node's keys and children, and one key less.
unfoldable pub drop_first_child : Node → Node
unfolding shift_keys_left shift_children_left get_key_count set_key_count
drop_first_child n =
    let count = get_key_count n in
    set_key_count (count - 1) (shift_children_left count 0 (shift_keys_left (count - 1) 0 n))

unfoldable pub borrow_from_right : Address → ℕ → Address → Address → BufferPool → BufferPool
unfolding get_type get_entry shift_left get_key_count set_entry set_key_count drop_last modify
    set_key get_key get_child_page_id append_child drop_first_child
borrow_from_right parent index child right s =
    if get_type (node_at child s) == leaf
    then (let e = get_entry 0 (node_at right s) in
        let s1 = modify right (λ n. shift_left (get_key_count n - 1) 0 n) s in
        let s2 =
          modify child (λ n. set_key_count (get_key_count n + 1) (set_entry (get_key_count n) e n))
            s1 in
        let s3 = modify right drop_last s2 in
        modify parent (set_key index (get_key 0 (node_at right s3))) s3)
    else let separator = get_key index (node_at parent s) in
      let first = get_child_page_id 0 (node_at right s) in
      let s1 = modify right drop_first_child (modify child (append_child separator first) s) in
      modify parent (set_key index (get_key 0 (node_at right s1))) s1

-- The keys of the right node from an index on go to the left node, each with the child behind it.
unfoldable pub append_children : ℕ → ℕ → Node → Node → Node
unfolding append_child get_key get_child_page_id
append_children zero i right n = n
append_children (suc keys) i right n =
    append_children keys (i + 1) right
      (append_child (get_key i right) (get_child_page_id (i + 1) right) n)

unfoldable pub merge_leaves : Address → Address → BufferPool → Result TreeError BufferPool
unfolding entries write_entries get_key_count set_key_count get_next_leaf_page_id
    set_next_leaf_page_id modify load_node set_prev_leaf_page_id get_page_id eqb_ℤ
merge_leaves left right s =
    let r = node_at right s in
    let s1 =
      modify left
        (λ n. set_next_leaf_page_id (get_next_leaf_page_id r) (
          set_key_count (get_key_count n + get_key_count r)
            (write_entries (get_key_count n) (entries r) n)))
        s in
    if eqb_ℤ (get_next_leaf_page_id r) (negsuc 0)
    then ok s1
    else (load_node (get_next_leaf_page_id r) s1 >>= λ (next, s2).
        ok (modify next (set_prev_leaf_page_id (get_page_id (node_at left s2))) s2))

-- The separator and the right child are taken out of the parent.
unfoldable pub remove_child : ℕ → Node → Node
unfolding shift_keys_left shift_children_left get_key_count set_key_count
remove_child left_index n =
    let count = get_key_count n in
    set_key_count (count - 1) (
      shift_children_left (count - (left_index + 1)) (left_index + 1)
        (shift_keys_left (count - 1 - left_index) left_index n))

unfoldable pub merge_children : Address → ℕ → BufferPool → Result TreeError BufferPool
unfolding load_node get_child_page_id get_type merge_leaves get_key append_child append_children
    get_key_count modify remove_child
merge_children parent left_index s =
    load_node (get_child_page_id left_index (node_at parent s)) s >>= λ (left, s1).
    load_node (get_child_page_id (left_index + 1) (node_at parent s1)) s1 >>= λ (right, s2).
    (if get_type (node_at left s2) == leaf
      then merge_leaves left right s2
      else let r = node_at right s2 in
        let separator = get_key left_index (node_at parent s2) in
        ok (
          modify left
            (λ n.
              append_children (get_key_count r) 0 r
                (append_child separator (get_child_page_id 0 r) n))
            s2))
    >>= λ s3. ok (modify parent (remove_child left_index) s3)

abbrev min_keys : Node → ℕ
min_keys n = if get_type n == leaf then leaf_order / 2 else internal_order / 2

-- What follows a deletion below the child: a key is borrowed from the left or the right neighbour, or
-- two children are merged.
unfoldable pub borrow_right_or_merge :
    IndexKey → Address → Address → BufferPool → Result TreeError BufferPool
unfolding find_key_index get_key_count load_node get_child_page_id borrow_from_right merge_children
    get_type leaf_order internal_order
borrow_right_or_merge key a child s =
    let index = find_key_index key (node_at a s) in
    let merge = if ltb 0 index then index - 1 else index in
    if ltb index (get_key_count (node_at a s))
    then (load_node (get_child_page_id (index + 1) (node_at a s)) s >>= λ (right, s1).
        if ltb (min_keys (node_at child s)) (get_key_count (node_at right s1))
        then ok (borrow_from_right a index child right s1)
        else merge_children a merge s1)
    else merge_children a merge s

unfoldable pub rebalance : IndexKey → Address → Address → BufferPool → Result TreeError BufferPool
unfolding find_key_index get_key_count load_node get_child_page_id borrow_from_left
    borrow_right_or_merge get_type leaf_order internal_order
rebalance key a child s =
    let index = find_key_index key (node_at a s) in
    if leb (min_keys (node_at child s)) (get_key_count (node_at child s))
    then ok s
    else if ltb 0 index
    then (load_node (get_child_page_id (index - 1) (node_at a s)) s >>= λ (left, s1).
        if ltb (min_keys (node_at child s)) (get_key_count (node_at left s1))
        then ok (borrow_from_left a index child left s1)
        else borrow_right_or_merge key a child s1)
    else borrow_right_or_merge key a child s

unfoldable pub delete_rec :
    ℕ → IndexKey → Address → BufferPool → Result TreeError (Bool × BufferPool)
unfolding get_type delete_from_leaf modify load_node child_for rebalance
delete_rec zero key a s = err endless
delete_rec (suc fuel) key a s =
    if get_type (node_at a s) == leaf
    then (let (deleted, n) = delete_from_leaf key (node_at a s) in
        ok (deleted, modify a (λ m. n) s))
    else (load_node (child_for key (node_at a s)) s >>= λ (child, s1).
        delete_rec fuel key child s1 >>= λ (deleted, s2).
        if deleted then (rebalance key a child s2 >>= λ s3. ok (true, s3)) else ok (false, s2))

unfoldable pub delete : IndexKey → BPlusTree → Result TreeError (Bool × BPlusTree)
unfolding load_node delete_rec total_pages get_type get_key_count get_child_page_id
    write_root_page_id
delete key t = load_node t.root_page_id t.pool >>= λ (root, s).
    delete_rec (total_pages t.pool) key root s >>= λ (deleted, s1).
    let r = node_at root s1 in
    if deleted && (get_type r == internal && get_key_count r == 0)
    then (write_root_page_id (get_child_page_id 0 r) s1 >>= λ s2.
        ok (deleted, record { pool = s2; root_page_id = get_child_page_id 0 r }))
    else ok (deleted, record t { pool = s1 })
