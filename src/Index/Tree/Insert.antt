-- ===== src/Index/Tree/Insert.antt =====
-- `Insert`, `InsertRec`, `SplitLeaf`, `InsertIntoInternal` and `SplitInternal`. `std::sort` is a
-- parameter: how it orders equal keys is not said.
use akatsuki_db.Base.{
  ℕ, zero, suc, ◌+◌, ◌-◌, ◌/◌, Option, none, some, List, [], ◌∷◌, ◌++◌, ℤ, pos, negsuc, eqb_ℤ, ◌==◌,
  if◌then◌else◌, length, take, drop, get_or, Result, ok, err, ◌>>=◌,
}
use akatsuki_db.Storage.Page.{mark_dirty}
use akatsuki_db.Storage.LruCache.{Address}
use akatsuki_db.Storage.BufferPool.{BufferPool, modify, total_pages}
use akatsuki_db.Index.Key.{IndexKey}
use akatsuki_db.Index.Node.{
  Node, InsertEntry, leaf, get_type, get_key_count, set_key_count, get_key, set_key,
  get_child_page_id, set_child_page_id, find_key_index, set_entry, insert_into_leaf, is_leaf_full,
  is_internal_full, create_leaf, create_internal, get_page_id, get_next_leaf_page_id,
  set_next_leaf_page_id, set_prev_leaf_page_id,
}
use akatsuki_db.Index.Node.Lists.{tabulate}
use akatsuki_db.Index.Node.Leaf.{entries}
use akatsuki_db.Index.Tree.{
  TreeError, endless, BPlusTree, node_at, load_node, new_node, write_root_page_id, child_for,
}

-- The entries of a list, from an index on.
unfoldable pub write_entries : ℕ → List InsertEntry → Node → Node
unfolding set_entry
write_entries i [] n = n
write_entries i (e ∷ es) n = write_entries (i + 1) es (set_entry i e n)

-- The same, with the number of keys set after each.
unfoldable pub append_entries : ℕ → List InsertEntry → Node → Node
unfolding set_entry set_key_count
append_entries i [] n = n
append_entries i (e ∷ es) n = append_entries (i + 1) es (set_key_count (i + 1) (set_entry i e n))

-- What the old leaf keeps of all entries.
unfoldable pub left_half : List InsertEntry → Node → Node
unfolding write_entries set_key_count
left_half total n =
    let mid = length total / 2 in set_key_count mid (write_entries 0 (take mid total) n)

-- What the new leaf gets.
unfoldable pub right_half : List InsertEntry → ℤ → Node → Node
unfolding append_entries create_leaf
right_half total id n = append_entries 0 (drop (length total / 2) total) (create_leaf id n)

-- The links of the old leaf `a` and the new one `b`.
unfoldable pub link_leaves : Address → Address → BufferPool → Result TreeError BufferPool
unfolding modify set_next_leaf_page_id get_next_leaf_page_id set_prev_leaf_page_id get_page_id
    load_node eqb_ℤ
link_leaves a b s =
    let s1 = modify b (set_next_leaf_page_id (get_next_leaf_page_id (node_at a s))) s in
    let s2 = modify b (set_prev_leaf_page_id (get_page_id (node_at a s1))) s1 in
    let s3 = modify a (set_next_leaf_page_id (get_page_id (node_at b s2))) s2 in
    if eqb_ℤ (get_next_leaf_page_id (node_at b s3)) (negsuc 0)
    then ok s3
    else (load_node (get_next_leaf_page_id (node_at b s3)) s3 >>= λ (next, s4).
        ok (modify next (set_prev_leaf_page_id (get_page_id (node_at b s4))) s4))

-- The loops of `InsertIntoInternal`: keys and children move up by one, the last first.
unfoldable pub shift_keys_right : ℕ → ℕ → Node → Node
unfolding set_key get_key
shift_keys_right zero index n = n
shift_keys_right (suc moves) index n =
    let i = index + moves in shift_keys_right moves index (set_key (i + 1) (get_key i n) n)

unfoldable pub shift_children_right : ℕ → ℕ → Node → Node
unfolding set_child_page_id get_child_page_id
shift_children_right zero index n = n
shift_children_right (suc moves) index n =
    let i = index + moves in
    shift_children_right moves index (set_child_page_id (i + 1) (get_child_page_id i n) n)

unfoldable pub insert_into_internal : IndexKey → ℤ → Node → Node
unfolding find_key_index shift_keys_right shift_children_right get_key_count set_key
    set_child_page_id set_key_count mark_dirty
insert_into_internal key child n =
    let index = find_key_index key n in
    let count = get_key_count n in
    let n1 = shift_keys_right (count - index) index n in
    let n2 = shift_children_right (count - index) (index + 1) n1 in
    mark_dirty
      (set_key_count (count + 1) (set_child_page_id (index + 1) child (set_key index key n2)))

abbrev pub insert_at : {A : Type 0} → ℕ → A → List A → List A
insert_at i x xs = take i xs ++ x ∷ drop i xs

unfoldable pub write_keys : ℕ → List IndexKey → Node → Node
unfolding set_key
write_keys i [] n = n
write_keys i (k ∷ ks) n = write_keys (i + 1) ks (set_key i k n)

unfoldable pub write_children : ℕ → List ℤ → Node → Node
unfolding set_child_page_id
write_children i [] n = n
write_children i (c ∷ cs) n = write_children (i + 1) cs (set_child_page_id i c n)

-- What is promoted to the parent; an internal node has no slot, 0 stands there.
unfoldable pub split_internal :
    IndexKey → ℤ → Address → BufferPool → Result TreeError (InsertEntry × BufferPool)
unfolding tabulate get_child_page_id get_key get_key_count find_key_index write_keys write_children
    set_key_count modify new_node create_internal get_page_id
split_internal key child a s =
    let n = node_at a s in
    let index = find_key_index key n in
    let keys = insert_at index key (tabulate (get_key_count n) (λ i. get_key i n)) in
    let children =
      insert_at (index + 1) child (tabulate (get_key_count n + 1) (λ i. get_child_page_id i n)) in
    let mid = length keys / 2 in
    let s1 =
      modify a
        (λ n.
          set_key_count mid
            (write_children 0 (take (mid + 1) children) (write_keys 0 (take mid keys) n)))
        s in
    new_node s1 >>= λ (id, b, s2).
    let s3 =
      modify b
        (λ n. set_key_count (length keys - mid - 1) (
          write_children 0 (drop (mid + 1) children)
            (write_keys 0 (drop (mid + 1) keys) (create_internal id n))))
        s2 in
    ok (
      record {
        key = get_or keys mid key;
        page_id = get_page_id (node_at b s3);
        slot_index = pos 0;
      },
      s3,
    )

module _ (sort : List InsertEntry → List InsertEntry) where
  unfoldable pub split_leaf :
      InsertEntry → Address → BufferPool → Result TreeError (InsertEntry × BufferPool)
  unfolding entries modify left_half right_half new_node link_leaves get_page_id
  split_leaf e a s =
      let total = sort (entries (node_at a s) ++ e ∷ []) in
      let middle = get_or total (length total / 2) e in
      new_node (modify a (left_half total) s) >>= λ (id, b, s1).
      link_leaves a b (modify b (right_half total id) s1) >>= λ s2. ok (
        record {
          key = middle.key;
          page_id = get_page_id (node_at b s2);
          slot_index = middle.slot_index;
        },
        s2,
      )

  -- What is to be inserted into the parent, if the node was split.
  unfoldable pub insert_rec :
      ℕ → InsertEntry → Address → BufferPool → Result TreeError (Option InsertEntry × BufferPool)
  unfolding get_type is_leaf_full split_leaf insert_into_leaf modify child_for load_node
      is_internal_full split_internal insert_into_internal
  insert_rec zero e a s = err endless
  insert_rec (suc fuel) e a s =
      if get_type (node_at a s) == leaf
      then if is_leaf_full (node_at a s)
        then (split_leaf e a s >>= λ (promoted, s'). ok (some promoted, s'))
        else ok (none, modify a (insert_into_leaf e) s)
      else (load_node (child_for e.key (node_at a s)) s >>= λ (child, s1).
          insert_rec fuel e child s1 >>= λ (result, s2). elim result [
            | none ↦ ok (none, s2)
            | some p ↦
                if is_internal_full (node_at a s2)
                then (split_internal p.key p.page_id a s2 >>= λ (promoted, s3).
                    ok (some promoted, s3))
                else ok (none, modify a (insert_into_internal p.key p.page_id) s2)
          ])

  unfoldable pub insert : InsertEntry → BPlusTree → Result TreeError BPlusTree
  unfolding load_node insert_rec total_pages new_node modify set_key_count set_child_page_id set_key
      create_internal write_root_page_id
  insert e t = load_node t.root_page_id t.pool >>= λ (root, s).
      insert_rec (total_pages t.pool) e root s >>= λ (result, s1). elim result [
        | none ↦ ok (record t { pool = s1 })
        | some p ↦ new_node s1 >>= λ (id, b, s2).
            write_root_page_id id (
              modify b
                (λ n. set_key_count 1 (
                  set_child_page_id 1 p.page_id
                    (set_key 0 p.key (set_child_page_id 0 t.root_page_id (create_internal id n)))))
                s2)
            >>= λ s3. ok (record { pool = s3; root_page_id = id })
      ]
