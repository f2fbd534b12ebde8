-- ===== src/Tests/Index.antt =====
-- A leaf with the keys 5 and 9, and a tree with a root and two leaves.
use akatsuki_db.Base.{
  ℕ, zero, suc, ◌+◌, ◌*◌, ◌≤◌, ◌<◌, ◌≡◌, refl, ap, ◌∙◌, false, true, List, [], ◌∷◌, ◌++◌, Bytes,
  pos, ok, length, replicate, read_at, arith, of_le,
}
use akatsuki_db.Storage.Page.{Page, page_size, new_page, read_short, read_int}
use akatsuki_db.Storage.PageManager.{open_file}
use akatsuki_db.Storage.PageManager.Laws.{disk}
use akatsuki_db.Storage.LruCache.{Address, find}
use akatsuki_db.Storage.BufferPool.{BufferPool, open_pool}
use akatsuki_db.Storage.BufferPool.View.{view, IsPool}
use akatsuki_db.Storage.BufferPool.Flush.{open_file-whole}
use akatsuki_db.Storage.BufferPool.Change.{open_pool-IsPool}
use akatsuki_db.Index.Key.{IndexKey, mk_key, greater_equal, compare_bytes}
use akatsuki_db.Index.Node.{
  Node, InsertEntry, internal, get_type, get_key_count, get_key, key_offset, get_child_page_id,
  find_key_index, insert_into_leaf, delete_from_leaf,
}
use akatsuki_db.Index.Node.Search.{IsSorted, find_key_index-IsFirst}
use akatsuki_db.Index.Node.Writes.{IsLeaf}
use akatsuki_db.Index.Node.Lists.{insert_sorted, remove_first, has_key}
use akatsuki_db.Index.Node.Leaf.{
  entries, insert_into_leaf-insert_sorted, delete_from_leaf-remove_first,
}
use akatsuki_db.Index.Node.Leaf.{IsSortedLeaf}
use akatsuki_db.Index.Node.Steps.{IsMade, without_keys, inserted, IsMade-IsSortedLeaf}
use akatsuki_db.Index.Node.{
  create_leaf, set_type, set_page_id, set_prev_leaf_page_id, set_next_leaf_page_id, put_bytes,
}
use akatsuki_db.Storage.Page.{write_int, mark_dirty}
use akatsuki_db.Base.{write_at, le_bytes}
use akatsuki_db.Index.Tree.Query.{scan_leaf}
use akatsuki_db.Index.Tree.Interval.{is_within, locations}
use akatsuki_db.Index.Tree.Scan.{scan_leaf-is_within}
use akatsuki_db.Base.{◌-◌}
use akatsuki_db.Index.Tree.{BPlusTree, find_leaf}
use akatsuki_db.Index.Tree.Child.{HasSeparators, IsChildFor}
use akatsuki_db.Index.Tree.Descent.{LeadsTo, here, down, node_on, Reached, find_leaf-Reached}

abbrev leaf_bytes : Bytes
leaf_bytes =
    1 ∷ 2 ∷ replicate 18 0 ++ 5 ∷ replicate 133 0 ++ 9 ∷ replicate 133 0 ++ replicate 3808 0

abbrev two_keys : Node
two_keys = new_page (pos 1) leaf_bytes

abbrev key_of : ℕ → IndexKey
key_of n = mk_key (n ∷ replicate 127 0)

abbrev seven : InsertEntry
seven = record { key = key_of 7; page_id = pos 3; slot_index = pos 4 }

two_keys-IsLeaf : IsLeaf two_keys
unfolding get_type read_at
two_keys-IsLeaf = (refl, refl)

count : get_key_count two_keys ≡ 2
unfolding get_key_count read_short read_at of_le
count = refl

whole : (i : ℕ) → i < 2 → length (get_key i two_keys).bytes ≡ 128
unfolding get_key key_offset get_type read_at
whole zero h = refl
whole (suc zero) h = refl
whole (suc (suc i)) h = absurd (omega arith)

sorted : (i j : ℕ) → i ≤ j → j < 2 → greater_equal (get_key j two_keys) (get_key i two_keys) ≡ true
unfolding get_key key_offset get_type read_at compare_bytes
sorted zero zero h l = refl
sorted zero (suc zero) h l = refl
sorted (suc i) zero h l = absurd (omega arith)
sorted (suc zero) (suc zero) h l = refl
sorted i (suc (suc j)) h l = absurd (omega arith)
sorted (suc (suc i)) (suc zero) h l = absurd (omega arith)

two_keys-IsSorted : IsSorted two_keys
two_keys-IsSorted i j h l = sorted i j h (omega (arith, count))

find_key_index-IsFirst_example :
    (find_key_index (key_of 7) two_keys ≤ get_key_count two_keys)
    × ((i : ℕ)
        → i < find_key_index (key_of 7) two_keys
        → greater_equal (get_key i two_keys) (key_of 7) ≡ false)
    × ((i : ℕ)
        → find_key_index (key_of 7) two_keys ≤ i
        → i < get_key_count two_keys
        → greater_equal (get_key i two_keys) (key_of 7) ≡ true)
find_key_index-IsFirst_example =
    find_key_index-IsFirst two_keys (key_of 7) (λ i h. whole i (omega (arith, count))) refl
      two_keys-IsSorted

insert_into_leaf-insert_sorted_example :
    (entries (insert_into_leaf seven two_keys) ≡ insert_sorted seven (entries two_keys))
    × IsLeaf (insert_into_leaf seven two_keys)
    × ((o k : ℕ)
        → 3 ≤ o
        → o + k ≤ 20
        → read_at o k (insert_into_leaf seven two_keys).bytes ≡ read_at o k two_keys.bytes)
insert_into_leaf-insert_sorted_example =
    insert_into_leaf-insert_sorted seven two_keys
      (two_keys-IsLeaf, omega (arith, count), two_keys-IsSorted) (omega (arith, count))
      (refl, (omega arith, omega arith), (omega arith, omega arith))

delete_from_leaf-remove_first_example :
    ((delete_from_leaf (key_of 9) two_keys).0 ≡ has_key (key_of 9) (entries two_keys))
    × (entries (delete_from_leaf (key_of 9) two_keys).1
        ≡ remove_first (key_of 9) (entries two_keys))
    × IsLeaf (delete_from_leaf (key_of 9) two_keys).1
delete_from_leaf-remove_first_example =
    delete_from_leaf-remove_first (key_of 9) two_keys
      (two_keys-IsLeaf, omega (arith, count), two_keys-IsSorted) refl

-- A leaf that a row was inserted into.
blank_leaf : IsMade (create_leaf (pos 2) (new_page (pos 2) (replicate 4096 0)))
unfolding create_leaf set_type set_page_id set_prev_leaf_page_id set_next_leaf_page_id put_bytes
    write_int mark_dirty get_type get_key_count read_short read_at write_at le_bytes of_le
blank_leaf = without_keys (refl, refl) refl

blank_room : get_key_count (create_leaf (pos 2) (new_page (pos 2) (replicate 4096 0))) < 30
unfolding create_leaf set_type set_page_id set_prev_leaf_page_id set_next_leaf_page_id put_bytes
    write_int mark_dirty get_key_count read_short read_at write_at le_bytes of_le
blank_room = omega arith

IsMade-IsSortedLeaf_example :
    IsSortedLeaf
      (insert_into_leaf seven (create_leaf (pos 2) (new_page (pos 2) (replicate 4096 0))))
IsMade-IsSortedLeaf_example =
    IsMade-IsSortedLeaf
      (insert_into_leaf seven (create_leaf (pos 2) (new_page (pos 2) (replicate 4096 0))))
      (inserted seven blank_leaf blank_room
        (refl, (omega arith, omega arith), (omega arith, omega arith)))

abbrev five : InsertEntry
five = record { key = key_of 5; page_id = pos 1; slot_index = pos 0 }

-- A pool with the leaf of 5 and 9 as its only object.
abbrev leaf_pool : BufferPool
leaf_pool = open_pool [] (λ a. two_keys)

abbrev three : List InsertEntry
three = entries two_keys ++ seven ∷ []

abbrev fresh : Node
fresh = new_page (pos 2) (replicate 4096 0)

abbrev stored : ℕ → InsertEntry
stored n = record { key = key_of n; page_id = pos 0; slot_index = pos 0 }

-- A tree of a root with the key 5 and two leaves.
abbrev root_bytes : Bytes
root_bytes = 0 ∷ 1 ∷ replicate 18 0 ++ 2 ∷ 0 ∷ 0 ∷ 0 ∷ 5 ∷ replicate 127 0 ++ 3 ∷ replicate 3943 0

abbrev file : Bytes
file = replicate 4096 0 ++ root_bytes ++ 1 ∷ replicate 4095 0 ++ 1 ∷ replicate 4095 0

abbrev blank : Page
blank = new_page (pos 0) (replicate 4096 0)

abbrev tree : BPlusTree
tree = record { pool = open_pool file (λ a. blank); root_page_id = pos 1 }

length-file : length file ≡ 4 * page_size
length-file = refl

tree-IsPool : IsPool tree.pool
tree-IsPool = open_pool-IsPool file (λ a. blank) 4 (omega arith) (omega arith) length-file

tree_total : tree.pool.manager.total_pages ≡ 4
unfolding open_pool open_file
tree_total =
    ap (λ m. m.total_pages) (open_file-whole file 4 (omega arith) (omega arith) length-file)

root_is_internal : get_type (node_on (view tree.pool) 1) ≡ internal
unfolding get_type view open_pool open_file disk read_at find
root_is_internal = refl

leaf_follows : get_type (node_on (view tree.pool) 3) ≡ 1
unfolding get_type view open_pool open_file disk read_at find
leaf_follows = refl

abbrev root : Node
root = node_on (view tree.pool) 1

root_count : get_key_count root ≡ 1
unfolding get_key_count view open_pool open_file disk read_at read_short of_le find
root_count = refl

root_key : get_key 0 root ≡ key_of 5
unfolding get_key key_offset get_type view open_pool open_file disk read_at find
root_key = refl

root_child : get_child_page_id 1 root ≡ pos 3
unfolding get_child_page_id read_int view open_pool open_file disk read_at of_le find
root_child = refl

only_one : {A : Type 0} → (i j : ℕ) → i < j → j < get_key_count root → A
only_one i j h l = absurd (omega (arith, root_count))

first : (i : ℕ) → i < get_key_count root → i ≡ 0
first i h = omega (arith, root_count)

root-HasSeparators : HasSeparators root
root-HasSeparators = record {
  whole = λ i h.
      ap (λ k. length (get_key k root).bytes) (first i h) ∙ ap (λ k. length k.bytes) root_key;
  increase = λ i j h l. only_one i j h l;
}

-- 5 is the separator itself: the key belongs to its right.
root-IsChildFor : IsChildFor (key_of 5) root 1
root-IsChildFor = record {
  inside = omega (arith, root_count);
  before = λ i h.
      ap (λ k. greater_equal (key_of 5) (get_key k root)) (below i h)
      ∙ ap (greater_equal (key_of 5)) root_key
      ∙ not_less;
  from = λ i h l. absurd (omega (arith, root_count));
}
  where
    below : (i : ℕ) → i < 1 → i ≡ 0
    below i h = omega arith

    not_less : greater_equal (key_of 5) (key_of 5) ≡ true
    not_less = unfold compare_bytes in refl

leads : LeadsTo (view tree.pool) tree.pool.manager.total_pages (key_of 5) 1 1 3
leads =
    down (omega (arith, tree_total)) root_is_internal root-HasSeparators root-IsChildFor root_child
      (here (omega (arith, tree_total)) (λ e. omega (arith, leaf_follows, e)))

find_leaf-Reached_example :
    (a : Address) × (s : BufferPool) × (find_leaf (key_of 5) tree ≡ ok (a, s))
    × Reached tree.pool 3 a s
find_leaf-Reached_example =
    find_leaf-Reached tree (key_of 5) 1 1 3 tree-IsPool refl refl leads (omega (arith, tree_total))

scan_leaf-is_within_example :
    ((scan_leaf
        (get_key_count two_keys - find_key_index (key_of 5) two_keys)
        (find_key_index (key_of 5) two_keys)
        (key_of 5)
        (key_of 9)
        false
        true
        two_keys).0
      ≡ locations (is_within (key_of 5) (key_of 9) false true) (entries two_keys))
    × ((scan_leaf
            (get_key_count two_keys - find_key_index (key_of 5) two_keys)
            (find_key_index (key_of 5) two_keys)
            (key_of 5)
            (key_of 9)
            false
            true
            two_keys).1
          ≡ true
        → (k : IndexKey) → length k.bytes ≡ 128
        → ((i : ℕ) → i < get_key_count two_keys → greater_equal k (get_key i two_keys) ≡ true)
        → is_within (key_of 5) (key_of 9) false true k ≡ false)
scan_leaf-is_within_example =
    scan_leaf-is_within (key_of 5) (key_of 9) false true two_keys refl refl
      (two_keys-IsLeaf, omega (arith, count), two_keys-IsSorted)
