-- ===== src/Index/Node/Steps.antt =====
-- A leaf stays sorted under any insertions and deletions.
use akatsuki_db.Base.{◌≤◌, ◌<◌, ◌≡◌, sym, ap, ◌∙◌, List, length, arith}
use mathlib.Core.Path.{subst}
use akatsuki_db.Index.Key.{IndexKey}
use akatsuki_db.Index.Node.{
  Node, InsertEntry, get_key_count, get_entry, insert_into_leaf, delete_from_leaf,
}
use akatsuki_db.Index.Node.Writes.{IsLeaf, IsEntry}
use akatsuki_db.Index.Node.Slots.{get_entry-IsEntry}
use akatsuki_db.Index.Node.Lists.{insert_sorted, remove_first}
use akatsuki_db.Index.Node.Leaf.{
  IsSortedLeaf, entries, insert_into_leaf-insert_sorted, delete_from_leaf-remove_first,
}
use akatsuki_db.Index.Node.Ordered.{
  AreSorted, HaveWholeKeys, insert_sorted-AreSorted, remove_first-AreSorted, length-insert_sorted,
  length-remove_first, length-tabulate, tabulate-HaveWholeKeys, tabulate-AreSorted,
  AreSorted-tabulate,
}

-- What a leaf's list says of the leaf.
IsSortedLeaf-entries :
    (n : Node) (es : List InsertEntry)
    → IsLeaf n
    → entries n ≡ es
    → length es ≤ 30
    → AreSorted es
    → IsSortedLeaf n × (get_key_count n ≡ length es)
unfolding entries get_entry
IsSortedLeaf-entries n es node e l s =
    let count : get_key_count n ≡ length es =
      sym (length-tabulate (get_key_count n) (λ i. get_entry i n)) ∙ ap length e in
    (
      (
        node,
        omega arith,
        AreSorted-tabulate (get_key_count n) (λ i. get_entry i n) (subst AreSorted (sym e) s),
      ),
      count,
    )

entries-AreSorted :
    (n : Node)
    → IsSortedLeaf n
    → AreSorted (entries n) × HaveWholeKeys (entries n) × (length (entries n) ≡ get_key_count n)
unfolding entries get_entry
entries-AreSorted n (node, count, sorted) = (
  tabulate-AreSorted (get_key_count n) (λ i. get_entry i n) sorted,
  tabulate-HaveWholeKeys (get_key_count n) (λ i. get_entry i n)
      (λ i l. (get_entry-IsEntry i n (omega arith) node).0),
  length-tabulate (get_key_count n) (λ i. get_entry i n),
)

-- Leaves that come from one without keys by insertions, where they are not full, and deletions.
pub data IsMade : Node → Type 0 where
  without_keys : {n : Node} → IsLeaf n → get_key_count n ≡ 0 → IsMade n
  inserted :
      {n : Node} (e : InsertEntry)
      → IsMade n
      → get_key_count n < 30
      → IsEntry e
      → IsMade (insert_into_leaf e n)
  deleted :
      {n : Node} (key : IndexKey)
      → IsMade n
      → length key.bytes ≡ 128
      → IsMade (delete_from_leaf key n).1

-- A leaf that comes from a whole one without keys by any insertions of whole entries, never into a
-- full leaf, and any deletions, is a leaf with at most 30 keys that do not fall.
pub IsMade-IsSortedLeaf : (n : Node) → IsMade n → IsSortedLeaf n
IsMade-IsSortedLeaf n (without_keys node none) =
    (node, omega (arith, none), λ i j a b. absurd (omega (arith, none)))
IsMade-IsSortedLeaf n (inserted {n = m} e h room entry) =
    let before = IsMade-IsSortedLeaf m h in
    let (s, w, l) = entries-AreSorted m before in
    let (list, node, _) = insert_into_leaf-insert_sorted e m before room entry in
    let l' = length-insert_sorted e (entries m) in
    (IsSortedLeaf-entries (insert_into_leaf e m) (insert_sorted e (entries m)) node list
      (omega arith) (insert_sorted-AreSorted e (entries m) entry.0 w s)).0
IsMade-IsSortedLeaf n (deleted {n = m} key h sized) =
    let before = IsMade-IsSortedLeaf m h in
    let (s, w, l) = entries-AreSorted m before in
    let (_, list, node) = delete_from_leaf-remove_first key m before sized in
    let l' = length-remove_first key (entries m) in
    let (_, count, _) = before in
    (IsSortedLeaf-entries (delete_from_leaf key m).1 (remove_first key (entries m)) node list
      (omega arith) (remove_first-AreSorted key (entries m) s)).0
