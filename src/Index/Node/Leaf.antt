-- ===== src/Index/Node/Leaf.antt =====
-- A leaf as the list of its entries: `InsertIntoLeaf` and `DeleteFromLeaf` are the insertion into and
-- the removal from a sorted list.
use akatsuki_db.Base.{
  ℕ, suc, ◌+◌, ◌-◌, ◌≤◌, ◌<◌, ◌^◌, ◌≡◌, refl, sym, ap, ◌∙◌, ◌≢◌, inl, inr, true, false, Bool-cases,
  List, length, eqb_ℤ, ltb, leb, signed, of_le, read_at, arith, leb→le, leb_false→lt, ltb→lt,
  ltb_false→le, pos_part,
}
use akatsuki_db.Storage.Page.{mark_dirty, read_int, read_short}
use akatsuki_db.Index.Key.{IndexKey, greater_equal, equal}
use akatsuki_db.Index.Node.{
  Node, InsertEntry, get_type, get_row_location, key_offset, get_key_count, set_key_count, get_key,
  get_entry, set_entry, find_key_index, shift_right, shift_left, insert_into_leaf, delete_from_leaf,
}
use akatsuki_db.Index.Node.Search.{IsSorted, HasWholeKeys, later_not_equal, find_key_index-IsFirst}
use akatsuki_db.Index.Node.Writes.{IsLeaf, IsEntry}
use akatsuki_db.Index.Node.Slots.{
  get_entry-IsEntry, read_at-set_entry, set_entry-IsLeaf, get_entry-set_entry_self,
  get_entry-set_entry_ne,
}
use akatsuki_db.Index.Node.Shift.{
  HaveSameHeader, shift_right-IsLeaf, shift_left-IsLeaf, get_key_count-set_key_count,
  read_at-set_key_count, set_key_count-IsLeaf, get_entry-set_key_count,
}
use akatsuki_db.Index.Node.Lists.{
  tabulate, tabulate-ext, insert_sorted, remove_first, has_key, insert_sorted-tabulate,
  remove_first-tabulate, has_key-tabulate, remove_first-absent,
}

-- The entries of a leaf as a list.
unfoldable pub entries : Node → List InsertEntry
unfolding tabulate
entries n = tabulate (get_key_count n) (λ i. get_entry i n)

-- A leaf with at most 30 keys that do not fall.
abbrev pub IsSortedLeaf : Node → Type 0
IsSortedLeaf n = IsLeaf n × (get_key_count n ≤ 30) × IsSorted n

pub IsSortedLeaf-HasWholeKeys : (n : Node) → IsSortedLeaf n → HasWholeKeys n
unfolding get_entry
IsSortedLeaf-HasWholeKeys n (node, count, sorted) i h = (get_entry-IsEntry i n (omega arith) node).0

suc-add : (i : ℕ) → suc i ≡ i + 1
suc-add i = omega arith

get_key_count-header : (m n : Node) → HaveSameHeader m n → get_key_count m ≡ get_key_count n
unfolding get_key_count read_short
get_key_count-header m n h = ap (λ bs. pos_part (signed 16 (of_le bs))) (h 1 2 (omega arith))

entries-mark_dirty : (n : Node) → entries (mark_dirty n) ≡ entries n
unfolding entries mark_dirty get_entry get_key get_row_location get_type key_offset read_int
    read_short get_key_count
entries-mark_dirty n = refl

pub entries-set_key_count :
    (count : ℕ) (n : Node)
    → count < 2 ^ 15
    → IsLeaf n
    → entries (set_key_count count n) ≡ tabulate count (λ i. get_entry i n)
unfolding entries
entries-set_key_count count n h node =
    ap (λ c. tabulate c (λ i. get_entry i (set_key_count count n)))
      (get_key_count-set_key_count count n h node)
    ∙ tabulate-ext count _ _ (λ i l. get_entry-set_key_count count n h node i)

-- In a leaf that is not full, with keys that do not fall, `InsertIntoLeaf` puts an entry before the
-- first one whose key is not less and keeps all others in their order; the leaf stays a leaf, with the
-- parent, the neighbours and the page number that it had.
pub insert_into_leaf-insert_sorted :
    (e : InsertEntry) (n : Node)
    → IsSortedLeaf n
    → get_key_count n < 30
    → IsEntry e
    → (entries (insert_into_leaf e n) ≡ insert_sorted e (entries n))
      × IsLeaf (insert_into_leaf e n)
      × ((o k : ℕ)
          → 3 ≤ o
          → o + k ≤ 20
          → read_at o k (insert_into_leaf e n).bytes ≡ read_at o k n.bytes)
unfolding insert_into_leaf entries get_entry mark_dirty
insert_into_leaf-insert_sorted e n (node, count, sorted) room entry =
    let k = find_key_index e.key n in
    let c = get_key_count n in
    let (kc, before, from) =
      find_key_index-IsFirst n e.key (IsSortedLeaf-HasWholeKeys n (node, count, sorted)) entry.0
        sorted in
    let shifted = shift_right (c - k) k n in
    let (leaf1, header1, outside, inside) = shift_right-IsLeaf (c - k) k n (omega arith) node in
    let written = set_entry k e shifted in
    let k30 : k < 30 = omega arith in
    let leaf2 = set_entry-IsLeaf k e shifted k30 leaf1 entry in
    let cw : get_key_count written ≡ c =
      get_key_count-header written n
        (λ o k' h. read_at-set_entry k e shifted k30 leaf1 entry o k' h ∙ header1 o k' h) in
    let total = get_key_count written + 1 in
    let small : total < 2 ^ 15 = omega arith in
    let more : total ≡ suc c = omega arith in
    let listed : entries (insert_into_leaf e n) ≡ tabulate (suc c) (λ i. get_entry i written) =
      entries-mark_dirty (set_key_count total written)
      ∙ entries-set_key_count total written small leaf2
      ∙ ap (λ x. tabulate x (λ i. get_entry i written)) more in
    let kept : (j : ℕ) → k ≢ j → get_entry j written ≡ get_entry j shifted =
      get_entry-set_entry_ne k e shifted k30 leaf1 entry in
    (
      listed
          ∙ sym (
              insert_sorted-tabulate c k e (λ i. get_entry i n) (λ i. get_entry i written) kc before
                from (λ i l. kept i (λ q. omega arith) ∙ outside i (inl (omega arith)))
                (get_entry-set_entry_self k e shifted k30 leaf1 entry)
                (λ i a b.
                  kept (suc i) (λ q. omega arith)
                  ∙ ap (λ x. get_entry x shifted) (suc-add i)
                  ∙ inside i a (omega arith))),
      set_key_count-IsLeaf total written small leaf2,
      λ o k' l h.
          read_at-set_key_count total written small leaf2 o k' (inr l)
          ∙ read_at-set_entry k e shifted k30 leaf1 entry o k' h
          ∙ header1 o k' h,
    )

less_not_equal : (a b : IndexKey) → greater_equal a b ≡ false → equal a b ≡ false
unfolding eqb_ℤ
less_not_equal a b h = ground arith

-- A key that is at its lower bound, and one that is not.
module _ (key : IndexKey) (n : Node) (sorted_leaf : IsSortedLeaf n) (sized : length key.bytes ≡ 128)
    (inside : find_key_index key n < get_key_count n) where
  abbrev found : ℕ
  found = find_key_index key n

  abbrev shifted_leaf : Node
  shifted_leaf = shift_left (get_key_count n - 1 - found) found n

  absent :
      equal (get_key found n) key ≡ false
      → (has_key key (entries n) ≡ false) × (remove_first key (entries n) ≡ entries n)
  unfolding entries get_entry
  absent q =
      let (node, count, sorted) = sorted_leaf in
      let whole = IsSortedLeaf-HasWholeKeys n sorted_leaf in
      let (kc, before, from) = find_key_index-IsFirst n key whole sized sorted in
      remove_first-absent (get_key_count n) key (λ i. get_entry i n)
        (λ i l. elim (Bool-cases (ltb i found)) [
          | inl x ↦ less_not_equal (get_key i n) key (before i (ltb→lt i found x))
          | inr x ↦
              later_not_equal (get_key found n).bytes (get_key i n).bytes key.bytes
                (whole found inside ∙ sym sized) (whole i l ∙ sym sized)
                (sorted found i (ltb_false→le i found x) l) (from found (omega arith) inside) q
        ])

  taken_out :
      equal (get_key found n) key ≡ true
      → (has_key key (entries n) ≡ true)
        × (entries (set_key_count (get_key_count shifted_leaf - 1) shifted_leaf)
            ≡ remove_first key (entries n))
        × IsLeaf (set_key_count (get_key_count shifted_leaf - 1) shifted_leaf)
  unfolding entries get_entry
  taken_out q =
      let c = get_key_count n in
      let (node, count, sorted) = sorted_leaf in
      let (kc, before, from) =
        find_key_index-IsFirst n key (IsSortedLeaf-HasWholeKeys n sorted_leaf) sized sorted in
      let (leaf1, header, low, moved) =
        shift_left-IsLeaf (c - 1 - found) found n (omega arith) node in
      let cs : get_key_count shifted_leaf ≡ c = get_key_count-header shifted_leaf n header in
      let total = get_key_count shifted_leaf - 1 in
      let small : total < 2 ^ 15 = omega arith in
      let total' : total ≡ c - 1 = omega arith in
      let whole_list : suc (c - 1) ≡ c = omega arith in
      (
        has_key-tabulate c found key (λ i. get_entry i n) inside q,
        entries-set_key_count total shifted_leaf small leaf1
            ∙ ap (λ x. tabulate x (λ i. get_entry i shifted_leaf)) total'
            ∙ sym (
                remove_first-tabulate (c - 1) found key (λ i. get_entry i n)
                  (λ i. get_entry i shifted_leaf) (omega arith)
                  (λ i l. less_not_equal (get_key i n) key (before i l)) q low
                  (λ i a b. moved i a (omega arith) ∙ ap (λ x. get_entry x n) (sym (suc-add i))))
            ∙ ap (λ x. remove_first key (tabulate x (λ i. get_entry i n))) whole_list,
        set_key_count-IsLeaf total shifted_leaf small leaf1,
      )

-- `DeleteFromLeaf` says whether the leaf has the key, and takes out the first entry that has it; the
-- others stay in their order, where the keys of the leaf do not fall and there are at most 30.
pub delete_from_leaf-remove_first :
    (key : IndexKey) (n : Node)
    → IsSortedLeaf n
    → length key.bytes ≡ 128
    → ((delete_from_leaf key n).0 ≡ has_key key (entries n))
      × (entries (delete_from_leaf key n).1 ≡ remove_first key (entries n))
      × IsLeaf (delete_from_leaf key n).1
unfolding delete_from_leaf entries get_entry
delete_from_leaf-remove_first key n sorted_leaf sized =
    let (node, count, sorted) = sorted_leaf in
    let k = find_key_index key n in
    let c = get_key_count n in
    elim (Bool-cases (leb c k)) [
      | inl e ↦
          let e' = leb→le c k e in
          let (kc, before, from) =
            find_key_index-IsFirst n key (IsSortedLeaf-HasWholeKeys n sorted_leaf) sized sorted in
          let (a, b) =
            remove_first-absent c key (λ i. get_entry i n)
              (λ i l. less_not_equal (get_key i n) key (before i (omega arith))) in
          rw e (sym a, sym b, node)
      | inr e ↦
          let e' = leb_false→lt c k e in
          elim (Bool-cases (equal (get_key k n) key)) [
            | inl q ↦
                let (a, b, l) = taken_out key n sorted_leaf sized e' q in rw (e, q) (sym a, b, l)
            | inr q ↦
                let (a, b) = absent key n sorted_leaf sized e' q in rw (e, q) (sym a, sym b, node)
          ]
    ]
