-- ===== src/Index/Tree/Scan.antt =====
-- The scan of one leaf by `RangeQuery`, with its early return, against the interval that is asked for.
use akatsuki_db.Base.{
  ℕ, zero, suc, ◌+◌, ◌-◌, ◌≤◌, ◌<◌, ◌≡◌, refl, sym, ap, ◌∙◌, Bool, true, false, not, ◌&&◌, ◌||◌,
  Bool-cases, inl, inr, [], ◌∷◌, length, arith, if◌then◌else◌,
}
use akatsuki_db.Index.Key.{IndexKey, greater_equal, less, greater, equal}
use akatsuki_db.Index.Node.{
  Node, InsertEntry, get_key_count, get_key, get_entry, get_row_location, find_key_index,
}
use akatsuki_db.Index.Node.Search.{IsSorted, HasWholeKeys, find_key_index-IsFirst}
use akatsuki_db.Index.Node.Lists.{tabulate, tabulate-ext}
use akatsuki_db.Index.Node.Leaf.{IsSortedLeaf, IsSortedLeaf-HasWholeKeys, entries}
use akatsuki_db.Index.Tree.Query.{scan_leaf}
use akatsuki_db.Index.Tree.Interval.{
  is_within, locations, is_beyond, is_beyond_up, first_of, second_of, ended, goes_on,
}

module _ (start end : IndexKey) (start_open end_open : Bool) (ls : length start.bytes ≡ 128)
    (le : length end.bytes ≡ 128) where
  abbrev within : IndexKey → Bool
  within = is_within start end start_open end_open

  -- What lies beyond is not in the interval, nor what lies before.
  beyond_not-is_within : (k : IndexKey) → is_beyond end end_open le k ≡ true → within k ≡ false
  unfolding is_within is_beyond
  beyond_not-is_within k b =
      last (not (less k start)) (not (start_open && equal k start))
        (greater k end || end_open && equal k end) b
    where
      last : (a b c : Bool) → c ≡ true → (a && b && not c) ≡ false
      last a b c h = ground arith

  before_not-is_within : (k : IndexKey) → greater_equal k start ≡ false → within k ≡ false
  unfolding is_within
  before_not-is_within k h =
      first (greater_equal k start) (not (start_open && equal k start))
        (not (greater k end || end_open && equal k end)) h
    where
      first : (a b c : Bool) → a ≡ false → (a && b && c) ≡ false
      first a b c h = ground arith

  inside-is_within :
      (k : IndexKey)
      → greater_equal k start ≡ true
      → is_beyond end end_open le k ≡ false
      → within k ≡ not (start_open && equal k start)
  unfolding is_within is_beyond
  inside-is_within k g b =
      middle (greater_equal k start) (not (start_open && equal k start))
        (greater k end || end_open && equal k end) g b
    where
      middle : (a b c : Bool) → a ≡ true → c ≡ false → (a && b && not c) ≡ b
      middle a b c h k = ground arith

  locations-none :
      (m : ℕ) (f : ℕ → InsertEntry)
      → ((i : ℕ) → i < m → within (f i).key ≡ false)
      → locations within (tabulate m f) ≡ []
  unfolding locations tabulate
  locations-none zero f h = refl
  locations-none (suc m) f h =
      rw (h 0 (omega arith)) (locations-none m (λ i. f (suc i)) (λ i l. h (suc i) (omega arith)))

  locations-behind :
      (k m : ℕ) (f : ℕ → InsertEntry)
      → ((i : ℕ) → i < k → within (f i).key ≡ false)
      → locations within (tabulate (k + m) f) ≡ locations within (tabulate m (λ j. f (k + j)))
  unfolding locations tabulate
  locations-behind zero m f h =
      ap (λ x. locations within (tabulate x f)) (omega arith)
      ∙ ap (locations within) (tabulate-ext m f (λ j. f (0 + j)) (λ j l. ap f (omega arith)))
  locations-behind (suc k) m f h =
      ap (λ x. locations within (tabulate x f)) (sucs k m)
      ∙ rw (h 0 (omega arith)) (
          locations-behind k m (λ i. f (suc i)) (λ i l. h (suc i) (omega arith))
          ∙ ap (locations within) (
              tabulate-ext m (λ j. f (suc (k + j))) (λ j. f (suc k + j))
                (λ j l. ap f (sym (sucs k j)))))
    where
      sucs : (k m : ℕ) → suc k + m ≡ suc (k + m)
      sucs k m = omega arith

  module _ (n : Node) (sorted : IsSorted n) (whole : HasWholeKeys n) where
    scan_leaf-locations :
        (m index : ℕ)
        → index + m ≡ get_key_count n
        → ((i : ℕ) → index ≤ i → i < get_key_count n → greater_equal (get_key i n) start ≡ true)
        → (scan_leaf m index start end start_open end_open n).0
          ≡ locations within (tabulate m (λ j. get_entry (index + j) n))
    unfolding scan_leaf locations tabulate get_entry is_beyond
    scan_leaf-locations zero index e from = refl
    scan_leaf-locations (suc m) index e from =
        let k = get_key index n in
        let at = get_row_location index n in
        let later = scan_leaf m (index + 1) start end start_open end_open n in
        let g : ℕ → InsertEntry = λ j. get_entry (index + suc j) n in
        let rest = locations within (tabulate m g) in
        let here : locations within (tabulate (suc m) (λ j. get_entry (index + j) n))
            ≡ (if within k then at ∷ rest else rest) =
          ap (λ x. if within (get_key x n) then get_row_location x n ∷ rest else rest)
            (zero_right index) in
        first_of (greater k end || end_open && equal k end) (start_open && equal k start) later.0
          later.1 at
        ∙ elim (Bool-cases (is_beyond end end_open le k)) [
          | inl b ↦
              let none_left = locations-none m g (λ i l.
                beyond_not-is_within (get_key (index + suc i) n) (
                  is_beyond_up end end_open le k (get_key (index + suc i) n)
                    (whole index (omega arith)) (whole (index + suc i) (omega arith))
                    (sorted index (index + suc i) (omega arith) (omega arith)) b)) in
              ended (greater k end || end_open && equal k end) (start_open && equal k start)
                (within k) later.0 rest at b (beyond_not-is_within k b) none_left
          | inr b ↦
              let more =
                scan_leaf-locations m (index + 1) (omega arith) (λ i a l. from i (omega arith) l)
                ∙ ap (locations within) (
                    tabulate-ext m (λ j. get_entry (index + 1 + j) n) g
                      (λ j l. ap (λ x. get_entry x n) (step index j))) in
              goes_on (greater k end || end_open && equal k end) (start_open && equal k start)
                (within k) later.0 rest at b
                (inside-is_within k (from index (omega arith) (omega arith)) b) more
        ]
        ∙ sym here
      where
        zero_right : (i : ℕ) → i + 0 ≡ i
        zero_right i = omega arith

        step : (i j : ℕ) → i + 1 + j ≡ i + suc j
        step i j = omega arith

    -- After an early return no key that is not less than those of the leaf is in the interval.
    scan_leaf-stopped :
        (m index : ℕ)
        → index + m ≡ get_key_count n
        → (scan_leaf m index start end start_open end_open n).1 ≡ true
        → (k : IndexKey) → length k.bytes ≡ 128
        → ((i : ℕ) → i < get_key_count n → greater_equal k (get_key i n) ≡ true)
        → within k ≡ false
    unfolding scan_leaf is_beyond
    scan_leaf-stopped zero index e stop k lk above = absurd (ground arith)
    scan_leaf-stopped (suc m) index e stop k lk above =
        let later = scan_leaf m (index + 1) start end start_open end_open n in
        let at = get_row_location index n in
        elim (Bool-cases (is_beyond end end_open le (get_key index n))) [
          | inl b ↦ beyond_not-is_within k (
              is_beyond_up end end_open le (get_key index n) k (whole index (omega arith)) lk
                (above index (omega arith)) b)
          | inr b ↦
              scan_leaf-stopped m (index + 1) (omega arith)
                (sym (
                    second_of
                      (greater (get_key index n) end || end_open && equal (get_key index n) end)
                      (start_open && equal (get_key index n) start) later.0 later.1 at b)
                  ∙ stop)
                k lk above
        ]

-- In a leaf with at most 30 keys that do not fall, what `RangeQuery` takes from where the start belongs
-- are the rows of all entries of the leaf whose keys are in the interval, in order; and where it
-- returns early, no key that is not less than those of the leaf is in the interval.
pub scan_leaf-is_within :
    (start end : IndexKey) (start_open end_open : Bool) (n : Node)
    → length start.bytes ≡ 128
    → length end.bytes ≡ 128
    → IsSortedLeaf n
    → ((scan_leaf
          (get_key_count n - find_key_index start n)
          (find_key_index start n)
          start
          end
          start_open
          end_open
          n).0
        ≡ locations (is_within start end start_open end_open) (entries n))
      × ((scan_leaf
              (get_key_count n - find_key_index start n)
              (find_key_index start n)
              start
              end
              start_open
              end_open
              n).1
            ≡ true
          → (k : IndexKey) → length k.bytes ≡ 128
          → ((i : ℕ) → i < get_key_count n → greater_equal k (get_key i n) ≡ true)
          → is_within start end start_open end_open k ≡ false)
unfolding entries get_entry
scan_leaf-is_within start end start_open end_open n ls le sorted_leaf =
    let whole = IsSortedLeaf-HasWholeKeys n sorted_leaf in
    let (node, bound, sorted) = sorted_leaf in
    let k = find_key_index start n in
    let count = get_key_count n in
    let (kc, before, from) = find_key_index-IsFirst n start whole ls sorted in
    let all : k + (count - k) ≡ count = omega arith in
    (
      scan_leaf-locations start end start_open end_open ls le n sorted whole (count - k) k all from
          ∙ sym (
              locations-behind start end start_open end_open ls le k (count - k)
                (λ i. get_entry i n)
                (λ i l.
                  before_not-is_within start end start_open end_open ls le (get_key i n)
                    (before i l)))
          ∙ ap
              (λ x.
                locations (is_within start end start_open end_open)
                  (tabulate x (λ i. get_entry i n)))
              all,
      scan_leaf-stopped start end start_open end_open ls le n sorted whole (count - k) k all,
    )
