-- ===== src/Index/Tree/Child.antt =====
-- Which child of an internal node a key belongs to, and that the search of `FindLeaf` takes that one.
use akatsuki_db.Base.{
  ℕ, zero, suc, ◌+◌, ◌≤◌, ◌<◌, ◌≡◌, sym, ap, ◌∙◌, ◌||◌, not, true, false, Bool-cases, not_both, inl,
  inr, length, pos, ltb, ltb→lt, ltb_false→le, ◌==◌, ==_iff, arith, eqb_ℤ, ltb_ℤ,
}
use mathlib.Core.Path.{subst}
use akatsuki_db.Index.Key.{IndexKey, mk_key, greater_equal, greater, equal}
use akatsuki_db.Index.Key.Order.{compare_bytes_self}
use akatsuki_db.Index.Node.{Node, get_key, get_key_count, get_child_page_id, find_key_index}
use akatsuki_db.Index.Node.Search.{
  HasWholeKeys, IsSorted, greater_equal_antisym, equal-bytes, find_key_index-IsFirst,
}
use akatsuki_db.Index.Tree.{child_for}
use akatsuki_db.Index.Tree.Interval.{greater_flip, greater_or_equal}

-- The separators of an internal node are whole keys, each greater than those before it.
pub record HasSeparators (n : Node) : Type 0 where
  pub whole : HasWholeKeys n
  pub increase :
      (i j : ℕ) → i < j → j < get_key_count n → greater_equal (get_key i n) (get_key j n) ≡ false

-- Child `c` is the one that `key` belongs to: the separators before the child are not greater than
-- the key, and those from the child on are.
pub record IsChildFor (key : IndexKey) (n : Node) (c : ℕ) : Type 0 where
  pub inside : c ≤ get_key_count n
  pub before : (i : ℕ) → i < c → greater_equal key (get_key i n) ≡ true
  pub from : (i : ℕ) → c ≤ i → i < get_key_count n → greater_equal key (get_key i n) ≡ false

module _ (a b : IndexKey) (sized : length a.bytes ≡ length b.bytes) where
  greater_equal_total : greater_equal a b ≡ false → greater_equal b a ≡ true
  greater_equal_total h =
      let g : greater b a ≡ true = greater_flip b.bytes a.bytes (sym sized) ∙ ap not h in
      sym (greater_or_equal b a) ∙ ap (λ x. x || equal b a) g

  equal-key : equal a b ≡ true → a ≡ b
  equal-key h = ap mk_key (equal-bytes a.bytes b.bytes sized h)

  equal_of_greater_equal : greater_equal a b ≡ true → greater_equal b a ≡ true → equal a b ≡ true
  unfolding eqb_ℤ
  equal_of_greater_equal h k =
      let e : a ≡ b = ap mk_key (greater_equal_antisym a.bytes b.bytes sized h k) in
      subst (λ x. equal x b ≡ true) (sym e) (ap (λ z. eqb_ℤ z (pos 0)) (compare_bytes_self b.bytes))

greater_equal_self : (a : IndexKey) → greater_equal a a ≡ true
greater_equal_self a = ap (λ z. not (ltb_ℤ z (pos 0))) (compare_bytes_self a.bytes)

module _ (key : IndexKey) (n : Node) (c : ℕ) (sized : length key.bytes ≡ 128) (S : HasSeparators n)
    (C : IsChildFor key n c) where
  sorted : IsSorted n
  sorted i j h l = elim (Bool-cases (ltb i j)) [
    | inl e ↦
        let lt = ltb→lt i j e in
        greater_equal_total (get_key i n) (get_key j n)
          (S.whole i (omega arith) ∙ sym (S.whole j l)) (S.increase i j lt l)
    | inr e ↦
        let q : i ≡ j = let le = ltb_false→le i j e in omega arith in
        subst (λ k. greater_equal (get_key j n) (get_key k n) ≡ true) (sym q)
          (greater_equal_self (get_key j n))
  ]

  -- A key is not less than a separator, or the separator is not less than it.
  one_way :
      (i : ℕ)
      → i < get_key_count n
      → greater_equal (get_key i n) key ≡ false
      → greater_equal key (get_key i n) ≡ true
  one_way i h e = greater_equal_total (get_key i n) key (S.whole i h ∙ sym sized) e

  not_after : (k : ℕ) → k < get_key_count n → greater_equal key (get_key k n) ≡ true → k < c
  not_after k h e = elim (Bool-cases (ltb k c)) [
    | inl l ↦ ltb→lt k c l
    | inr l ↦ absurd (not_both (C.from k (ltb_false→le k c l) h) e)
  ]

  not_before : (k : ℕ) → greater_equal key (get_key k n) ≡ false → c ≤ k
  not_before k e = elim (Bool-cases (ltb k c)) [
    | inl l ↦ absurd (not_both e (C.before k (ltb→lt k c l)))
    | inr l ↦ ltb_false→le k c l
  ]

  -- The search passes no separator that is greater than the key.
  after_search :
      (k : ℕ)
      → k ≤ get_key_count n
      → ((i : ℕ) → i < k → greater_equal (get_key i n) key ≡ false)
      → k ≤ c
  after_search zero h before = omega arith
  after_search (suc k) h before = not_after k h (one_way k h (before k (omega arith)))

  -- At a separator that equals the key the child is the next one.
  at_equal : (k : ℕ) → k < get_key_count n → equal (get_key k n) key ≡ true → c ≡ k + 1
  at_equal k h e =
      let same = equal-key (get_key k n) key (S.whole k h ∙ sym sized) e in
      let low = not_after k h (
        subst (λ x. greater_equal x (get_key k n) ≡ true) same
          (greater_equal_self (get_key k n))) in
      elim (Bool-cases (ltb (k + 1) c)) [
        | inr l ↦ let high = ltb_false→le (k + 1) c l in omega arith
        | inl l ↦
            let high = ltb→lt (k + 1) c l in
            let below : k + 1 < get_key_count n = omega (arith, C.inside) in
            let less = S.increase k (k + 1) (omega arith) below in
            absurd (
              not_both (subst (λ x. greater_equal x (get_key (k + 1) n) ≡ false) same less)
                (C.before (k + 1) high))
      ]

  -- At a separator that is greater than the key the child is the one before it.
  at_greater :
      (k : ℕ)
      → k < get_key_count n
      → k ≤ c
      → greater_equal (get_key k n) key ≡ true
      → equal (get_key k n) key ≡ false
      → c ≡ k
  at_greater k h low e ne = elim (Bool-cases (ltb k c)) [
    | inr l ↦ let high = ltb_false→le k c l in omega arith
    | inl l ↦
        let same =
          equal_of_greater_equal (get_key k n) key (S.whole k h ∙ sym sized) e
            (C.before k (ltb→lt k c l)) in
        absurd (not_both ne same)
  ]

  -- The search goes to the child that the key belongs to.
  pub child_for-IsChildFor : child_for key n ≡ get_child_page_id c n
  unfolding child_for
  child_for-IsChildFor =
      let k = find_key_index key n in
      let (inside, before, from) = find_key_index-IsFirst n key S.whole sized sorted in
      let low = after_search k inside before in
      elim (Bool-cases (k == get_key_count n)) [
        | inl e ↦
            let end = (==_iff k (get_key_count n)).0 e in
            let q : k ≡ c = omega (arith, C.inside) in rw e (ap (λ i. get_child_page_id i n) q)
        | inr e ↦
            let h : k < get_key_count n = ground arith in
            elim (Bool-cases (equal (get_key k n) key)) [
              | inl s ↦ rw (e, s) (ap (λ i. get_child_page_id i n) (sym (at_equal k h s)))
              | inr s ↦
                  rw (e, s)
                    (ap (λ i. get_child_page_id i n)
                      (sym (at_greater k h low (from k (omega arith) h) s)))
            ]
      ]
