-- ===== src/Index/Node/Search.antt =====
-- `FindKeyIndex` finds the first key that is not less than the one asked for.
use akatsuki_db.Base.{
  ℕ, zero, suc, ◌+◌, ◌-◌, ◌/◌, ◌≤◌, ◌<◌, ◌≡◌, refl, ap, ◌∙◌, inl, inr, Bool, true, false,
  Bool-cases, not_both, [], ◌∷◌, Bytes, pos, length, ltb, eqb_ℤ, ltb→lt, ltb_false→le, arith,
}
use mathlib.Core.Path.{subst}
use akatsuki_db.Index.Key.{IndexKey, mk_key, compare_bytes, greater_equal, equal}
use akatsuki_db.Index.Key.Order.{compare_bytes_self}
use akatsuki_db.Index.Node.{Node, get_key, get_key_count, search_loop, find_key_index}

-- Keys of one length: not being less is transitive.
pub greater_equal_trans :
    (s t u : Bytes)
    → length s ≡ length t
    → length t ≡ length u
    → greater_equal (mk_key s) (mk_key t) ≡ true
    → greater_equal (mk_key t) (mk_key u) ≡ true
    → greater_equal (mk_key s) (mk_key u) ≡ true
unfolding compare_bytes
greater_equal_trans [] t u e f h k = refl
greater_equal_trans (a ∷ s) [] u e f h k = absurd (omega arith)
greater_equal_trans (a ∷ s) (b ∷ t) [] e f h k = absurd (omega arith)
greater_equal_trans (a ∷ s) (b ∷ t) (c ∷ u) e f h k =
    let ih = greater_equal_trans s t u (omega arith) (omega arith) in ground arith

pub greater_equal_antisym :
    (s t : Bytes)
    → length s ≡ length t
    → greater_equal (mk_key s) (mk_key t) ≡ true
    → greater_equal (mk_key t) (mk_key s) ≡ true
    → s ≡ t
unfolding compare_bytes
greater_equal_antisym [] [] e h k = refl
greater_equal_antisym [] (b ∷ t) e h k = absurd (omega arith)
greater_equal_antisym (a ∷ s) [] e h k = absurd (omega arith)
greater_equal_antisym (a ∷ s) (b ∷ t) e h k =
    let ih = greater_equal_antisym s t (omega arith) in
    let q : a ≡ b = ground arith in
    let r : s ≡ t = ground arith in ap (λ x. x ∷ s) q ∙ ap (λ xs. b ∷ xs) r

pub equal-bytes : (s t : Bytes) → length s ≡ length t → equal (mk_key s) (mk_key t) ≡ true → s ≡ t
unfolding compare_bytes eqb_ℤ
equal-bytes [] [] e h = refl
equal-bytes [] (b ∷ t) e h = absurd (omega arith)
equal-bytes (a ∷ s) [] e h = absurd (omega arith)
equal-bytes (a ∷ s) (b ∷ t) e h =
    let ih = equal-bytes s t (omega arith) in
    let q : a ≡ b = ground arith in
    let r : s ≡ t = ground arith in ap (λ x. x ∷ s) q ∙ ap (λ xs. b ∷ xs) r

-- A key that is not less than one which is greater than `key` is not equal to `key`.
pub later_not_equal :
    (a b key : Bytes)
    → length a ≡ length key
    → length b ≡ length key
    → greater_equal (mk_key b) (mk_key a) ≡ true
    → greater_equal (mk_key a) (mk_key key) ≡ true
    → equal (mk_key a) (mk_key key) ≡ false
    → equal (mk_key b) (mk_key key) ≡ false
unfolding eqb_ℤ
later_not_equal a b key la lb h k ne = elim (Bool-cases (equal (mk_key b) (mk_key key))) [
  | inr e ↦ e
  | inl e ↦
      let same = equal-bytes b key lb e in
      let back =
        greater_equal_antisym a key la k
          (subst (λ x. greater_equal (mk_key x) (mk_key a) ≡ true) same h) in
      absurd (
        not_both ne (
          ap (λ x. equal (mk_key x) (mk_key key)) back
          ∙ ap (λ z. eqb_ℤ z (pos 0)) (compare_bytes_self key)))
]

-- Where the tests from `left` on are false and then true, the loop finds the first that is true.
module _ (not_less : ℕ → Bool) (count : ℕ)
    (grows : (i j : ℕ) → i ≤ j → j < count → not_less i ≡ true → not_less j ≡ true) where
  abbrev pub IsFirst : ℕ → ℕ → ℕ → Type 0
  IsFirst left right k =
      (left ≤ k)
      × (k ≤ right)
      × ((i : ℕ) → left ≤ i → i < k → not_less i ≡ false)
      × ((i : ℕ) → k ≤ i → i < right → not_less i ≡ true)

  search_loop-IsFirst :
      (fuel left right : ℕ)
      → left ≤ right
      → right ≤ count
      → right - left < fuel
      → IsFirst left right (search_loop not_less fuel left right right)
  unfolding search_loop
  search_loop-IsFirst zero left right l r f = absurd (omega arith)
  search_loop-IsFirst (suc fuel) left right l r f = elim (Bool-cases (ltb left right)) [
    | inr e ↦
        let q = ltb_false→le left right e in
        rw e (l, (omega arith), (λ i a b. absurd (omega arith)), (λ i a b. absurd (omega arith)))
    | inl e ↦
        let q = ltb→lt left right e in
        let mid = (left + right - 1) / 2 in
        elim (Bool-cases (not_less mid)) [
          | inl t ↦
              let (k1, k2, before, from) =
                search_loop-IsFirst fuel left mid (omega arith) (omega arith) (omega arith) in
              rw (e, t)
                (
                  k1,
                  omega arith,
                  before,
                  λ i a b. elim (Bool-cases (ltb i mid)) [
                    | inl c ↦ from i a (ltb→lt i mid c)
                    | inr c ↦ grows mid i (ltb_false→le i mid c) (omega arith) t
                  ],
                )
          | inr t ↦
              let (k1, k2, before, from) =
                search_loop-IsFirst fuel (mid + 1) right (omega arith) r (omega arith) in
              rw (e, t)
                (
                  omega arith,
                  k2,
                  (λ i a b. elim (Bool-cases (ltb mid i)) [
                    | inl c ↦ before i (let c' = ltb→lt mid i c in omega arith) b
                    | inr c ↦ elim (Bool-cases (not_less i)) [
                      | inl u ↦
                          absurd (not_both t (grows i mid (ltb_false→le mid i c) (omega arith) u))
                      | inr u ↦ u
                    ]
                  ]),
                  from,
                )
        ]
  ]

-- The keys of a node do not fall, and are whole.
abbrev pub IsSorted : Node → Type 0
IsSorted n =
    (i j : ℕ) → i ≤ j → j < get_key_count n → greater_equal (get_key j n) (get_key i n) ≡ true

abbrev pub HasWholeKeys : Node → Type 0
HasWholeKeys n = (i : ℕ) → i < get_key_count n → length (get_key i n).bytes ≡ 128

-- In a node whose keys do not fall, `FindKeyIndex` gives the index, at most the number of keys, of
-- which the keys before it are less than the one asked for, and the keys from it on are not.
pub find_key_index-IsFirst :
    (n : Node) (key : IndexKey)
    → HasWholeKeys n
    → length key.bytes ≡ 128
    → IsSorted n
    → (find_key_index key n ≤ get_key_count n)
      × ((i : ℕ) → i < find_key_index key n → greater_equal (get_key i n) key ≡ false)
      × ((i : ℕ)
          → find_key_index key n ≤ i
          → i < get_key_count n
          → greater_equal (get_key i n) key ≡ true)
unfolding find_key_index
find_key_index-IsFirst n key whole sized sorted =
    let count = get_key_count n in
    let (_, k, before, from) =
      search_loop-IsFirst (λ i. greater_equal (get_key i n) key) count grows (count + 1) 0 count
        (omega arith) (omega arith) (omega arith) in
    (k, (λ i h. before i (omega arith) h), from)
  where
    grows :
        (i j : ℕ)
        → i ≤ j
        → j < get_key_count n
        → greater_equal (get_key i n) key ≡ true
        → greater_equal (get_key j n) key ≡ true
    grows i j l h e =
        let wi = whole i (omega arith) in
        let wj = whole j h in
        greater_equal_trans (get_key j n).bytes (get_key i n).bytes key.bytes (omega arith)
          (omega arith) (sorted i j l h) e
