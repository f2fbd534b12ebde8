-- ===== src/Index/Node/Shift.antt =====
-- The loops that move the entries of a leaf by one, and the number of keys.
use akatsuki_db.Base.{
  ℕ, zero, suc, ◌+◌, ◌≤◌, ◌<◌, ◌^◌, ◌≡◌, refl, sym, ap, ◌∙◌, ◌≢◌, ◌⊎◌, inl, inr, Bool-cases, pos,
  length, ltb, bits_of, le_bytes, get_or, read_at, arith, ltb→lt, ltb_false→le, length-write_at,
  length-le_bytes, pos_part,
}
use mathlib.Core.Path.{subst}
use akatsuki_db.Storage.Page.{mark_dirty, write_short}
use akatsuki_db.Storage.Page.Header.{Apart-read, read_short-write_short_self}
use akatsuki_db.Index.Node.{
  Node, get_type, get_key_count, set_key_count, get_entry, set_entry, copy_entry, shift_right,
  shift_left,
}
use akatsuki_db.Index.Node.Writes.{IsLeaf}
use akatsuki_db.Index.Node.Slots.{
  get_entry-IsEntry, read_at-set_entry, set_entry-IsLeaf, get_entry-set_entry_self,
  get_entry-set_entry_ne, copy_entry-set_entry, get_entry-same,
}

-- The bytes of the header agree.
abbrev pub HaveSameHeader : Node → Node → Type 0
HaveSameHeader m n = (o k : ℕ) → o + k ≤ 20 → read_at o k m.bytes ≡ read_at o k n.bytes

module _ (from to : ℕ) (n : Node) (f : from < 30) (t : to < 30) (differ : from ≢ to)
    (node : IsLeaf n) where
  copied : copy_entry from to n ≡ set_entry to (get_entry from n) n
  copied = copy_entry-set_entry from to n f differ node

  copy_entry-IsLeaf : IsLeaf (copy_entry from to n)
  copy_entry-IsLeaf =
      subst IsLeaf (sym copied)
        (set_entry-IsLeaf to (get_entry from n) n t node (get_entry-IsEntry from n f node))

  copy_entry-header : HaveSameHeader (copy_entry from to n) n
  copy_entry-header o k h =
      ap (λ m. read_at o k m.bytes) copied
      ∙ read_at-set_entry to (get_entry from n) n t node (get_entry-IsEntry from n f node) o k h

  pub get_entry-copy_entry_self : get_entry to (copy_entry from to n) ≡ get_entry from n
  get_entry-copy_entry_self =
      ap (get_entry to) copied
      ∙ get_entry-set_entry_self to (get_entry from n) n t node (get_entry-IsEntry from n f node)

  pub get_entry-copy_entry_ne :
      (j : ℕ) → to ≢ j → get_entry j (copy_entry from to n) ≡ get_entry j n
  get_entry-copy_entry_ne j d =
      ap (get_entry j) copied
      ∙ get_entry-set_entry_ne to (get_entry from n) n t node (get_entry-IsEntry from n f node) j d

-- The loops: the entries of a range are one further up, or one further down.
pub shift_right-IsLeaf :
    (moves index : ℕ) (n : Node)
    → index + moves < 30
    → IsLeaf n
    → IsLeaf (shift_right moves index n)
      × HaveSameHeader (shift_right moves index n) n
      × ((j : ℕ)
          → (j ≤ index) ⊎ (index + moves < j)
          → get_entry j (shift_right moves index n) ≡ get_entry j n)
      × ((j : ℕ)
          → index ≤ j
          → j < index + moves
          → get_entry (j + 1) (shift_right moves index n) ≡ get_entry j n)
unfolding shift_right
shift_right-IsLeaf zero index n h node =
    (node, (λ o k h. refl), (λ j a. refl), λ j a b. absurd (omega arith))
shift_right-IsLeaf (suc moves) index n h node =
    let i = index + moves in
    let f : i < 30 = omega arith in
    let t : i + 1 < 30 = omega arith in
    let d : i ≢ i + 1 = λ e. omega arith in
    let n' = copy_entry i (i + 1) n in
    let (leaf', header, outside, inside) =
      shift_right-IsLeaf moves index n' (omega arith) (copy_entry-IsLeaf i (i + 1) n f t d node) in
    let moved = get_entry-copy_entry_self i (i + 1) n f t d node in
    let kept = get_entry-copy_entry_ne i (i + 1) n f t d node in
    (
      leaf',
      (λ o k h. header o k h ∙ copy_entry-header i (i + 1) n f t d node o k h),
      (λ j a. elim a [
        | inl low ↦ outside j (inl low) ∙ kept j (λ e. omega arith)
        | inr high ↦ outside j (inr (omega arith)) ∙ kept j (λ e. omega arith)
      ]),
      (λ j a b. elim (Bool-cases (ltb j i)) [
        | inl c ↦ let c' = ltb→lt j i c in inside j a c' ∙ kept j (λ e. omega arith)
        | inr c ↦
            let c' = ltb_false→le j i c in
            let e : i ≡ j = omega arith in
            subst (λ x. get_entry (x + 1) (shift_right moves index n') ≡ get_entry x n) e
              (outside (i + 1) (inr (omega arith)) ∙ moved)
      ]),
    )

pub shift_left-IsLeaf :
    (moves index : ℕ) (n : Node)
    → index + moves < 30
    → IsLeaf n
    → IsLeaf (shift_left moves index n)
      × HaveSameHeader (shift_left moves index n) n
      × ((j : ℕ) → j < index → get_entry j (shift_left moves index n) ≡ get_entry j n)
      × ((j : ℕ)
          → index ≤ j
          → j < index + moves
          → get_entry j (shift_left moves index n) ≡ get_entry (j + 1) n)
unfolding shift_left
shift_left-IsLeaf zero index n h node =
    (node, (λ o k h. refl), (λ j a. refl), λ j a b. absurd (omega arith))
shift_left-IsLeaf (suc moves) index n h node =
    let f : index + 1 < 30 = omega arith in
    let t : index < 30 = omega arith in
    let d : index + 1 ≢ index = λ e. omega arith in
    let n' = copy_entry (index + 1) index n in
    let (leaf', header, before, inside) =
      shift_left-IsLeaf moves (index + 1) n' (omega arith)
        (copy_entry-IsLeaf (index + 1) index n f t d node) in
    let moved = get_entry-copy_entry_self (index + 1) index n f t d node in
    let kept = get_entry-copy_entry_ne (index + 1) index n f t d node in
    (
      leaf',
      (λ o k h. header o k h ∙ copy_entry-header (index + 1) index n f t d node o k h),
      (λ j a. before j (omega arith) ∙ kept j (λ e. omega arith)),
      (λ j a b. elim (Bool-cases (ltb index j)) [
        | inl c ↦
            let c' = ltb→lt index j c in
            inside j (omega arith) (omega arith) ∙ kept (j + 1) (λ e. omega arith)
        | inr c ↦
            let c' = ltb_false→le index j c in
            let e : index ≡ j = omega arith in
            subst (λ x. get_entry x (shift_left moves (index + 1) n') ≡ get_entry (x + 1) n) e
              (before index (omega arith) ∙ moved)
      ]),
    )

-- The number of keys.
module _ (count : ℕ) (n : Node) (h : count < 2 ^ 15) (node : IsLeaf n) where
  pub get_key_count-set_key_count : get_key_count (set_key_count count n) ≡ count
  unfolding get_key_count set_key_count
  get_key_count-set_key_count = ap pos_part (
      read_short-write_short_self n (pos count) 1 (omega (arith, node.0))
        (omega arith, omega arith))

  pub read_at-set_key_count :
      (o k : ℕ)
      → (o + k ≤ 1) ⊎ (3 ≤ o)
      → read_at o k (set_key_count count n).bytes ≡ read_at o k n.bytes
  unfolding set_key_count write_short mark_dirty
  read_at-set_key_count o k a =
      let l = length-le_bytes 2 (bits_of 16 (pos count)) in
      Apart-read o k 1 (le_bytes 2 (bits_of 16 (pos count))) n.bytes
        (elim a [ inl b ↦ inl b | inr b ↦ inr (omega arith) ])

  pub set_key_count-IsLeaf : IsLeaf (set_key_count count n)
  unfolding get_type set_key_count write_short mark_dirty
  set_key_count-IsLeaf = (
    sized ∙ node.0,
    ap (λ bs. get_or bs 0 0) (read_at-set_key_count 0 1 (inl (omega arith))) ∙ node.1,
  )
    where
      sized : length (set_key_count count n).bytes ≡ length n.bytes
      sized = length-write_at 1 (le_bytes 2 (bits_of 16 (pos count))) n.bytes

  pub get_entry-set_key_count : (j : ℕ) → get_entry j (set_key_count count n) ≡ get_entry j n
  get_entry-set_key_count j =
      get_entry-same j (set_key_count count n) n set_key_count-IsLeaf node
        (λ o k h. read_at-set_key_count o k (inr (omega arith)))
