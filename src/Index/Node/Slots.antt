-- ===== src/Index/Node/Slots.antt =====
-- The entries of a leaf lie side by side: writing one changes neither the others nor the header.
use akatsuki_db.Base.{
  ℕ, ◌+◌, ◌≤◌, ◌<◌, ◌≡◌, refl, sym, ap, ◌∙◌, ◌≢◌, ◌⊎◌, inl, inr, Bool-cases, Bytes, length, ltb,
  signed, bits_of, IsInt, IsShort, of_le, le_bytes, get_or, read_at, write_at, arith, ltb→lt,
  ltb_false→le, length-le_bytes, of_le-le_bytes2, of_le-le_bytes4, bits_of16-lt, bits_of32-lt,
  signed-bits_of16, signed-bits_of32, length-read_at,
}
use akatsuki_db.Storage.Page.{mark_dirty, read_int, read_short, write_int, write_short}
use akatsuki_db.Storage.Page.Header.{Apart-read}
use akatsuki_db.Index.Key.{IndexKey, mk_key}
use akatsuki_db.Index.Node.{
  Node, InsertEntry, put_bytes, get_type, get_key, set_key, get_row_location, set_row_location,
  get_entry, set_entry, copy_entry,
}
use akatsuki_db.Index.Node.Writes.{
  IsLeaf, IsEntry, entry_offset, key_offset-IsLeaf, writes, length-writes, read_first, read_second,
  read_third, read_other,
}

-- The entry that the bytes at an offset stand for.
entry_at : ℕ → Bytes → InsertEntry
entry_at o bytes = record {
  key = mk_key (read_at o 128 bytes);
  page_id = signed 32 (of_le (read_at (o + 128) 4 bytes));
  slot_index = signed 16 (of_le (read_at (o + 128 + 4) 2 bytes));
}

get_entry-entry_at :
    (i : ℕ) (n : Node) → IsLeaf n → get_entry i n ≡ entry_at (entry_offset i) n.bytes
unfolding get_entry get_key get_row_location read_int read_short entry_at
get_entry-entry_at i n node = rw (key_offset-IsLeaf i n node) refl

entry_at-Apart :
    (p o : ℕ) (k b4 b2 bytes : Bytes)
    → length k ≡ 128
    → length b4 ≡ 4
    → length b2 ≡ 2
    → o + 134 ≤ length bytes
    → (p + 134 ≤ o) ⊎ (o + 134 ≤ p)
    → entry_at p (writes o k b4 b2 bytes) ≡ entry_at p bytes
unfolding entry_at
entry_at-Apart p o k b4 b2 bytes lk l4 l2 h (inl a) =
    let other = read_other o k b4 b2 bytes lk l4 l2 h in
    rw
      (
        other p 128 (inl (omega arith)),
        other (p + 128) 4 (inl (omega arith)),
        other (p + 128 + 4) 2 (inl (omega arith)),
      )
      refl
entry_at-Apart p o k b4 b2 bytes lk l4 l2 h (inr a) =
    let other = read_other o k b4 b2 bytes lk l4 l2 h in
    rw
      (
        other p 128 (inr (omega arith)),
        other (p + 128) 4 (inr (omega arith)),
        other (p + 128 + 4) 2 (inr (omega arith)),
      )
      refl

-- What is read is always an entry.
entry_at-IsEntry : (o : ℕ) (bytes : Bytes) → o + 134 ≤ length bytes → IsEntry (entry_at o bytes)
unfolding entry_at
entry_at-IsEntry o bytes h = (
  length-read_at o 128 bytes (omega arith),
  signed-IsInt (of_le (read_at (o + 128) 4 bytes)),
  signed-IsShort (of_le (read_at (o + 128 + 4) 2 bytes)),
)
  where
    signed-IsInt : (v : ℕ) → IsInt (signed 32 v)
    signed-IsInt v = ground arith

    signed-IsShort : (v : ℕ) → IsShort (signed 16 v)
    signed-IsShort v = ground arith

pub get_entry-IsEntry : (i : ℕ) (n : Node) → i < 30 → IsLeaf n → IsEntry (get_entry i n)
get_entry-IsEntry i n place node =
    rw (get_entry-entry_at i n node)
      (entry_at-IsEntry (entry_offset i) n.bytes (omega (arith, node.0)))

module _ (i : ℕ) (e : InsertEntry) (n : Node) (place : i < 30) (node : IsLeaf n)
    (entry : IsEntry e) where
  abbrev b4 : Bytes
  b4 = le_bytes 4 (bits_of 32 e.page_id)

  abbrev b2 : Bytes
  b2 = le_bytes 2 (bits_of 16 e.slot_index)

  set_entry-bytes : (set_entry i e n).bytes ≡ writes (entry_offset i) e.key.bytes b4 b2 n.bytes
  unfolding set_entry set_key set_row_location write_int write_short put_bytes mark_dirty
  set_entry-bytes = ap (λ o. writes' o) (key_offset-IsLeaf i n node)
    where
      writes' : ℕ → Bytes
      writes' o =
          write_at (entry_offset i + 128 + 4) b2
            (write_at (entry_offset i + 128) b4 (write_at o e.key.bytes n.bytes))

  l4 : length b4 ≡ 4
  l4 = length-le_bytes 4 (bits_of 32 e.page_id)

  l2 : length b2 ≡ 2
  l2 = length-le_bytes 2 (bits_of 16 e.slot_index)

  inside : entry_offset i + 134 ≤ length n.bytes
  inside = omega (arith, node.0)

  -- The header, and what else lies before the entries.
  pub read_at-set_entry :
      (o k : ℕ) → o + k ≤ 20 → read_at o k (set_entry i e n).bytes ≡ read_at o k n.bytes
  read_at-set_entry o k h =
      ap (read_at o k) set_entry-bytes
      ∙ read_other (entry_offset i) e.key.bytes b4 b2 n.bytes entry.0 l4 l2 inside o k
          (inl (omega arith))

  pub set_entry-IsLeaf : IsLeaf (set_entry i e n)
  unfolding get_type
  set_entry-IsLeaf = (
    ap length set_entry-bytes ∙ length-writes (entry_offset i) e.key.bytes b4 b2 n.bytes ∙ node.0,
    ap (λ bs. get_or bs 0 0) (read_at-set_entry 0 1 (omega arith)) ∙ node.1,
  )

  pub get_entry-set_entry_self : get_entry i (set_entry i e n) ≡ e
  unfolding entry_at
  get_entry-set_entry_self =
      get_entry-entry_at i (set_entry i e n) set_entry-IsLeaf
      ∙ ap (entry_at (entry_offset i)) set_entry-bytes
      ∙ rw
          (
            read_first (entry_offset i) e.key.bytes b4 b2 n.bytes entry.0 l4 l2 inside,
            read_second (entry_offset i) e.key.bytes b4 b2 n.bytes entry.0 l4 l2 inside,
            read_third (entry_offset i) e.key.bytes b4 b2 n.bytes entry.0 l4 l2 inside,
            of_le-le_bytes4 (bits_of 32 e.page_id) (bits_of32-lt e.page_id),
            of_le-le_bytes2 (bits_of 16 e.slot_index) (bits_of16-lt e.slot_index),
            signed-bits_of32 e.page_id entry.1,
            signed-bits_of16 e.slot_index entry.2,
          )
          refl

  pub get_entry-set_entry_ne : (j : ℕ) → i ≢ j → get_entry j (set_entry i e n) ≡ get_entry j n
  get_entry-set_entry_ne j differ =
      get_entry-entry_at j (set_entry i e n) set_entry-IsLeaf
      ∙ ap (entry_at (entry_offset j)) set_entry-bytes
      ∙ entry_at-Apart (entry_offset j) (entry_offset i) e.key.bytes b4 b2 n.bytes entry.0 l4 l2
          inside apart
      ∙ sym (get_entry-entry_at j n node)
    where
      apart : (entry_offset j + 134 ≤ entry_offset i) ⊎ (entry_offset i + 134 ≤ entry_offset j)
      apart = elim (Bool-cases (ltb i j)) [
        | inl c ↦ inr (let c' = ltb→lt i j c in omega arith)
        | inr c ↦ inl (let c' = ltb_false→le i j c in omega (arith, differ))
      ]

get_row_location-set_key :
    (from to : ℕ) (key : IndexKey) (n : Node)
    → from ≢ to
    → length key.bytes ≡ 128
    → IsLeaf n
    → get_row_location from (set_key to key n) ≡ get_row_location from n
unfolding get_row_location set_key put_bytes mark_dirty read_int read_short
get_row_location-set_key from to key n differ sized node = elim (Bool-cases (ltb from to)) [
  | inl c ↦
      let c' = ltb→lt from to c in
      rw
        (
          key_offset-IsLeaf to n node,
          Apart-read (entry_offset from + 128) 4 (entry_offset to) key.bytes n.bytes
              (inl (omega arith)),
          Apart-read (entry_offset from + 128 + 4) 2 (entry_offset to) key.bytes n.bytes
              (inl (omega arith)),
        )
        refl
  | inr c ↦
      let c' = ltb_false→le from to c in
      let more : to < from = omega (arith, differ) in
      rw
        (
          key_offset-IsLeaf to n node,
          Apart-read (entry_offset from + 128) 4 (entry_offset to) key.bytes n.bytes
              (inr (omega arith)),
          Apart-read (entry_offset from + 128 + 4) 2 (entry_offset to) key.bytes n.bytes
              (inr (omega arith)),
        )
        refl
]

-- Moving an entry is reading it and writing it.
pub copy_entry-set_entry :
    (from to : ℕ) (n : Node)
    → from < 30
    → from ≢ to
    → IsLeaf n
    → copy_entry from to n ≡ set_entry to (get_entry from n) n
unfolding copy_entry set_entry get_entry
copy_entry-set_entry from to n f differ node =
    ap (λ w. set_row_location to w (set_key to (get_key from n) n))
      (get_row_location-set_key from to (get_key from n) n differ sized node)
  where
    sized : length (get_key from n).bytes ≡ 128
    sized = (get_entry-IsEntry from n f node).0

-- Two leaves that agree behind the header have the same entries.
pub get_entry-same :
    (j : ℕ) (m n : Node)
    → IsLeaf m
    → IsLeaf n
    → ((o k : ℕ) → 20 ≤ o → read_at o k m.bytes ≡ read_at o k n.bytes)
    → get_entry j m ≡ get_entry j n
unfolding entry_at
get_entry-same j m n a b same =
    get_entry-entry_at j m a
    ∙ rw
        (
          same (entry_offset j) 128 (omega arith),
          same (entry_offset j + 128) 4 (omega arith),
          same (entry_offset j + 128 + 4) 2 (omega arith),
        )
        refl
    ∙ sym (get_entry-entry_at j n b)
