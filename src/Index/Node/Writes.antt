-- ===== src/Index/Node/Writes.antt =====
-- The places of the entries of a leaf, and the writes of one entry side by side.
use akatsuki_db.Base.{
  ℕ, ◌+◌, ◌*◌, ◌≤◌, ◌≡◌, refl, ◌∙◌, inl, inr, Bytes, length, IsInt, IsShort, read_at, write_at,
  arith, length-write_at, read_at-write_at_len,
}
use akatsuki_db.Storage.Page.{page_size}
use akatsuki_db.Storage.Page.Header.{Apart, Apart-read}
use akatsuki_db.Index.Node.{Node, InsertEntry, leaf, get_type, key_offset}

-- A whole page whose type is that of a leaf; a place for an entry; an entry that a place can hold.
abbrev pub IsLeaf : Node → Type 0
IsLeaf n = (length n.bytes ≡ page_size) × (get_type n ≡ leaf)

abbrev pub IsEntry : InsertEntry → Type 0
IsEntry e = (length e.key.bytes ≡ 128) × IsInt e.page_id × IsShort e.slot_index

abbrev pub entry_offset : ℕ → ℕ
entry_offset i = 20 + i * 134

pub key_offset-IsLeaf : (i : ℕ) (n : Node) → IsLeaf n → key_offset i n ≡ entry_offset i
unfolding key_offset
key_offset-IsLeaf i n (l, t) = rw t refl

-- Three writes side by side at `o`.
module _ (o : ℕ) (k b4 b2 bytes : Bytes) where
  abbrev pub writes : Bytes
  writes = write_at (o + 128 + 4) b2 (write_at (o + 128) b4 (write_at o k bytes))

  pub length-writes : length writes ≡ length bytes
  length-writes =
      length-write_at (o + 128 + 4) b2 (write_at (o + 128) b4 (write_at o k bytes))
      ∙ length-write_at (o + 128) b4 (write_at o k bytes)
      ∙ length-write_at o k bytes

module _ (o : ℕ) (k b4 b2 bytes : Bytes) (lk : length k ≡ 128) (l4 : length b4 ≡ 4)
    (l2 : length b2 ≡ 2) (inside : o + 134 ≤ length bytes) where
  pub read_first : read_at o 128 (writes o k b4 b2 bytes) ≡ k
  read_first =
      Apart-read o 128 (o + 128 + 4) b2 (write_at (o + 128) b4 (write_at o k bytes))
        (inl (omega arith))
      ∙ Apart-read o 128 (o + 128) b4 (write_at o k bytes) (inl (omega arith))
      ∙ read_at-write_at_len o 128 k bytes lk (omega arith)

  pub read_second : read_at (o + 128) 4 (writes o k b4 b2 bytes) ≡ b4
  read_second =
      let l = length-write_at o k bytes in
      Apart-read (o + 128) 4 (o + 128 + 4) b2 (write_at (o + 128) b4 (write_at o k bytes))
        (inl (omega arith))
      ∙ read_at-write_at_len (o + 128) 4 b4 (write_at o k bytes) l4 (omega arith)

  pub read_third : read_at (o + 128 + 4) 2 (writes o k b4 b2 bytes) ≡ b2
  read_third =
      let l = length-write_at o k bytes in
      let l' = length-write_at (o + 128) b4 (write_at o k bytes) in
      read_at-write_at_len (o + 128 + 4) 2 b2 (write_at (o + 128) b4 (write_at o k bytes)) l2
        (omega arith)

  pub read_other :
      (p m : ℕ) → Apart p m o 134 → read_at p m (writes o k b4 b2 bytes) ≡ read_at p m bytes
  read_other p m (inl h) =
      Apart-read p m (o + 128 + 4) b2 (write_at (o + 128) b4 (write_at o k bytes))
        (inl (omega arith))
      ∙ Apart-read p m (o + 128) b4 (write_at o k bytes) (inl (omega arith))
      ∙ Apart-read p m o k bytes (inl (omega arith))
  read_other p m (inr h) =
      Apart-read p m (o + 128 + 4) b2 (write_at (o + 128) b4 (write_at o k bytes))
        (inr (omega arith))
      ∙ Apart-read p m (o + 128) b4 (write_at o k bytes) (inr (omega arith))
      ∙ Apart-read p m o k bytes (inr (omega arith))
