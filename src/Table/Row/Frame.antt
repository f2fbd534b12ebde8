-- ===== src/Table/Row/Frame.antt =====
-- What the loop of `Serialize` leaves as it was: the bytes before the columns that are left, the bits
-- of the columns that are done.
use akatsuki_db.Base.{
  ℕ, suc, ◌+◌, ◌/◌, ◌≤◌, ◌<◌, ◌≡◌, refl, ◌∙◌, ◌≢◌, ◌⊎◌, inl, inr, List, [], ◌∷◌, Bytes, pos,
  pos_part, length, read_at, write_at, ok, arith, read_at-write_at_before, read_at-write_at_after,
  length-write_at,
}
use akatsuki_db.Query.Expression.{Value, null, int, double, text, boolean}
use akatsuki_db.Query.Schema.{ColumnDefinition}
use akatsuki_db.Query.Eval.{Numbers, Row, or_null}
use akatsuki_db.Table.Registry.{type_size}
use akatsuki_db.Table.Registry.Layout.{AreLaidOut}
use akatsuki_db.Table.Row.{encode, set_null, test_null, write_column, write_columns}
use akatsuki_db.Table.Row.Bits.{length-set_null, test_null-set_null_ne}
use akatsuki_db.Table.Row.Fields.{IsStorable, kept, length-encode}

module _ {D : Type 0} (num : Numbers D) where
  -- A value is NULL, or it can be kept by a column of the type.
  pub data IsAccepted : Bytes → Value D → Type 0 where
    as_null : {type : Bytes} → IsAccepted type null
    as_value : {type : Bytes} {v : Value D} → v ≢ null → IsStorable num type v → IsAccepted type v

  -- What is read back for it.
  abbrev pub read_back : {type : Bytes} {v : Value D} → IsAccepted type v → Value D
  read_back as_null = null
  read_back (as_value differs s) = kept num s

  pub write_column-null :
      (i : ℕ) (c : ColumnDefinition D) (buffer bitmap : Bytes)
      → write_column num i c null (buffer, bitmap) ≡ (buffer, set_null i bitmap)
  unfolding write_column
  write_column-null i c buffer bitmap = refl

  pub write_column-value :
      (i : ℕ) (c : ColumnDefinition D) (v : Value D) (buffer bitmap : Bytes)
      → v ≢ null
      → write_column num i c v (buffer, bitmap)
        ≡ (write_at (pos_part c.offset) (encode num c.column_type v) buffer, bitmap)
  unfolding write_column
  write_column-value i c null buffer bitmap h = absurd (h refl)
  write_column-value i c (int n) buffer bitmap h = refl
  write_column-value i c (double d) buffer bitmap h = refl
  write_column-value i c (text s) buffer bitmap h = refl
  write_column-value i c (boolean b) buffer bitmap h = refl

  -- One column at `off`, of the size `n` that its type asks: the bytes before and behind its slice
  -- stay, and so does the number of bytes.
  pub write_column-bytes :
      (i : ℕ) (c : ColumnDefinition D) (v : Value D) (off n : ℕ) (buffer bitmap : Bytes)
      → IsAccepted c.column_type v
      → type_size c.column_type ≡ ok n
      → c.offset ≡ pos off
      → (length (write_column num i c v (buffer, bitmap)).0 ≡ length buffer)
        × (length (write_column num i c v (buffer, bitmap)).1 ≡ length bitmap)
        × ((o k : ℕ)
            → (o + k ≤ off) ⊎ (off + n ≤ o)
            → read_at o k (write_column num i c v (buffer, bitmap)).0 ≡ read_at o k buffer)
  write_column-bytes i c v off n buffer bitmap as_null sized placed =
      rw (write_column-null i c buffer bitmap) (refl, length-set_null i bitmap, λ o k h. refl)
  write_column-bytes i c v off n buffer bitmap (as_value differs s) sized placed =
      rw (write_column-value i c v buffer bitmap differs, placed)
        (
          length-write_at off (encode num c.column_type v) buffer,
          refl,
          λ o k h. elim h [
            | inl before ↦
                read_at-write_at_before o k off (encode num c.column_type v) buffer before
            | inr behind ↦
                let l = length-encode num c.column_type v s n sized in
                read_at-write_at_after o k off (encode num c.column_type v) buffer (omega arith)
          ],
        )

  pub write_column-bits :
      (i j : ℕ) (c : ColumnDefinition D) (v : Value D) (buffer bitmap : Bytes)
      → IsAccepted c.column_type v
      → i ≢ j
      → i / 8 < length bitmap
      → test_null j (write_column num i c v (buffer, bitmap)).1 ≡ test_null j bitmap
  write_column-bits i j c v buffer bitmap as_null ne inside =
      rw (write_column-null i c buffer bitmap) (test_null-set_null_ne bitmap i j ne inside)
  write_column-bits i j c v buffer bitmap (as_value differs s) ne inside =
      rw (write_column-value i c v buffer bitmap differs) refl

  -- Every value of the row is one that its column takes.
  abbrev pub AreAccepted : Row D → List (ColumnDefinition D) → Type 0
  AreAccepted row [] = Unit {0}
  AreAccepted row (c ∷ cs) = IsAccepted c.column_type (or_null (row c.name)) × AreAccepted row cs

  -- The loop from the index `i` and the offset `off` on.
  pub write_columns-bytes :
      (i : ℕ) (cs : List (ColumnDefinition D)) (row : Row D) (off end : ℕ) (written : Bytes × Bytes)
      → AreAccepted row cs
      → AreLaidOut off cs end
      → (length (write_columns num i cs row written).0 ≡ length written.0)
        × (length (write_columns num i cs row written).1 ≡ length written.1)
        × ((o k : ℕ)
            → o + k ≤ off
            → read_at o k (write_columns num i cs row written).0 ≡ read_at o k written.0)
  unfolding write_columns
  write_columns-bytes i [] row off end written a laid = (refl, refl, λ o k h. refl)
  write_columns-bytes i (c ∷ cs) row off end (buffer, bitmap) (a, rest)
        (n, sized, placed, _, laid) =
      let v = or_null (row c.name) in
      let (lb, lm, same) = write_column-bytes i c v off n buffer bitmap a sized placed in
      let (lb', lm', same') =
        write_columns-bytes (suc i) cs row (off + n) end (write_column num i c v (buffer, bitmap))
          rest laid in
      (lb' ∙ lb, lm' ∙ lm, λ o k h. same' o k (omega arith) ∙ same o k (inl h))

  pub write_columns-bits :
      (i j : ℕ) (cs : List (ColumnDefinition D)) (row : Row D) (off end : ℕ)
      (written : Bytes × Bytes)
      → AreAccepted row cs
      → AreLaidOut off cs end
      → length written.1 ≡ 9
      → i + length cs ≤ 72
      → j < i
      → test_null j (write_columns num i cs row written).1 ≡ test_null j written.1
  unfolding write_columns
  write_columns-bits i j [] row off end written a laid nine h l = refl
  write_columns-bits i j (c ∷ cs) row off end (buffer, bitmap) (a, rest) (n, sized, placed, _, laid)
        nine h l =
      let v = or_null (row c.name) in
      let (_, lm, _) = write_column-bytes i c v off n buffer bitmap a sized placed in
      write_columns-bits (suc i) j cs row (off + n) end (write_column num i c v (buffer, bitmap))
        rest laid (lm ∙ nine) (omega arith) (omega arith)
      ∙ write_column-bits i j c v buffer bitmap a (λ e. omega arith) (omega arith)
