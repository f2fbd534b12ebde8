-- ===== src/Table/Row/RoundTrip.antt =====
-- What `Deserialize` makes of the bytes that `Serialize` wrote.
use akatsuki_db.Base.{
  ℕ, zero, suc, ◌+◌, ◌-◌, ◌/◌, ◌%◌, ◌≤◌, ◌<◌, ◌≡◌, refl, sym, ap, ◌∙◌, ◌≢◌, inl, inr, Bool-cases,
  false, none, some, List, [], ◌∷◌, Bytes, pos, pos_part, length, get_or, take, drop, get_elem?,
  replicate, read_at, write_at, ok, arith, if◌then◌else◌, read_at-write_at_before,
  read_at-write_at_len, length-write_at, length-replicate,
}
use mathlib.Core.Path.{subst}
use akatsuki_db.Query.Text.{eq_text, eq_text_iff}
use akatsuki_db.Query.Word
use akatsuki_db.Query.Expression.{Value, null, int, double, text, boolean}
use akatsuki_db.Query.Schema.{ColumnDefinition}
use akatsuki_db.Query.Eval.{Numbers, Row, or_null}
use akatsuki_db.Table.Registry.{type_size}
use akatsuki_db.Table.Registry.Layout.{AreLaidOut, AreDistinctNames}
use akatsuki_db.Table.Row.{
  bit, int_of, double_of, encode, decode, test_null, write_column, write_columns, serialize,
  assign_column, read_columns, deserialize,
}
use akatsuki_db.Table.Row.Bits.{test_null-replicate, test_null-set_null_self}
use akatsuki_db.Table.Row.Fields.{
  IsStorable, as_int, as_float, as_bool, as_str, boolean_of, text_of, kept, decode-write,
}
use akatsuki_db.Table.Row.Frame.{
  IsAccepted, as_null, as_value, AreAccepted, write_column-null, write_column-value,
  write_column-bytes, write_column-bits, write_columns-bytes, write_columns-bits,
}

read_at-replicate : (o k n : ℕ) → o + k ≤ n → read_at o k (replicate n 0) ≡ replicate k 0
unfolding read_at
read_at-replicate zero zero n h = refl
read_at-replicate zero (suc k) zero h = absurd (omega arith)
read_at-replicate zero (suc k) (suc n) h = ap (◌∷◌ 0) (read_at-replicate zero k n (omega arith))
read_at-replicate (suc o) k zero h = absurd (omega arith)
read_at-replicate (suc o) k (suc n) h = read_at-replicate o k n (omega arith)

get_or-take : (n k : ℕ) (xs : Bytes) → k < n → get_or (take n xs) k 0 ≡ get_or xs k 0
get_or-take zero k xs h = absurd (omega arith)
get_or-take (suc n) k [] h = refl
get_or-take (suc n) zero (x ∷ xs) h = refl
get_or-take (suc n) (suc k) (x ∷ xs) h = get_or-take n k xs (omega arith)

-- The bits of the columns stand in the 9 bytes of the bitmap.
test_null-footer :
    (o : ℕ) (buffer bitmap : Bytes) (j : ℕ)
    → length bitmap ≡ 9
    → o + 9 ≤ length buffer
    → j < 72
    → test_null j (drop o (write_at o bitmap buffer)) ≡ test_null j bitmap
unfolding test_null read_at
test_null-footer o buffer bitmap j nine inside h =
    ap (λ b. bit b (j % 8))
      (sym (get_or-take 9 (j / 8) (drop o (write_at o bitmap buffer)) (omega arith))
        ∙ ap (λ xs. get_or xs (j / 8) 0) (read_at-write_at_len o 9 bitmap buffer nine inside))

module _ {D : Type 0} (num : Numbers D) where
  AreLaidOut-le :
      (off : ℕ) (cs : List (ColumnDefinition D)) (end : ℕ) → AreLaidOut off cs end → off ≤ end
  AreLaidOut-le off [] end h = omega arith
  AreLaidOut-le off (c ∷ cs) end (n, sized, placed, size, laid) =
      let l = AreLaidOut-le (off + n) cs end laid in omega arith

  -- What a column of a type has of a value that is not NULL, and of any value.
  unfoldable pub value_as : Bytes → Value D → Value D
  value_as type v =
      if eq_text type Word.int
      then int (int_of num v)
      else if eq_text type Word.float
      then double (double_of num v)
      else if eq_text type Word.bool
      then boolean (boolean_of num v)
      else text (text_of num v)

  unfoldable pub kept_value : Bytes → Value D → Value D
  kept_value type null = null
  kept_value type v = value_as type v

  kept_value-value_as :
      (type : Bytes) (v : Value D) → v ≢ null → kept_value type v ≡ value_as type v
  unfolding kept_value
  kept_value-value_as type null differs = absurd (differs refl)
  kept_value-value_as type (int n) differs = refl
  kept_value-value_as type (double d) differs = refl
  kept_value-value_as type (text s) differs = refl
  kept_value-value_as type (boolean b) differs = refl

  kept-value_as :
      (type : Bytes) (v : Value D) (s : IsStorable num type v) → kept num s ≡ value_as type v
  unfolding value_as eq_text
  kept-value_as type v (as_int h) = refl
  kept-value_as type v (as_float h e) = refl
  kept-value_as type v as_bool = refl
  kept-value_as type v (as_str h) = refl

  -- The value of one column, written at its offset where there were zeros, is read back from any bytes
  -- that agree with what was written.
  read_column :
      (i : ℕ) (c : ColumnDefinition D) (v : Value D) (off n : ℕ) (buffer bitmap bytes : Bytes)
      → IsAccepted num c.column_type v
      → type_size c.column_type ≡ ok n
      → c.offset ≡ pos off
      → off + n ≤ length buffer
      → read_at off n buffer ≡ replicate n 0
      → i / 8 < length bitmap
      → test_null i bitmap ≡ false
      → read_at off n bytes ≡ read_at off n (write_column num i c v (buffer, bitmap)).0
      → (if test_null i (write_column num i c v (buffer, bitmap)).1
          then some null
          else decode num c.column_type (read_at off n bytes))
        ≡ some (kept_value c.column_type v)
  unfolding kept_value
  read_column i c v off n buffer bitmap bytes as_null sized placed inside z small unset same =
      rw (write_column-null num i c buffer bitmap, test_null-set_null_self bitmap i small) refl
  read_column i c v off n buffer bitmap bytes (as_value differs s) sized placed inside z small unset
        same =
      rw (write_column-value num i c v buffer bitmap differs, unset)
        (ap (decode num c.column_type) (same ∙ written)
          ∙ decode-write num c.column_type v s off n buffer sized inside z
          ∙ ap (λ w. some w)
              (kept-value_as c.column_type v s ∙ sym (kept_value-value_as c.column_type v differs)))
    where
      written :
          read_at off n (write_column num i c v (buffer, bitmap)).0
          ≡ read_at off n (write_at off (encode num c.column_type v) buffer)
      written = rw (write_column-value num i c v buffer bitmap differs, placed) refl

  -- The row that `Deserialize` builds column by column.
  kept_row : List (ColumnDefinition D) → Row D → Row D → Row D
  kept_row [] row read = read
  kept_row (c ∷ cs) row read =
      kept_row cs row
        (assign_column c.name (some (kept_value c.column_type (or_null (row c.name)))) read)

  module _ (bytes : Bytes) (row : Row D) where
    read_columns-kept_row :
        (i : ℕ) (cs : List (ColumnDefinition D)) (off end : ℕ) (buffer bitmap : Bytes)
        (read : Row D)
        → AreAccepted num row cs
        → AreLaidOut off cs end
        → i + length cs ≤ 72
        → length bitmap ≡ 9
        → end ≤ length buffer
        → ((o k : ℕ) → off ≤ o → o + k ≤ end → read_at o k buffer ≡ replicate k 0)
        → ((j : ℕ) → i ≤ j → test_null j bitmap ≡ false)
        → ((o k : ℕ)
            → o + k ≤ end
            → read_at o k bytes ≡ read_at o k (write_columns num i cs row (buffer, bitmap)).0)
        → ((j : ℕ)
            → j < 72
            → test_null j (drop (length bytes - 10) bytes)
              ≡ test_null j (write_columns num i cs row (buffer, bitmap)).1)
        → read_columns num i cs bytes read ≡ kept_row cs row read
    unfolding read_columns write_columns kept_row
    read_columns-kept_row i [] off end buffer bitmap read a laid count nine long zeros unset same
          bits =
        refl
    read_columns-kept_row i (c ∷ cs) off end buffer bitmap read (a, rest)
          (n, sized, placed, size, laid) count nine long zeros unset same bits =
        let v = or_null (row c.name) in
        let next = write_column num i c v (buffer, bitmap) in
        let (lb, lm, kept) = write_column-bytes num i c v off n buffer bitmap a sized placed in
        let within = AreLaidOut-le (off + n) cs end laid in
        let (_, _, before) = write_columns-bytes num (suc i) cs row (off + n) end next rest laid in
        let value =
          read_column i c v off n buffer bitmap bytes a sized placed (omega arith)
            (zeros off n (omega arith) (omega arith)) (omega arith) (unset i (omega arith))
            (same off n (omega arith) ∙ before off n (omega arith)) in
        let bit =
          bits i (omega arith)
          ∙ write_columns-bits num (suc i) i cs row (off + n) end next rest laid (lm ∙ nine)
              (omega arith) (omega arith) in
        let here : (if test_null i (drop (length bytes - 10) bytes)
              then some null
              else decode num c.column_type (read_at (pos_part c.offset) (pos_part c.size) bytes))
            ≡ some (kept_value c.column_type v) =
          ap
            (λ b.
              if b
              then some null
              else decode num c.column_type (read_at (pos_part c.offset) (pos_part c.size) bytes))
            bit
          ∙ ap
              (λ x.
                if test_null i next.1
                then some null
                else decode num c.column_type (read_at (pos_part x) (pos_part c.size) bytes))
              placed
          ∙ ap
              (λ x.
                if test_null i next.1
                then some null
                else decode num c.column_type (read_at off (pos_part x) bytes))
              size
          ∙ value in
        ap (λ w. read_columns num (suc i) cs bytes (assign_column c.name w read)) here
        ∙ read_columns-kept_row (suc i) cs (off + n) end next.0 next.1
            (assign_column c.name (some (kept_value c.column_type v)) read) rest laid (omega arith)
            (lm ∙ nine) (omega arith) (λ o k h l. kept o k (inr h) ∙ zeros o k (omega arith) l)
            (λ j h.
              write_column-bits num i j c v buffer bitmap a (λ e. omega arith) (omega arith)
              ∙ unset j (omega arith))
            same bits

  assign_column_self :
      (name : Bytes) (v : Value D) (read : Row D) → assign_column name (some v) read name ≡ some v
  unfolding assign_column
  assign_column_self name v read = rw ((eq_text_iff name name).1 refl) refl

  assign_column_ne :
      (name n : Bytes) (v : Value D) (read : Row D)
      → name ≢ n
      → assign_column name (some v) read n ≡ read n
  unfolding assign_column
  assign_column_ne name n v read h = elim (Bool-cases (eq_text name n)) [
    | inl e ↦ absurd (h ((eq_text_iff name n).0 e))
    | inr e ↦ rw e refl
  ]

  kept_row_ne :
      (cs : List (ColumnDefinition D)) (row read : Row D) (name : Bytes)
      → ((i : ℕ) (c : ColumnDefinition D) → get_elem? cs i ≡ some c → c.name ≢ name)
      → kept_row cs row read name ≡ read name
  unfolding kept_row
  kept_row_ne [] row read name h = refl
  kept_row_ne (c ∷ cs) row read name h =
      kept_row_ne cs row _ name (λ i d e. h (suc i) d e)
      ∙ assign_column_ne c.name name (kept_value c.column_type (or_null (row c.name))) read
          (h 0 c refl)

  kept_row_at :
      (cs : List (ColumnDefinition D)) (row read : Row D) (i : ℕ) (c : ColumnDefinition D)
      → AreDistinctNames cs
      → get_elem? cs i ≡ some c
      → kept_row cs row read c.name ≡ some (kept_value c.column_type (or_null (row c.name)))
  unfolding kept_row
  kept_row_at [] row read i c distinct e = absurd (ground arith)
  kept_row_at (x ∷ cs) row read zero c distinct e =
      subst
        (λ y.
          kept_row (x ∷ cs) row read y.name
          ≡ some (kept_value y.column_type (or_null (row y.name))))
        (some-inj e)
        (kept_row_ne cs row _ x.name
            (λ j d e' q. distinct 0 (suc j) x d (omega arith) refl e' (sym q))
          ∙ assign_column_self x.name (kept_value x.column_type (or_null (row x.name))) read)
    where
      some-inj : some x ≡ some c → x ≡ c
      some-inj e = ground arith
  kept_row_at (x ∷ cs) row read (suc i) c distinct e =
      kept_row_at cs row _ i c (λ j k a b l ea eb. distinct (suc j) (suc k) a b (omega arith) ea eb)
        e

  deserialize-kept_row :
      (columns : List (ColumnDefinition D)) (row : Row D) (end : ℕ)
      → AreLaidOut 0 columns end
      → length columns ≤ 72
      → AreAccepted num row columns
      → deserialize num (serialize num row columns (end + 10)) columns
        ≡ kept_row columns row (λ n. none)
  unfolding deserialize serialize
  deserialize-kept_row columns row end laid count accepted =
      let start : Bytes × Bytes = (replicate (end + 10) 0, replicate 9 0) in
      let (buffer, bitmap) = write_columns num 0 columns row start in
      let (lb, lm, _) = write_columns-bytes num 0 columns row 0 end start accepted laid in
      let bytes = write_at (end + 10 - 10) bitmap buffer in
      let lz = length-replicate {A = ℕ} (end + 10) 0 in
      let l9 = length-replicate {A = ℕ} 9 0 in
      let lw = length-write_at (end + 10 - 10) bitmap buffer in
      read_columns-kept_row bytes row 0 columns 0 end start.0 start.1 (λ n. none) accepted laid
        (omega arith) l9 (omega arith) (λ o k h l. read_at-replicate o k (end + 10) (omega arith))
        (λ j h. test_null-replicate 9 j)
        (λ o k h. read_at-write_at_before o k (end + 10 - 10) bitmap buffer (omega arith))
        (λ j h.
          ap (λ x. test_null j (drop x bytes)) (back (length bytes) (lw ∙ lb ∙ lz))
          ∙ test_null-footer (end + 10 - 10) buffer bitmap j (lm ∙ l9) (omega arith) h)
    where
      back : (m : ℕ) → m ≡ end + 10 → m - 10 ≡ end + 10 - 10
      back m e = omega arith

  -- A row that is serialized and deserialized again has, for each of its columns, the value that was
  -- there, as the column's type keeps it (NULL where there was none), where the columns lie one behind
  -- the other from 0 on as their types ask, the row has 10 bytes more than they take, there are at
  -- most 72 columns with no name twice, each with a type that the code knows, and every value is NULL
  -- or one that its column takes: an `int` in 32 bits, a `double` whose bits are read back as itself, a text of at most 100 bytes.
  pub deserialize-serialize :
      (columns : List (ColumnDefinition D)) (row : Row D) (end : ℕ)
      → AreLaidOut 0 columns end
      → length columns ≤ 72
      → AreDistinctNames columns
      → AreAccepted num row columns
      → (i : ℕ) (c : ColumnDefinition D) → get_elem? columns i ≡ some c
      → deserialize num (serialize num row columns (end + 10)) columns c.name
        ≡ some (kept_value c.column_type (or_null (row c.name)))
  deserialize-serialize columns row end laid count distinct accepted i c e =
      ap (λ f. f c.name) (deserialize-kept_row columns row end laid count accepted)
      ∙ kept_row_at columns row (λ n. none) i c distinct e
