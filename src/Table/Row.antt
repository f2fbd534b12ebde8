-- ===== src/Table/Row.antt =====
-- `RowSerializer` (include/AkatsukiDB/Table/RowSerializer.hpp, src/Table/RowSerializer.cpp): a row as
-- the bytes of its columns, then 9 bytes with a bit for every NULL, then the deletion flag. Offsets
-- are not negative. What a write or a read would do past the row or the bitmap is undefined in the
-- source; here such a write is cut off and such a read sees nothing.
pub mod Bits
pub mod Slices
pub mod Fields
pub mod Frame
pub mod RoundTrip
use akatsuki_db.Base.{
  ℕ, zero, suc, ◌+◌, ◌-◌, ◌*◌, ◌/◌, ◌%◌, ◌^◌, Bool, true, false, Option, none, some, List, [], ◌∷◌,
  ◌++◌, Bytes, ℤ, pos, negsuc, pos_part, ◌==◌, length, take, drop, get_or, set, replicate, read_at,
  write_at, le_bytes, of_le, bits_of, signed, if◌then◌else◌,
}
use akatsuki_db.Query.Text.{eq_text}
use akatsuki_db.Query.Word
use akatsuki_db.Query.Expression.{Value, null, int, double, text, boolean}
use akatsuki_db.Query.Schema.{ColumnDefinition}
use akatsuki_db.Query.Eval.{Numbers, Row, or_null}

-- `b | 1 << k` and `(b & 1 << k) != 0`
unfoldable pub set_bit : ℕ → ℕ → ℕ
set_bit b zero = if b % 2 == 1 then b else b + 1
set_bit b (suc k) = set_bit (b / 2) k * 2 + b % 2

unfoldable pub bit : ℕ → ℕ → Bool
bit b zero = b % 2 == 1
bit b (suc k) = bit (b / 2) k

-- The bit of a column in the bitmap.
unfoldable pub set_null : ℕ → Bytes → Bytes
unfolding set_bit
set_null i bitmap = set bitmap (i / 8) (set_bit (get_or bitmap (i / 8) 0) (i % 8))

unfoldable pub test_null : ℕ → Bytes → Bool
unfolding bit
test_null i bitmap = bit (get_or bitmap (i / 8) 0) (i % 8)

-- `WriteString`: the length, then the text.
unfoldable pub string_bytes : Bytes → Bytes
string_bytes s = le_bytes 4 (bits_of 32 (pos (length s))) ++ s

-- `ReadString`
unfoldable pub read_string : Bytes → Bytes
read_string slice = take (pos_part (signed 32 (of_le (take 4 slice)))) (drop 4 slice)

-- `row[name] = value`
unfoldable pub assign_column : {D : Type 0} → Bytes → Option (Value D) → Row D → Row D
assign_column name none row n = row n
assign_column name (some v) row n = if eq_text name n then some v else row n

module _ {D : Type 0} (num : Numbers D) where
  abbrev or_zero : Option ℤ → ℤ
  or_zero (some n) = n
  or_zero none = pos 0

  -- What an `int` column takes of a value.
  unfoldable pub int_of : Value D → ℤ
  int_of (int n) = n
  int_of (double d) = num.to_int d
  int_of (boolean b) = if b then pos 1 else pos 0
  int_of (text s) = or_zero (num.stoi s)
  int_of null = pos 0

  abbrev or_zero_double : Option D → D
  or_zero_double (some d) = d
  or_zero_double none = num.of_int (pos 0)

  -- What a `float` column takes of a value.
  unfoldable pub double_of : Value D → D
  double_of (double d) = d
  double_of (int n) = num.of_int n
  double_of (boolean b) = if b then num.of_int (pos 1) else num.of_int (pos 0)
  double_of (text s) = or_zero_double (num.stod s)
  double_of null = num.of_int (pos 0)

  -- What is written at the start of the slice of a column for a value that is not NULL.
  unfoldable pub encode : Bytes → Value D → Bytes
  unfolding int_of double_of string_bytes
  encode type v =
      if eq_text type Word.int
      then le_bytes 4 (bits_of 32 (int_of v))
      else if eq_text type Word.float
      then le_bytes 8 (num.bits (double_of v))
      else if eq_text type Word.bool
      then elim v [ boolean b ↦ (if b then 1 else 0) ∷ [] | _ ↦ [] ]
      else if eq_text type Word.str
      then elim v [ text s ↦ string_bytes s | _ ↦ [] ]
      else []

  -- The body of the loop of `Serialize`: the column's slice or its bit.
  unfoldable pub write_column : ℕ → ColumnDefinition D → Value D → Bytes × Bytes → Bytes × Bytes
  unfolding encode set_null
  write_column i c null (buffer, bitmap) = (buffer, set_null i bitmap)
  write_column i c v (buffer, bitmap) =
      (write_at (pos_part c.offset) (encode c.column_type v) buffer, bitmap)

  -- The loop over the columns from the index `i` on.
  unfoldable pub write_columns :
      ℕ → List (ColumnDefinition D) → Row D → Bytes × Bytes → Bytes × Bytes
  unfolding write_column
  write_columns i [] row written = written
  write_columns i (c ∷ cs) row written =
      write_columns (suc i) cs row (write_column i c (or_null (row c.name)) written)

  unfoldable pub serialize : Row D → List (ColumnDefinition D) → ℕ → Bytes
  unfolding write_columns
  serialize row columns row_size =
      let (buffer, bitmap) = write_columns 0 columns row (replicate row_size 0, replicate 9 0) in
      write_at (row_size - 10) bitmap buffer

  -- The value in the slice of a column; `none` for a type that the code does not know.
  unfoldable pub decode : Bytes → Bytes → Option (Value D)
  unfolding read_string
  decode type slice =
      if eq_text type Word.int
      then some (int (signed 32 (of_le (take 4 slice))))
      else if eq_text type Word.float
      then some (double (num.of_bits (of_le (take 8 slice))))
      else if eq_text type Word.bool
      then some (boolean (get_or slice 0 0 == 1))
      else if eq_text type Word.str
      then some (text (read_string slice))
      else none

  -- The loop of `Deserialize` over the columns from the index `i` on.
  unfoldable pub read_columns : ℕ → List (ColumnDefinition D) → Bytes → Row D → Row D
  unfolding test_null decode assign_column
  read_columns i [] bytes row = row
  read_columns i (c ∷ cs) bytes row = read_columns (suc i) cs bytes (
      assign_column c.name
        (if test_null i (drop (length bytes - 10) bytes)
          then some null
          else decode c.column_type (read_at (pos_part c.offset) (pos_part c.size) bytes))
        row)

  unfoldable pub deserialize : Bytes → List (ColumnDefinition D) → Row D
  unfolding read_columns
  deserialize bytes columns = read_columns 0 columns bytes (λ _. none)

unfoldable pub is_deleted : Bytes → ℕ → Bool
is_deleted row row_size = get_or row (row_size - 1) 0 == 1

unfoldable pub mark_deleted : Bytes → ℕ → Bytes
mark_deleted row row_size = set row (row_size - 1) 1
