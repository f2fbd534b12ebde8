-- ===== src/Tests/Query.antt =====
-- Keys, plans, comparisons and LIKE, with whole numbers in the place of `double`.
use akatsuki_db.Base.{
  Result, ℕ, ◌^◌, ◌≡◌, refl, ◌↔◌, ◌⊎◌, true, false, not, none, some, List, [], ◌∷◌, ◌++◌, Bytes, ℤ,
  pos, negsuc, ◌<ℤ◌, arith, if◌then◌else◌, ok, replicate, write_at,
}
use akatsuki_db.Query.Word
use akatsuki_db.Tests.Numbers.{numbers}
use akatsuki_db.Query.Text.{eq_text}
use akatsuki_db.Query.Expression.{Value, null, int, double, Expr, binary, literal, column}
use akatsuki_db.Query.Schema.{
  ColumnDefinition, IndexDefinition, TableDefinition, get_table, find_entry,
}
use akatsuki_db.Query.Eval.{Row, evaluate_bool, compare_values, column_value}
use akatsuki_db.Query.Eval.Compare.{compare_values-dual}
use akatsuki_db.Query.Like.{like_match}
use akatsuki_db.Query.Like.Matching.{Matches, like_match-Matches}
use akatsuki_db.Query.Plan.{
  ScanPlan, IndexMap, no_plan, with_filter, flat_and, belonging, find_tree, find_index,
  get_column_type, try_index, decide, passes_filter, key, range_plan, column_and_literal,
  try_between, plan_less, choose, belongs_to_table, without, coerce_to_column_type,
}
use akatsuki_db.Query.Plan.Conjuncts.{
  passes_filter-conditions, decide-conditions, IsSplit, IsUnserved,
}
use akatsuki_db.Query.Plan.Keys.{takes}
use akatsuki_db.Query.Plan.Exact.{try_index-exact}
use akatsuki_db.Query.Plan.NullRows.{try_index-null_row}
use akatsuki_db.Query.Tokenizer.{Token, TokenError, tokenize}
use akatsuki_db.Query.Tokenizer.Total.{tokenize-total}
use akatsuki_db.Index.Key.{
  IndexKey, mk_key, key_of, compare_to, be_bytes4, be_bytes8, int_code, double_code, write_bytes,
  min_key,
}
use akatsuki_db.Index.Key.Order.{key_of-int_order, key_of-double_order, magnitude_order}

abbrev age : Bytes
age = b'a' ∷ []

abbrev people : Bytes
people = b'p' ∷ []

abbrev age_column : ColumnDefinition ℤ
age_column = record {
  name = age;
  column_type = Word.int;
  offset = pos 0;
  size = pos 4;
  nullable = true;
  is_unique = false;
  default = none;
}

abbrev columns : List (ColumnDefinition ℤ)
columns = age_column ∷ []

abbrev age_index : IndexDefinition
age_index = record { name = age; columns = age ∷ []; is_unique = false; is_primary = false }

-- One index, whose tree is called 1.
abbrev indexes : IndexMap ℕ
indexes = (people, (age_index, 1) ∷ []) ∷ []

abbrev clause : Expr ℤ
clause = binary (column age none false) Word.lt (literal (int (pos 30)))

abbrev row_of : Value ℤ → Row ℤ
row_of v name = if eq_text name age then some v else none

abbrev key_of_int : ℤ → IndexKey
key_of_int n = mk_key (be_bytes4 (int_code n) ++ replicate 124 0)

abbrev plan : ScanPlan ℤ ℕ
plan = range_plan 1 min_key (key_of_int (pos 30)) false true

served : try_index numbers columns people indexes clause ≡ ok (some plan)
unfolding try_index column_and_literal try_between plan_less get_column_type find_tree find_index
    find_entry eq_text coerce_to_column_type key_of write_bytes be_bytes4 write_at
served = refl

column_type-age : get_column_type age columns ≡ ok Word.int
unfolding get_column_type eq_text
column_type-age = refl

value : (v : Value ℤ) → column_value age none false (row_of v) ≡ v
unfolding column_value eq_text
value v = refl

int_key : (n : ℤ) → key numbers (int n) ≡ ok (key_of_int n)
unfolding key_of write_bytes be_bytes4 write_at
int_key n = refl

try_index-exact_example :
    evaluate_bool numbers clause (row_of (int (pos 20))) ≡ ok (takes plan (key_of_int (pos 20)))
try_index-exact_example =
    try_index-exact numbers columns people indexes age none false Word.lt (pos 20) (pos 30)
      (row_of (int (pos 20))) plan (key_of_int (pos 20)) (λ m n im in'. refl) column_type-age
      (omega arith, omega arith) (omega arith, omega arith) (value (int (pos 20)))
      (int_key (pos 20)) served

try_index-null_row_example :
    (k : IndexKey) × (key numbers null ≡ ok k)
    × (takes plan k ≡ true)
    × (evaluate_bool numbers clause (row_of null) ≡ ok false)
try_index-null_row_example =
    try_index-null_row numbers columns people indexes age none false (pos 30) (row_of null) plan
      column_type-age (omega arith, omega arith) (omega arith) (value null) served

passes_filter-conditions_example :
    passes_filter numbers (flat_and [] (binary clause Word.and clause)) (row_of (int (pos 20)))
    ≡ evaluate_bool numbers (binary clause Word.and clause) (row_of (int (pos 20)))
passes_filter-conditions_example =
    passes_filter-conditions numbers (row_of (int (pos 20))) (binary clause Word.and clause)

abbrev definition : TableDefinition ℤ
definition = record {
  name = people;
  row_size_bytes = pos 5;
  columns = columns;
  primary_key = [];
  auto_increment = false;
  next_auto_value = pos 1;
  foreign_keys = [];
  indexes = age_index ∷ [];
}

abbrev schemas : List (Bytes × TableDefinition ℤ)
schemas = (people, definition) ∷ []

found : get_table people schemas ≡ some definition
unfolding find_entry eq_text
found = refl

decided : decide numbers schemas people indexes (some clause) ≡ ok (with_filter [] plan)
unfolding decide flat_and belonging belongs_to_table choose without try_index column_and_literal
    try_between plan_less get_column_type find_tree find_index find_entry eq_text
    coerce_to_column_type key_of write_bytes be_bytes4 write_at
decided = refl

decide-conditions_example :
    ((with_filter [] plan ≡ with_filter (belonging people (flat_and [] clause)) no_plan)
      × IsUnserved numbers columns people indexes (belonging people (flat_and [] clause)))
    ⊎ ((p : ScanPlan ℤ ℕ) × (kept : List (Expr ℤ)) × (with_filter [] plan ≡ with_filter kept p)
        × IsSplit numbers columns people indexes (belonging people (flat_and [] clause)) p kept)
decide-conditions_example =
    decide-conditions numbers schemas people indexes clause definition (with_filter [] plan) found
      decided

key_of-int_order_example :
    (negsuc 4 <ℤ pos 3 → compare_to (key_of_int (negsuc 4)) (key_of_int (pos 3)) ≡ negsuc 0)
    × (negsuc 4 ≡ pos 3 → compare_to (key_of_int (negsuc 4)) (key_of_int (pos 3)) ≡ pos 0)
    × (pos 3 <ℤ negsuc 4 → compare_to (key_of_int (negsuc 4)) (key_of_int (pos 3)) ≡ pos 1)
key_of-int_order_example =
    key_of-int_order numbers.bits (negsuc 4) (pos 3) (key_of_int (negsuc 4)) (key_of_int (pos 3))
      (omega arith, omega arith) (omega arith, omega arith) (int_bytes (negsuc 4))
      (int_bytes (pos 3))
  where
    int_bytes : (n : ℤ) → key_of numbers.bits (int n ∷ []) ≡ ok (key_of_int n)
    int_bytes n = unfold key_of write_bytes be_bytes4 write_at in refl

-- The patterns of -0.0 and 0.0, as the doubles themselves.
abbrev key_of_pattern : ℕ → IndexKey
key_of_pattern b = mk_key (be_bytes8 (double_code b) ++ replicate 120 0)

key_of-double_order_example :
    (magnitude_order (2 ^ 63) <ℤ magnitude_order 0
      → compare_to (key_of_pattern (2 ^ 63)) (key_of_pattern 0) ≡ negsuc 0)
    × (2 ^ 63 ≡ 0 → compare_to (key_of_pattern (2 ^ 63)) (key_of_pattern 0) ≡ pos 0)
    × (magnitude_order 0 <ℤ magnitude_order (2 ^ 63)
        → compare_to (key_of_pattern (2 ^ 63)) (key_of_pattern 0) ≡ pos 1)
key_of-double_order_example =
    key_of-double_order (λ b. b) (2 ^ 63) 0 (key_of_pattern (2 ^ 63)) (key_of_pattern 0)
      (omega arith) (omega arith) (double_bytes (2 ^ 63)) (double_bytes 0)
  where
    double_bytes : (b : ℕ) → key_of (λ (x : ℕ). x) (double b ∷ []) ≡ ok (key_of_pattern b)
    double_bytes b = unfold key_of write_bytes be_bytes8 be_bytes4 write_at in refl

abbrev pattern_text : Bytes
pattern_text = b'%' ∷ b'b' ∷ b'?' ∷ []

like_match-Matches_example :
    (like_match (b'a' ∷ b'b' ∷ b'c' ∷ []) pattern_text ≡ true)
    ↔ Matches pattern_text (b'a' ∷ b'b' ∷ b'c' ∷ [])
like_match-Matches_example = like_match-Matches (b'a' ∷ b'b' ∷ b'c' ∷ []) pattern_text

compare_values-dual_example :
    (compare_values numbers (int (pos 3)) Word.ne null
      ≡ not (compare_values numbers (int (pos 3)) Word.eq null))
    × (true ≡ false
        → (compare_values numbers (int (pos 3)) Word.ge null
            ≡ not (compare_values numbers (int (pos 3)) Word.lt null))
          × (compare_values numbers (int (pos 3)) Word.le null
              ≡ not (compare_values numbers (int (pos 3)) Word.gt null)))
    × (true ≡ true
        → (compare_values numbers (int (pos 3)) Word.ge null ≡ false)
          × (compare_values numbers (int (pos 3)) Word.lt null ≡ false)
          × (compare_values numbers (int (pos 3)) Word.le null ≡ false)
          × (compare_values numbers (int (pos 3)) Word.gt null ≡ false))
compare_values-dual_example = compare_values-dual numbers (int (pos 3)) null

tokenize-total_example :
    (r : Result TokenError (List Token)) × (tokenize (b'a' ∷ b'<' ∷ b'=' ∷ b'3' ∷ []) ≡ some r)
tokenize-total_example = tokenize-total (b'a' ∷ b'<' ∷ b'=' ∷ b'3' ∷ [])
