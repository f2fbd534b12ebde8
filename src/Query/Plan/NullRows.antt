-- ===== src/Query/Plan/NullRows.antt =====
-- The rows with no value in an indexed column, under a scan for `col < n`.
use akatsuki_db.Base.{
  ℕ, ◌-◌, ◌^◌, ◌<◌, ◌≡◌, refl, ap, ◌∙◌, Bool, true, false, not, ◌&&◌, Option, some, List, ◌++◌,
  Bytes, ℤ, pos, negsuc, ◌<ℤ◌, ltb_ℤ, eqb_ℤ, IsInt, arith, replicate, write_at, ok,
}
use akatsuki_db.Query.Text.{eq_text}
use akatsuki_db.Query.Word
use akatsuki_db.Query.Expression.{null, int, binary, literal, column}
use akatsuki_db.Query.Schema.{ColumnDefinition}
use akatsuki_db.Query.Eval.{Numbers, Row, evaluate_bool, get_value, compare_values, column_value}
use akatsuki_db.Query.Plan.{
  ScanPlan, IndexMap, find_tree, get_column_type, column_and_literal, try_between, key, range_plan,
  try_index,
}
use akatsuki_db.Index.Key.{
  IndexKey, key_of, compare_bytes, compare_to, be_bytes4, int_code, write_bytes, min_key,
}
use akatsuki_db.Query.Plan.Keys.{takes, int_key, interval-start, found-inv, plan_less-int}

min-int_key :
    (n : ℤ) → IsInt n → negsuc (2 ^ 31 - 1) <ℤ n → compare_to min_key (int_key n) ≡ negsuc 0
unfolding compare_bytes be_bytes4
min-int_key n i h = above (int_code n) (ground arith) (omega arith)
  where
    above :
        (v : ℕ)
        → 0 < v
        → v < 2 ^ 32
        → compare_bytes (replicate 128 0) (be_bytes4 v ++ replicate 124 0) ≡ negsuc 0
    above v h b = ground arith

module _ {D T : Type 0} (num : Numbers D) (columns : List (ColumnDefinition D)) (table : Bytes)
    (indexes : IndexMap T) (c : Bytes) (t : Option Bytes) (q : Bool) where
  -- Where a plan is made for `c < n`, on a column of type int and for an `n` above the least 32-bit
  -- number, the interval that it scans holds the key of every row with NULL there, although the
  -- condition itself evaluates to false on such a row.
  pub try_index-null_row :
      (n : ℤ) (row : Row D) (p : ScanPlan D T)
      → get_column_type c columns ≡ ok Word.int
      → IsInt n
      → negsuc (2 ^ 31 - 1) <ℤ n
      → column_value c t q row ≡ null
      → try_index num columns table indexes (binary (column c t q) Word.lt (literal (int n)))
        ≡ ok (some p)
      → (k : IndexKey) × (key num null ≡ ok k)
        × (takes p k ≡ true)
        × (evaluate_bool num (binary (column c t q) Word.lt (literal (int n))) row ≡ ok false)
  unfolding try_index column_and_literal try_between eq_text takes key_of write_bytes write_at
      evaluate_bool get_value compare_values eqb_ℤ compare_bytes
  try_index-null_row n row p hc i above hrow h =
      let (tree, e) =
        found-inv (find_tree table c indexes)
          (λ tree. range_plan tree min_key (int_key n) false true) p _
          (plan_less-int num columns table indexes c hc Word.lt n) h in
      (min_key, refl, ap (λ x. takes x min_key) e ∙ below tree, rw hrow)
    where
      below :
          (tree : T) → takes (range_plan {D = D} tree min_key (int_key n) false true) min_key ≡ true
      below tree =
          interval-start (compare_to min_key min_key) (compare_to min_key (int_key n)) true refl
          ∙ ap (λ s. not (ltb_ℤ (pos 0) s) && not (true && eqb_ℤ s (pos 0))) (min-int_key n i above)
