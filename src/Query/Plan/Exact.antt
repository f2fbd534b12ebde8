-- ===== src/Query/Plan/Exact.antt =====
-- The interval of keys that a plan asks an index for, against the condition it stands for.
use akatsuki_db.Base.{
  ◌≡◌, refl, sym, ap, ◌∙◌, inl, inr, Bool, true, false, not, ◌&&◌, Bool-cases, Option, none, some,
  List, Bytes, ℤ, pos, negsuc, ltb_ℤ, eqb_ℤ, IsInt, arith, Result, ok, ◌>>=◌,
}
use mathlib.Core.Path.{subst}
use akatsuki_db.Query.Text.{eq_text, eq_text_iff}
use akatsuki_db.Query.Word
use akatsuki_db.Query.Expression.{int, Expr, binary, literal, column}
use akatsuki_db.Query.Schema.{ColumnDefinition}
use akatsuki_db.Query.Eval.{
  Numbers, Row, evaluate_bool, get_value, compare_values, compare_any, test_order, column_value,
}
use akatsuki_db.Query.Plan.{
  ScanPlan, PlanError, IndexMap, find_tree, get_column_type, column_and_literal, try_between, key,
  point_plan, range_plan, try_index,
}
use akatsuki_db.Index.Key.{IndexKey, compare_to, min_key, max_key}
use akatsuki_db.Query.Plan.Keys.{
  takes, int_key, key-int, int_key-min, int_key-max, sign, by_sign, interval, interval-start, found,
  found-inv, IsExact, compare_any-sign, compare_to-sign, plan_point-int, plan_greater-int,
  plan_less-int,
}

-- What a clause `c op n` evaluates to where the row has the number `m` there.
module _ {D : Type 0} (num : Numbers D) (c : Bytes) (t : Option Bytes) (q : Bool) (row : Row D)
    (m n : ℤ) where
  abbrev clause : Bytes → Expr D
  clause op = binary (column c t q) op (literal (int n))

  evaluate_bool-clause :
      (op : Bytes)
      → eq_text op Word.and ≡ false
      → eq_text op Word.or ≡ false
      → column_value c t q row ≡ int m
      → compare_any num (int m) (int n) ≡ sign m n
      → evaluate_bool num (clause op) row ≡ ok (test_order op (sign m n))
  unfolding evaluate_bool get_value compare_values
  evaluate_bool-clause op a o hrow hs = rw (a, o, hrow, hs)

module _ {D T : Type 0} (num : Numbers D) (columns : List (ColumnDefinition D)) (table : Bytes)
    (indexes : IndexMap T) (c : Bytes) (t : Option Bytes) (q : Bool)
    (hc : get_column_type c columns ≡ ok Word.int) (m n : ℤ)
    (cmp : compare_to (int_key m) (int_key n) ≡ sign m n) where
  abbrev Serves : Bytes → Type 0
  Serves op =
      (p : ScanPlan D T)
      → try_index num columns table indexes (binary (column c t q) op (literal (int n)))
        ≡ ok (some p)
      → takes p (int_key m) ≡ test_order op (sign m n)

  at_tree :
      (op : Bytes) (f : T → ScanPlan D T) (p : ScanPlan D T)
      (r : Result PlanError (Option (ScanPlan D T)))
      → r ≡ found (find_tree table c indexes) f
      → (r >>= λ x. elim x [ some y ↦ ok (some y) | none ↦ ok none ]) ≡ ok (some p)
      → ((tree : T) → takes (f tree) (int_key m) ≡ test_order op (sign m n))
      → takes p (int_key m) ≡ test_order op (sign m n)
  at_tree op f p r e h right =
      let (tree, ep) = found-inv (find_tree table c indexes) f p r e h in
      ap (λ x. takes x (int_key m)) ep ∙ right tree

  Serves-eq : Serves Word.eq
  unfolding try_index column_and_literal try_between eq_text takes test_order eqb_ℤ
  Serves-eq p h =
      at_tree Word.eq (λ tree. point_plan tree (int_key n)) p _
        (plan_point-int num columns table indexes c hc Word.eq n) h
        (λ tree. ap (λ x. eqb_ℤ x (pos 0)) cmp)

  Serves-gt : Serves Word.gt
  unfolding try_index column_and_literal try_between eq_text takes test_order eqb_ℤ
  Serves-gt p h =
      at_tree Word.gt (λ tree. range_plan tree (int_key n) max_key true false) p _
        (plan_greater-int num columns table indexes c hc Word.gt n) h
        (λ tree.
          ap (λ x. interval x (compare_to (int_key m) max_key) true false) cmp
          ∙ ap (λ y. interval (sign m n) y true false) (int_key-max m)
          ∙ by_sign m n (λ s. interval s (negsuc 0) true false ≡ test_order Word.gt s) refl refl
              refl)

  Serves-ge : Serves Word.ge
  unfolding try_index column_and_literal try_between eq_text takes test_order eqb_ℤ
  Serves-ge p h =
      at_tree Word.ge (λ tree. range_plan tree (int_key n) max_key false false) p _
        (plan_greater-int num columns table indexes c hc Word.ge n) h
        (λ tree.
          ap (λ x. interval x (compare_to (int_key m) max_key) false false) cmp
          ∙ ap (λ y. interval (sign m n) y false false) (int_key-max m)
          ∙ by_sign m n (λ s. interval s (negsuc 0) false false ≡ test_order Word.ge s) refl refl
              refl)

  Serves-lt : Serves Word.lt
  unfolding try_index column_and_literal try_between eq_text takes test_order eqb_ℤ
  Serves-lt p h =
      at_tree Word.lt (λ tree. range_plan tree min_key (int_key n) false true) p _
        (plan_less-int num columns table indexes c hc Word.lt n) h
        (λ tree.
          interval-start (compare_to (int_key m) min_key) (compare_to (int_key m) (int_key n)) true
            (int_key-min m)
          ∙ ap (λ s. not (ltb_ℤ (pos 0) s) && not (true && eqb_ℤ s (pos 0))) cmp
          ∙ by_sign m n
              (λ s. (not (ltb_ℤ (pos 0) s) && not (true && eqb_ℤ s (pos 0))) ≡ test_order Word.lt s)
              refl refl refl)

  Serves-le : Serves Word.le
  unfolding try_index column_and_literal try_between eq_text takes test_order eqb_ℤ
  Serves-le p h =
      at_tree Word.le (λ tree. range_plan tree min_key (int_key n) false false) p _
        (plan_less-int num columns table indexes c hc Word.le n) h
        (λ tree.
          interval-start (compare_to (int_key m) min_key) (compare_to (int_key m) (int_key n)) false
            (int_key-min m)
          ∙ ap (λ s. not (ltb_ℤ (pos 0) s) && not (false && eqb_ℤ s (pos 0))) cmp
          ∙ by_sign m n
              (λ s.
                (not (ltb_ℤ (pos 0) s) && not (false && eqb_ℤ s (pos 0))) ≡ test_order Word.le s)
              refl refl refl)

module _ {D T : Type 0} (num : Numbers D) (columns : List (ColumnDefinition D)) (table : Bytes)
    (indexes : IndexMap T) (c : Bytes) (t : Option Bytes) (q : Bool) where
  -- The plan for `c op n` takes the key of `m` just when the clause holds of `m`.
  abbrev Decides : Row D → ℤ → ℤ → ScanPlan D T → Bytes → Type 0
  Decides row m n p op =
      try_index num columns table indexes (binary (column c t q) op (literal (int n))) ≡ ok (some p)
      → evaluate_bool num (binary (column c t q) op (literal (int n))) row
        ≡ ok (takes p (int_key m))

  no_plan_else :
      (op : Bytes) (n : ℤ)
      → eq_text op Word.eq ≡ false
      → (eq_text op Word.gt ≡ false) × (eq_text op Word.ge ≡ false)
      → (eq_text op Word.lt ≡ false) × (eq_text op Word.le ≡ false)
      → try_index num columns table indexes (binary (column c t q) op (literal (int n))) ≡ ok none
  unfolding try_index column_and_literal try_between
  no_plan_else op n e (g, ge) (l, le) = rw (e, g, ge, l, le)

  -- For a comparison of a column of type int with an int literal, the interval of keys that the plan
  -- scans holds the key of a row's number exactly when the comparison evaluates to true on that row,
  -- given that the conversion of an int to a double keeps the order. Both are 32-bit numbers.
  pub try_index-exact :
      (op : Bytes) (m n : ℤ) (row : Row D) (p : ScanPlan D T) (k : IndexKey)
      → IsExact num
      → get_column_type c columns ≡ ok Word.int
      → IsInt m
      → IsInt n
      → column_value c t q row ≡ int m
      → key num (int m) ≡ ok k
      → try_index num columns table indexes (binary (column c t q) op (literal (int n)))
        ≡ ok (some p)
      → evaluate_bool num (binary (column c t q) op (literal (int n))) row ≡ ok (takes p k)
  unfolding eq_text
  try_index-exact op m n row p k exact hc im in' hrow hk h =
      subst
        (λ x. evaluate_bool num (binary (column c t q) op (literal (int n))) row ≡ ok (takes p x))
        (key_value (sym (key-int num m) ∙ hk)) (by_operator op h)
    where
      key_value : {x y : IndexKey} → ◌≡◌ {A = Result PlanError IndexKey} (ok x) (ok y) → x ≡ y
      key_value e = ground arith

      cmp : compare_to (int_key m) (int_key n) ≡ sign m n
      cmp = compare_to-sign num m n im in'

      served :
          (op : Bytes)
          → eq_text op Word.and ≡ false
          → eq_text op Word.or ≡ false
          → Serves num columns table indexes c t q hc m n cmp op
          → Decides row m n p op
      served op a o serves h =
          evaluate_bool-clause num c t q row m n op a o hrow (compare_any-sign num m n im in' exact)
          ∙ ap ok (sym (serves p h))

      none_served : ◌≡◌ {A = Result PlanError (Option (ScanPlan D T))} (ok none) (ok (some p)) → ⊥
      none_served e = ground arith

      is_word : (op w : Bytes) → eq_text op w ≡ true → Decides row m n p w → Decides row m n p op
      is_word op w e g = subst (Decides row m n p) (sym ((eq_text_iff op w).0 e)) g

      by_operator : (op : Bytes) → Decides row m n p op
      by_operator op = elim (Bool-cases (eq_text op Word.eq)) [
        | inl e ↦
            is_word op Word.eq e
              (served Word.eq refl refl (Serves-eq num columns table indexes c t q hc m n cmp))
        | inr ne ↦ elim (Bool-cases (eq_text op Word.gt)) [
          | inl e ↦
              is_word op Word.gt e
                (served Word.gt refl refl (Serves-gt num columns table indexes c t q hc m n cmp))
          | inr ng ↦ elim (Bool-cases (eq_text op Word.ge)) [
            | inl e ↦
                is_word op Word.ge e
                  (served Word.ge refl refl (Serves-ge num columns table indexes c t q hc m n cmp))
            | inr nge ↦ elim (Bool-cases (eq_text op Word.lt)) [
              | inl e ↦
                  is_word op Word.lt e (
                    served Word.lt refl refl (Serves-lt num columns table indexes c t q hc m n cmp))
              | inr nl ↦ elim (Bool-cases (eq_text op Word.le)) [
                | inl e ↦ is_word op Word.le e (
                    served Word.le refl refl (Serves-le num columns table indexes c t q hc m n cmp))
                | inr nle ↦
                    λ h. absurd (none_served (sym (no_plan_else op n ne (ng, nge) (nl, nle)) ∙ h))
              ]
            ]
          ]
        ]
      ]
