-- ===== src/Query/Eval.antt =====
-- `Executor::EvaluateBool`, `GetValue`, `Compare`, `CompareAny`, `TryDouble` and `Calculate`
-- (src/AQL/Executor/ExecuteExpression.cpp), and `DbObjectToString` (include/AkatsukiDB/AQL/Executor.hpp).
-- The arithmetic of `double` and the conversions of the C++ library are an interface. A thrown
-- exception is an `err`. Texts are shorter than 2^31.
pub mod Compare
use akatsuki_db.Base.{
  ℕ, ◌+◌, ◌%◌, ◌^◌, min, Bool, true, false, not, ◌&&◌, ◌||◌, Option, none, some, List, [], ◌∷◌,
  ◌++◌, Bytes, ℤ, pos, negsuc, signed, eqb_ℤ, ltb_ℤ, ltb, length, if◌then◌else◌, Result, ok, err,
  ◌>>=◌,
}
use akatsuki_db.Query.Text.{eq_text, lower, upper, char_less}
use akatsuki_db.Query.Expression.{
  Value, null, int, double, text, boolean, Expr, binary, literal, column, unary, call, is_null,
  between, among, like, Exprs, nil, cons,
}
use akatsuki_db.Query.Word
use akatsuki_db.Query.Like.{like_match}

-- `double`, and the library's `stod`, `to_string`, `pow(10, n)` and `round`.
pub record Numbers (D : Type 0) : Type 0 where
  pub of_int : ℤ → D
  pub to_int : D → ℤ
  pub add : D → D → D
  pub sub : D → D → D
  pub mul : D → D → D
  pub div : D → D → D
  pub less : D → D → Bool
  pub same : D → D → Bool
  pub power_of_10 : ℤ → D
  pub nearest : D → D
  pub stod : Bytes → Option D
  pub print_int : ℤ → Bytes
  pub print : D → Bytes
  pub bits : D → ℕ
  pub of_bits : ℕ → D
  pub stoi : Bytes → Option ℤ

pub data EvalError : Type 0 where
  division_by_zero : EvalError

abbrev pub Row : Type 0 → Type 0
Row D = Bytes → Option (Value D)

abbrev or_else : {A : Type 0} → Option A → Option A → Option A
or_else (some a) later = some a
or_else none later = later

abbrev pub or_null : {D : Type 0} → Option (Value D) → Value D
or_null (some v) = v
or_null none = null

-- The three lookups of a column's name, in the order they are made.
unfoldable pub column_value : {D : Type 0} → Bytes → Option Bytes → Bool → Row D → Value D
column_value c (some t) qualified row =
    let full = row (t ++ Word.dot ++ c) in
    or_null (or_else (if qualified then full else none) (or_else (row c) full))
column_value c none qualified row = or_null (row c)

abbrev pub is_null_value : {D : Type 0} → Value D → Bool
is_null_value null = true
is_null_value v = false

-- The loop over the characters, then the lengths.
unfoldable pub compare_text : Bytes → Bytes → ℤ
compare_text [] [] = pos 0
compare_text [] (d ∷ t) = negsuc 0
compare_text (c ∷ s) [] = pos 1
compare_text (c ∷ s) (d ∷ t) =
    let rest = compare_text s t in
    if char_less c d then negsuc 0 else if char_less d c then pos 1 else rest

-- What `op` asks of the result of `CompareAny`.
unfoldable pub test_order : Bytes → ℤ → Bool
test_order op cmp =
    if eq_text op Word.eq
    then eqb_ℤ cmp (pos 0)
    else if eq_text op Word.ne
    then not (eqb_ℤ cmp (pos 0))
    else if eq_text op Word.gt
    then eqb_ℤ cmp (pos 1)
    else if eq_text op Word.lt
    then eqb_ℤ cmp (negsuc 0)
    else if eq_text op Word.ge
    then not (ltb_ℤ cmp (pos 0))
    else if eq_text op Word.le
    then not (ltb_ℤ (pos 0) cmp)
    else false

module _ {D : Type 0} (num : Numbers D) where
  unfoldable pub try_double : Value D → Option D
  try_double (int n) = some (num.of_int n)
  try_double (double d) = some d
  try_double (boolean b) = some (if b then num.of_int (pos 1) else num.of_int (pos 0))
  try_double (text s) = num.stod s
  try_double null = none

  unfoldable pub to_text : Value D → Bytes
  to_text null = Word.null
  to_text (int n) = num.print_int n
  to_text (double d) = num.print d
  to_text (text s) = s
  to_text (boolean b) = if b then Word.true else Word.false

  unfoldable pub compare_double : D → D → ℤ
  compare_double a b = if num.less a b then negsuc 0 else if num.less b a then pos 1 else pos 0

  unfoldable pub compare_any : Value D → Value D → ℤ
  unfolding try_double compare_double
  compare_any a b = elim (try_double a) [
    | some da ↦ elim (try_double b) [
      | some db ↦ compare_double da db
      | none ↦ compare_text (to_text a) (to_text b)
    ]
    | none ↦ compare_text (to_text a) (to_text b)
  ]

  unfoldable pub compare_values : Value D → Bytes → Value D → Bool
  compare_values left op right =
      if is_null_value left && is_null_value right
      then eq_text op Word.eq
      else if is_null_value left || is_null_value right
      then eq_text op Word.ne
      else test_order op (compare_any left right)

  abbrev pub are_equal : Value D → Value D → Bool
  are_equal a b = compare_values a Word.eq b

  abbrev both_ints : Value D → Value D → Bool
  both_ints (int m) (int n) = true
  both_ints a b = false

  -- The result of two `int`s is an `int` again when nothing is lost.
  unfoldable pub narrow : Bool → D → Value D
  narrow ints res =
      if ints && num.same res (num.of_int (num.to_int res))
      then int (num.to_int res)
      else double res

  unfoldable pub calculate_double : Bytes → Bool → D → D → Result EvalError (Value D)
  unfolding narrow
  calculate_double op ints da db =
      if eq_text op Word.times
      then ok (narrow ints (num.mul da db))
      else if eq_text op Word.plus
      then ok (narrow ints (num.add da db))
      else if eq_text op Word.minus
      then ok (narrow ints (num.sub da db))
      else if eq_text op Word.over
      then (if num.same db (num.of_int (pos 0))
          then err division_by_zero
          else ok (narrow ints (num.div da db)))
      else ok null

  unfoldable pub calculate : Value D → Bytes → Value D → Result EvalError (Value D)
  unfolding try_double calculate_double
  calculate a op b = elim (try_double a) [
    | some da ↦ elim (try_double b) [
      | some db ↦ calculate_double op (both_ints a b) da db
      | none ↦ ok null
    ]
    | none ↦ ok null
  ]

  -- `COALESCE`: the arguments after the first value that is not null are not looked at.
  unfoldable pub coalesce : List (Result EvalError (Value D)) → Result EvalError (Value D)
  coalesce [] = ok null
  coalesce (r ∷ rs) = let rest = coalesce rs in r >>= λ v. if is_null_value v then rest else ok v

  abbrev decimals : List (Result EvalError (Value D)) → Result EvalError ℤ
  decimals [] = ok (pos 0)
  decimals (r ∷ rs) = r >>= λ d. elim d [ int n ↦ ok n | _ ↦ ok (pos 0) ]

  unfoldable pub round_value : Value D → ℤ → Value D
  unfolding try_double
  round_value v n = elim (try_double v) [
    | some d ↦
        let factor = num.power_of_10 n in double (num.div (num.nearest (num.mul d factor)) factor)
    | none ↦ null
  ]

  abbrev length_value : Value D → Value D
  length_value (text s) = int (signed 32 (length s % 2 ^ 32))
  length_value v = null

  abbrev map_text : (Bytes → Bytes) → Value D → Value D
  map_text f (text s) = text (f s)
  map_text f v = null

  -- The functions that need an argument, by their name in lower case.
  unfoldable pub apply_one :
      Bytes
      → Result EvalError (Value D)
      → List (Result EvalError (Value D))
      → Result EvalError (Value D)
  unfolding round_value
  apply_one name first rest =
      if eq_text name Word.round
      then first >>= (λ v. decimals rest >>= λ n. ok (round_value v n))
      else if eq_text name Word.len
      then first >>= (λ v. ok (length_value v))
      else if eq_text name Word.upper
      then first >>= (λ v. ok (map_text upper v))
      else if eq_text name Word.lower
      then first >>= (λ v. ok (map_text lower v))
      else ok null

  abbrev null_if : Bytes → List (Result EvalError (Value D)) → Option (Result EvalError (Value D))
  null_if name (a ∷ b ∷ []) =
      if eq_text name Word.nullif
      then some (a >>= λ x. b >>= λ y. ok (if are_equal x y then null else x))
      else none
  null_if name rs = none

  -- The branch of `FunctionExpr`, from what its arguments evaluate to.
  unfoldable pub apply_function :
      Bytes → List (Result EvalError (Value D)) → Result EvalError (Value D)
  unfolding apply_one coalesce
  apply_function name rs =
      if eq_text name Word.coalesce then coalesce rs else elim (null_if name rs) [
        | some r ↦ r
        | none ↦ elim rs [ [] ↦ ok null | first ∷ rest ↦ apply_one name first rest ]
      ]

  abbrev pub is_arithmetic : Bytes → Bool
  is_arithmetic op =
      eq_text op Word.plus
      || (eq_text op Word.minus || (eq_text op Word.times || eq_text op Word.over))

  unfoldable mutual
    pub get_value : Expr D → Row D → Result EvalError (Value D)
    get_value (literal v) row = ok v
    get_value (column c t q) row = ok (column_value c t q row)
    get_value (binary l op r) row =
        let left = get_value l row in
        let right = get_value r row in
        if is_arithmetic op then left >>= (λ a. right >>= λ b. calculate a op b) else ok null
    get_value (call name args) row = apply_function (lower name) (get_values args row)
    get_value e row = ok null

    -- What each of a list of expressions evaluates to.
    pub get_values : Exprs D → Row D → List (Result EvalError (Value D))
    get_values nil row = []
    get_values (cons e es) row = get_value e row ∷ get_values es row

  -- The loop of IN.
  unfoldable pub any_equal : Value D → List (Result EvalError (Value D)) → Result EvalError Bool
  any_equal v [] = ok false
  any_equal v (r ∷ rs) =
      let rest = any_equal v rs in r >>= λ x. if are_equal v x then ok true else rest

  unfoldable pub evaluate_bool : Expr D → Row D → Result EvalError Bool
  unfolding get_value any_equal
  evaluate_bool (binary l op r) row =
      let left = evaluate_bool l row in
      let right = evaluate_bool r row in
      if eq_text op Word.and
      then left >>= (λ b. if b then right else ok false)
      else if eq_text op Word.or
      then left >>= (λ b. if b then ok true else right)
      else get_value l row >>= λ a. get_value r row >>= λ b. ok (compare_values a op b)
  evaluate_bool (unary e op) row =
      let operand = evaluate_bool e row in
      if eq_text op Word.not then operand >>= (λ b. ok (not b)) else ok false
  evaluate_bool (is_null e negated) row =
      get_value e row >>= λ v. ok (if is_null_value v then not negated else negated)
  evaluate_bool (between e lo hi) row = get_value e row >>= λ v. get_value lo row >>= λ l.
      get_value hi row >>= λ h. ok (compare_values v Word.ge l && compare_values v Word.le h)
  evaluate_bool (among e es) row = get_value e row >>= λ v. any_equal v (get_values es row)
  evaluate_bool (like e p) row =
      get_value e row >>= λ v. get_value p row >>= λ q. ok (like_match (to_text v) (to_text q))
  evaluate_bool e row = ok false
