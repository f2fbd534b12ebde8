-- ===== src/Query/Plan.antt =====
-- `ScanPlanner` (include/AkatsukiDB/AQL/ScanPlanner.hpp, src/AQL/ScanPlanner.cpp), with the filter of
-- `Executor::PassesFilter` (src/AQL/Executor/Executor.cpp). `T` stands for a pointer to a tree. A
-- thrown exception is an `err`; the plan that it leaves half written is dropped.
pub mod Conjuncts
pub mod Keys
pub mod Exact
pub mod NullRows
use akatsuki_db.Base.{
  ℕ, zero, suc, Bool, true, false, not, ◌&&◌, ◌||◌, Option, none, some, List, [], ◌∷◌, ◌++◌, Bytes,
  ℤ, if◌then◌else◌, Result, ok, err, ◌>>=◌,
}
use akatsuki_db.Query.Text.{eq_text}
use akatsuki_db.Query.Word
use akatsuki_db.Query.Expression.{
  Value, null, int, double, text, boolean, Expr, binary, literal, column, unary, call, is_null,
  between, among, like,
}
use akatsuki_db.Query.Schema.{
  ColumnDefinition, IndexDefinition, TableDefinition, get_table, find_entry,
}
use akatsuki_db.Query.Eval.{Numbers, EvalError, Row, evaluate_bool}
use akatsuki_db.Index.Key.{IndexKey, KeyError, key_of, min_key, max_key}

pub data ScanType : Type 0 where
  full : ScanType
  point : ScanType
  range : ScanType

pub record ScanPlan (D T : Type 0) : Type 0 where
  pub scan_type : ScanType
  pub index : Option T
  pub point_key : IndexKey
  pub range_start : IndexKey
  pub range_end : IndexKey
  pub range_start_open : Bool
  pub range_end_open : Bool
  pub filter_after : List (Expr D)

abbrev pub no_plan : {D T : Type 0} → ScanPlan D T
no_plan = record {
  scan_type = full;
  index = none;
  point_key = min_key;
  range_start = min_key;
  range_end = max_key;
  range_start_open = false;
  range_end_open = false;
  filter_after = [];
}

pub data PlanError : Type 0 where
  no_such_table : PlanError
  no_such_column : PlanError
  key_overflow : PlanError

-- The conditions that are joined by AND, appended to those there are.
unfoldable pub flat_and : {D : Type 0} → List (Expr D) → Expr D → List (Expr D)
flat_and exprs (binary l op r) =
    let both = flat_and (flat_and exprs l) r in
    if eq_text op Word.and then both else exprs ++ binary l op r ∷ []
flat_and exprs e = exprs ++ e ∷ []

unfoldable pub belongs_to_table : {D : Type 0} → Expr D → Bytes → Bool
belongs_to_table (column c (some t) q) table = eq_text t table
belongs_to_table (column c none q) table = true
belongs_to_table (binary l op r) table = belongs_to_table l table && belongs_to_table r table
belongs_to_table (unary e op) table = belongs_to_table e table
belongs_to_table (between e lo hi) table = belongs_to_table e table
belongs_to_table (like e p) table = belongs_to_table e table
belongs_to_table (is_null e negated) table = belongs_to_table e table
belongs_to_table (among e es) table = belongs_to_table e table
belongs_to_table e table = true

unfoldable pub belonging : {D : Type 0} → Bytes → List (Expr D) → List (Expr D)
unfolding belongs_to_table
belonging table [] = []
belonging table (e ∷ es) =
    if belongs_to_table e table then e ∷ belonging table es else belonging table es

unfoldable pub find_index : {T : Type 0} → Bytes → List (IndexDefinition × T) → Option T
find_index col [] = none
find_index col ((def, tree) ∷ rest) =
    let later = find_index col rest in
    elim def.columns [
      | [] ↦ later
      | c ∷ cs ↦ elim cs [ [] ↦ (if eq_text c col then some tree else later) | _ ∷ _ ↦ later ]
    ]

abbrev pub IndexMap : Type 0 → Type 0
IndexMap T = List (Bytes × List (IndexDefinition × T))

unfoldable pub find_tree : {T : Type 0} → Bytes → Bytes → IndexMap T → Option T
unfolding find_index find_entry
find_tree table col indexes = elim (find_entry table indexes) [
  | some trees ↦ find_index col trees
  | none ↦ none
]

unfoldable pub get_column_type :
    {D : Type 0} → Bytes → List (ColumnDefinition D) → Result PlanError Bytes
get_column_type col [] = err no_such_column
get_column_type col (c ∷ cs) =
    let rest = get_column_type col cs in if eq_text c.name col then ok c.column_type else rest

-- `column op literal`, for an `op` that the test takes
unfoldable pub column_and_literal :
    {D : Type 0} → (Bytes → Bool) → Expr D → Option (Bytes × (Bytes × Value D))
column_and_literal test (binary (column c t q) op (literal v)) =
    if test op then some (c, (op, v)) else none
column_and_literal test e = none

abbrev pub is_greater : Bytes → Bool
is_greater op = eq_text op Word.gt || eq_text op Word.ge

abbrev pub is_less : Bytes → Bool
is_less op = eq_text op Word.lt || eq_text op Word.le

abbrev pub try_point : {D : Type 0} → Expr D → Option (Bytes × (Bytes × Value D))
try_point e = column_and_literal (λ op. eq_text op Word.eq) e

abbrev pub try_greater : {D : Type 0} → Expr D → Option (Bytes × (Bytes × Value D))
try_greater e = column_and_literal is_greater e

abbrev pub try_less : {D : Type 0} → Expr D → Option (Bytes × (Bytes × Value D))
try_less e = column_and_literal is_less e

unfoldable pub try_between : {D : Type 0} → Expr D → Option (Bytes × (Value D × Value D))
try_between (between (column c t q) (literal lo) (literal hi)) = some (c, (lo, hi))
try_between e = none

-- One of the four attempts of `TryIndex`: the next is made where this one does not match, or the
-- column has no index.
abbrev pub attempt :
    {X P : Type 0}
    → Option X
    → (X → Result PlanError (Option P))
    → Result PlanError (Option P)
    → Result PlanError (Option P)
attempt none f next = next
attempt (some x) f next = f x >>= λ o. elim o [ some p ↦ ok (some p) | none ↦ next ]

abbrev pub key_or_overflow : Result KeyError IndexKey → Result PlanError IndexKey
key_or_overflow (ok k) = ok k
key_or_overflow (err e) = err key_overflow

module _ {D : Type 0} (num : Numbers D) where
  unfoldable pub passes_filter : List (Expr D) → Row D → Result EvalError Bool
  unfolding evaluate_bool
  passes_filter [] row = ok true
  passes_filter (e ∷ es) row =
      let rest = passes_filter es row in
      evaluate_bool num e row >>= λ b. if b then rest else ok false

  unfoldable pub coerce_to_column_type : Value D → Bytes → Value D
  coerce_to_column_type (int n) type =
      if eq_text type Word.float then double (num.of_int n) else int n
  coerce_to_column_type (double d) type =
      if eq_text type Word.int then int (num.to_int d) else double d
  coerce_to_column_type v type = v

  abbrev pub key : Value D → Result PlanError IndexKey
  key v = key_or_overflow (key_of num.bits (v ∷ []))

-- The loop that keeps every condition but the one at `i`.
unfoldable pub without : {D : Type 0} → ℕ → List (Expr D) → List (Expr D)
without i [] = []
without zero (e ∷ es) = es
without (suc i) (e ∷ es) = e ∷ without i es

module _ {D T : Type 0} where
  abbrev pub range_plan : T → IndexKey → IndexKey → Bool → Bool → ScanPlan D T
  range_plan tree start end start_open end_open = record {
    scan_type = range;
    index = some tree;
    point_key = min_key;
    range_start = start;
    range_end = end;
    range_start_open = start_open;
    range_end_open = end_open;
    filter_after = [];
  }

  abbrev pub point_plan : T → IndexKey → ScanPlan D T
  point_plan tree k = record {
    scan_type = point;
    index = some tree;
    point_key = k;
    range_start = min_key;
    range_end = max_key;
    range_start_open = false;
    range_end_open = false;
    filter_after = [];
  }

  abbrev pub with_filter : List (Expr D) → ScanPlan D T → ScanPlan D T
  with_filter es p = record {
    scan_type = p.scan_type;
    index = p.index;
    point_key = p.point_key;
    range_start = p.range_start;
    range_end = p.range_end;
    range_start_open = p.range_start_open;
    range_end_open = p.range_end_open;
    filter_after = es;
  }

module _ {D T : Type 0} (num : Numbers D) where
  module _ (columns : List (ColumnDefinition D)) (table : Bytes) (indexes : IndexMap T) where
    -- The column's type, then its index, then the plan from the two.
    abbrev with_index :
        Bytes
        → (Bytes → T → Result PlanError (ScanPlan D T))
        → Result PlanError (Option (ScanPlan D T))
    with_index col build = get_column_type col columns >>= λ type.
        elim (find_tree table col indexes) [
          | some tree ↦ build type tree >>= λ p. ok (some p)
          | none ↦ ok none
        ]

    unfoldable pub plan_point : Bytes × (Bytes × Value D) → Result PlanError (Option (ScanPlan D T))
    unfolding get_column_type find_tree coerce_to_column_type
    plan_point (col, (op, v)) =
        with_index col
          λ type tree. key num (coerce_to_column_type num v type) >>= λ k. ok (point_plan tree k)

    unfoldable pub plan_between :
        Bytes × (Value D × Value D) → Result PlanError (Option (ScanPlan D T))
    unfolding get_column_type find_tree coerce_to_column_type
    plan_between (col, (lo, hi)) = with_index col λ type tree.
        key num (coerce_to_column_type num lo type) >>= λ k.
        key num (coerce_to_column_type num hi type) >>= λ l. ok (range_plan tree k l false false)

    unfoldable pub plan_greater :
        Bytes × (Bytes × Value D) → Result PlanError (Option (ScanPlan D T))
    unfolding get_column_type find_tree coerce_to_column_type
    plan_greater (col, (op, v)) = with_index col λ type tree.
        key num (coerce_to_column_type num v type) >>= λ k.
        ok (range_plan tree k max_key (eq_text op Word.gt) false)

    unfoldable pub plan_less : Bytes × (Bytes × Value D) → Result PlanError (Option (ScanPlan D T))
    unfolding get_column_type find_tree coerce_to_column_type
    plan_less (col, (op, v)) = with_index col λ type tree.
        key num (coerce_to_column_type num v type) >>= λ k.
        ok (range_plan tree min_key k false (eq_text op Word.lt))

    unfoldable pub try_index : Expr D → Result PlanError (Option (ScanPlan D T))
    unfolding plan_point plan_between plan_greater plan_less try_between column_and_literal
    try_index e = attempt (try_point e) plan_point (
        attempt (try_between e) plan_between
          (attempt (try_greater e) plan_greater (attempt (try_less e) plan_less (ok none))))

    -- The loop that looks for the first condition an index serves.
    unfoldable pub choose : ℕ → List (Expr D) → Result PlanError (Option (ℕ × ScanPlan D T))
    unfolding try_index
    choose i [] = ok none
    choose i (e ∷ es) =
        let later = choose (suc i) es in
        try_index e >>= λ o. elim o [ some p ↦ ok (some (i, p)) | none ↦ later ]

  unfoldable pub decide :
      List (Bytes × TableDefinition D)
      → Bytes
      → IndexMap T
      → Option (Expr D)
      → Result PlanError (ScanPlan D T)
  unfolding flat_and belonging choose without
  decide schemas table indexes none = ok no_plan
  decide schemas table indexes (some e) =
      let exprs = belonging table (flat_and [] e) in
      elim (get_table table schemas) [
        | some def ↦ choose def.columns table indexes 0 exprs >>= λ o. elim o [
          | some (i, p) ↦ ok (with_filter (without i exprs) p)
          | none ↦ ok (with_filter exprs no_plan)
        ]
        | none ↦ elim exprs [ [] ↦ ok (with_filter [] no_plan) | _ ∷ _ ↦ err no_such_table ]
      ]
