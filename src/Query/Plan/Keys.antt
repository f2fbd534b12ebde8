-- ===== src/Query/Plan/Keys.antt =====
-- The keys and the intervals of the plans for a column of type int.
use akatsuki_db.Base.{
  ℕ, zero, suc, ◌^◌, ◌<◌, ◌≡◌, refl, Bool, true, false, not, ◌&&◌, Option, none, some, List, [],
  ◌∷◌, ◌++◌, Bytes, ℤ, pos, negsuc, ltb_ℤ, eqb_ℤ, IsInt, arith, replicate, write_at, if◌then◌else◌,
  Result, ok, ◌>>=◌,
}
use akatsuki_db.Query.Text.{eq_text}
use akatsuki_db.Query.Word
use akatsuki_db.Query.Expression.{int}
use akatsuki_db.Query.Schema.{ColumnDefinition}
use akatsuki_db.Query.Eval.{Numbers, compare_any, compare_double, try_double}
use akatsuki_db.Query.Plan.{
  ScanPlan, full, point, range, PlanError, IndexMap, find_tree, get_column_type, plan_point,
  plan_greater, plan_less, coerce_to_column_type, key, point_plan, range_plan,
}
use akatsuki_db.Index.Key.{
  IndexKey, mk_key, key_of, compare_bytes, compare_to, equal, less, greater, be_bytes4, int_code,
  write_bytes, min_key, max_key,
}
use akatsuki_db.Index.Key.Order.{key_of-int_order}

-- The keys whose rows a scan by the plan finds.
unfoldable pub takes : {D T : Type 0} → ScanPlan D T → IndexKey → Bool
takes p k = elim p.scan_type [
  | full ↦ true
  | point ↦ equal k p.point_key
  | range ↦
      not (less k p.range_start)
      && not (p.range_start_open && equal k p.range_start)
      && (not (greater k p.range_end) && not (p.range_end_open && equal k p.range_end))
]

-- The key of a number.
abbrev pub int_key : ℤ → IndexKey
int_key n = mk_key (be_bytes4 (int_code n) ++ replicate 124 0)

module _ {D : Type 0} (num : Numbers D) where
  pub key-int : (n : ℤ) → key num (int n) ≡ ok (int_key n)
  unfolding key_of write_bytes be_bytes4 write_at
  key-int n = refl

  pub key_of-int : (n : ℤ) → key_of num.bits (int n ∷ []) ≡ ok (int_key n)
  unfolding key_of write_bytes be_bytes4 write_at
  key_of-int n = refl

-- No key lies below `Min`; the key of a number lies below `Max`.
compare_bytes-min : (n : ℕ) (s : Bytes) → ltb_ℤ (compare_bytes s (replicate n 0)) (pos 0) ≡ false
unfolding compare_bytes
compare_bytes-min zero [] = refl
compare_bytes-min (suc n) [] = refl
compare_bytes-min zero (c ∷ s) = refl
compare_bytes-min (suc n) (c ∷ s) = ground (arith, compare_bytes-min n s)

pub int_key-min : (n : ℤ) → less (int_key n) min_key ≡ false
int_key-min n = compare_bytes-min 128 (be_bytes4 (int_code n) ++ replicate 124 0)

pub int_key-max : (n : ℤ) → compare_to (int_key n) max_key ≡ negsuc 0
unfolding compare_bytes be_bytes4
int_key-max n = below (int_code n) (omega arith)
  where
    below :
        (v : ℕ)
        → v < 2 ^ 32
        → compare_bytes (be_bytes4 v ++ replicate 124 0) (replicate 128 255) ≡ negsuc 0
    below v h = ground arith

-- The sign of a comparison.
abbrev pub sign : ℤ → ℤ → ℤ
sign m n = if ltb_ℤ m n then negsuc 0 else if ltb_ℤ n m then pos 1 else pos 0

pub by_sign : (m n : ℤ) (Q : ℤ → Type 0) → Q (negsuc 0) → Q (pos 0) → Q (pos 1) → Q (sign m n)
by_sign m n Q l e g = by_tests (ltb_ℤ m n) (ltb_ℤ n m)
  where
    by_tests : (a b : Bool) → Q (if a then negsuc 0 else if b then pos 1 else pos 0)
    by_tests true b = l
    by_tests false true = g
    by_tests false false = e

-- Whether a key lies in an interval, from how it compares with the two ends.
abbrev pub interval : ℤ → ℤ → Bool → Bool → Bool
interval a b start_open end_open =
    not (ltb_ℤ a (pos 0))
    && not (start_open && eqb_ℤ a (pos 0))
    && (not (ltb_ℤ (pos 0) b) && not (end_open && eqb_ℤ b (pos 0)))

pub interval-start :
    (a b : ℤ) (end_open : Bool)
    → ltb_ℤ a (pos 0) ≡ false
    → interval a b false end_open ≡ (not (ltb_ℤ (pos 0) b) && not (end_open && eqb_ℤ b (pos 0)))
interval-start a b end_open h = rw h

abbrev pub found : {T P : Type 0} → Option T → (T → P) → Result PlanError (Option P)
found o f = elim o [ some tree ↦ ok (some (f tree)) | none ↦ ok none ]

pub found-inv :
    {T P : Type 0} (o : Option T) (f : T → P) (p : P) (r : Result PlanError (Option P))
    → r ≡ found o f
    → (r >>= λ x. elim x [ some y ↦ ok (some y) | none ↦ ok none ]) ≡ ok (some p)
    → (tree : T) × (p ≡ f tree)
found-inv none f p r e h = absurd (ground arith)
found-inv (some tree) f p r e h = (tree, ground arith)

module _ {D : Type 0} (num : Numbers D) where
  -- The conversion of an `int` to a `double` is exact and keeps the order.
  abbrev pub IsExact : Type 0
  IsExact = (m n : ℤ) → IsInt m → IsInt n → num.less (num.of_int m) (num.of_int n) ≡ ltb_ℤ m n

  module _ (m n : ℤ) (im : IsInt m) (in' : IsInt n) where
    pub compare_any-sign : IsExact → compare_any num (int m) (int n) ≡ sign m n
    unfolding compare_any compare_double try_double
    compare_any-sign exact = rw (exact m n im in', exact n m in' im)

    pub compare_to-sign : compare_to (int_key m) (int_key n) ≡ sign m n
    compare_to-sign = ground (
      arith,
      key_of-int_order num.bits m n (int_key m) (int_key n) im in' (key_of-int num m)
          (key_of-int num n),
    )

module _ {D T : Type 0} (num : Numbers D) (columns : List (ColumnDefinition D)) (table : Bytes)
    (indexes : IndexMap T) (c : Bytes) (hc : get_column_type c columns ≡ ok Word.int) (op : Bytes)
    (n : ℤ) where
  pub plan_point-int :
      plan_point num columns table indexes (c, (op, int n))
      ≡ found (find_tree table c indexes) (λ tree. point_plan tree (int_key n))
  unfolding plan_point eq_text coerce_to_column_type key_of write_bytes be_bytes4 write_at
  plan_point-int = rw hc

  pub plan_greater-int :
      plan_greater num columns table indexes (c, (op, int n))
      ≡ found
          (find_tree table c indexes)
          (λ tree. range_plan tree (int_key n) max_key (eq_text op Word.gt) false)
  unfolding plan_greater eq_text coerce_to_column_type key_of write_bytes be_bytes4 write_at
  plan_greater-int = rw hc

  pub plan_less-int :
      plan_less num columns table indexes (c, (op, int n))
      ≡ found
          (find_tree table c indexes)
          (λ tree. range_plan tree min_key (int_key n) false (eq_text op Word.lt))
  unfolding plan_less eq_text coerce_to_column_type key_of write_bytes be_bytes4 write_at
  plan_less-int = rw hc
