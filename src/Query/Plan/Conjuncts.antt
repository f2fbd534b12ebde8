-- ===== src/Query/Plan/Conjuncts.antt =====
-- What `ScanPlanner::Decide` makes of a WHERE clause: its conditions, in order, less the one that an
-- index serves.
use akatsuki_db.Base.{
  ℕ, suc, ◌+◌, ◌≡◌, refl, sym, ap, ◌∙◌, ◌⊎◌, inl, inr, Bool, true, false, Bool-cases, Option, none,
  some, List, [], ◌∷◌, ◌++◌, Bytes, arith, if◌then◌else◌, Result, ok, err, ◌>>=◌,
}
use mathlib.Core.Path.{subst}
use akatsuki_db.Query.Text.{eq_text}
use akatsuki_db.Query.Word
use akatsuki_db.Query.Expression.{
  Expr, binary, literal, column, unary, call, is_null, between, among, like,
}
use akatsuki_db.Query.Schema.{ColumnDefinition, TableDefinition, get_table}
use akatsuki_db.Query.Eval.{Numbers, EvalError, Row, evaluate_bool}
use akatsuki_db.Query.Plan.{
  ScanPlan, no_plan, PlanError, IndexMap, flat_and, belonging, try_index, choose, without,
  with_filter, decide, passes_filter,
}

module _ {D : Type 0} (num : Numbers D) (row : Row D) where
  abbrev both : Result EvalError Bool → Result EvalError Bool → Result EvalError Bool
  both r s = r >>= λ b. if b then s else ok false

  both_assoc : (r s t : Result EvalError Bool) → both (both r s) t ≡ both r (both s t)
  both_assoc (ok true) s t = refl
  both_assoc (ok false) s t = refl
  both_assoc (err e) s t = refl

  both-true : (r : Result EvalError Bool) → both r (ok true) ≡ r
  both-true (ok true) = refl
  both-true (ok false) = refl
  both-true (err e) = refl

  passes_filter-append :
      (xs ys : List (Expr D))
      → passes_filter num (xs ++ ys) row
        ≡ both (passes_filter num xs row) (passes_filter num ys row)
  unfolding passes_filter
  passes_filter-append [] ys = refl
  passes_filter-append (x ∷ xs) ys =
      ap (both (evaluate_bool num x row)) (passes_filter-append xs ys)
      ∙ sym (
          both_assoc (evaluate_bool num x row) (passes_filter num xs row)
            (passes_filter num ys row))

  passes_filter-one :
      (xs : List (Expr D)) (e : Expr D)
      → passes_filter num (xs ++ e ∷ []) row
        ≡ both (passes_filter num xs row) (evaluate_bool num e row)
  passes_filter-one xs e =
      passes_filter-append xs (e ∷ [])
      ∙ ap (both (passes_filter num xs row))
          (unfold passes_filter in both-true (evaluate_bool num e row))

  flat_and-and :
      (xs : List (Expr D)) (l r : Expr D) (op : Bytes)
      → eq_text op Word.and ≡ true
      → flat_and xs (binary l op r) ≡ flat_and (flat_and xs l) r
  unfolding flat_and
  flat_and-and xs l r op h = rw h

  flat_and-other :
      (xs : List (Expr D)) (l r : Expr D) (op : Bytes)
      → eq_text op Word.and ≡ false
      → flat_and xs (binary l op r) ≡ xs ++ binary l op r ∷ []
  unfolding flat_and
  flat_and-other xs l r op h = rw h

  evaluate_bool-and :
      (l r : Expr D) (op : Bytes)
      → eq_text op Word.and ≡ true
      → evaluate_bool num (binary l op r) row
        ≡ both (evaluate_bool num l row) (evaluate_bool num r row)
  unfolding evaluate_bool
  evaluate_bool-and l r op h = rw h

  passes_filter-flat_and :
      (xs : List (Expr D)) (e : Expr D)
      → passes_filter num (flat_and xs e) row
        ≡ both (passes_filter num xs row) (evaluate_bool num e row)
  passes_filter-flat_and xs (binary l op r) = elim (Bool-cases (eq_text op Word.and)) [
    | inl h ↦
        ap (λ es. passes_filter num es row) (flat_and-and xs l r op h)
        ∙ passes_filter-flat_and (flat_and xs l) r
        ∙ ap (λ x. both x (evaluate_bool num r row)) (passes_filter-flat_and xs l)
        ∙ both_assoc (passes_filter num xs row) (evaluate_bool num l row) (evaluate_bool num r row)
        ∙ ap (both (passes_filter num xs row)) (sym (evaluate_bool-and l r op h))
    | inr h ↦
        ap (λ es. passes_filter num es row) (flat_and-other xs l r op h)
        ∙ passes_filter-one xs (binary l op r)
  ]
  passes_filter-flat_and xs (literal v) = unfold flat_and in passes_filter-one xs (literal v)
  passes_filter-flat_and xs (column c t q) = unfold flat_and in passes_filter-one xs (column c t q)
  passes_filter-flat_and xs (unary e op) = unfold flat_and in passes_filter-one xs (unary e op)
  passes_filter-flat_and xs (call f es) = unfold flat_and in passes_filter-one xs (call f es)
  passes_filter-flat_and xs (is_null e n) = unfold flat_and in passes_filter-one xs (is_null e n)
  passes_filter-flat_and xs (between e l h) =
      unfold flat_and in passes_filter-one xs (between e l h)
  passes_filter-flat_and xs (among e es) = unfold flat_and in passes_filter-one xs (among e es)
  passes_filter-flat_and xs (like e p) = unfold flat_and in passes_filter-one xs (like e p)

  -- The conditions that AND joins, tested one after the other, give what the whole clause evaluates
  -- to on a row, a thrown exception included.
  pub passes_filter-conditions :
      (e : Expr D) → passes_filter num (flat_and [] e) row ≡ evaluate_bool num e row
  passes_filter-conditions e = passes_filter-flat_and [] e ∙ unfold passes_filter in refl

module _ {D T : Type 0} (num : Numbers D) where
  module _ (columns : List (ColumnDefinition D)) (table : Bytes) (indexes : IndexMap T) where
    -- No condition of the list has an index.
    abbrev pub IsUnserved : List (Expr D) → Type 0
    IsUnserved [] = Unit {0}
    IsUnserved (e ∷ es) = (try_index num columns table indexes e ≡ ok none) × IsUnserved es

  -- `es` is split at the one condition that the index serves; no condition before it has an index.
  abbrev pub IsSplit :
      List (ColumnDefinition D)
      → Bytes
      → IndexMap T
      → List (Expr D)
      → ScanPlan D T
      → List (Expr D)
      → Type 0
  IsSplit columns table indexes es p kept =
      (before : List (Expr D)) × (e : Expr D) × (after : List (Expr D)) × (es ≡ before ++ e ∷ after)
      × (kept ≡ before ++ after)
      × IsUnserved columns table indexes before
      × (try_index num columns table indexes e ≡ ok (some p))

  module _ (columns : List (ColumnDefinition D)) (table : Bytes) (indexes : IndexMap T) where
    choose-step :
        (i : ℕ) (e : Expr D) (es : List (Expr D)) (r : Result PlanError (Option (ScanPlan D T)))
        → try_index num columns table indexes e ≡ r
        → choose num columns table indexes i (e ∷ es) ≡ (
            r >>= λ o. elim o [
              | some p ↦ ok (some (i, p))
              | none ↦ choose num columns table indexes (suc i) es
            ])
    unfolding choose
    choose-step i e es r h =
        ap
          (λ x. x >>= λ o. elim o [
            | some p ↦ ok (some (i, p))
            | none ↦ choose num columns table indexes (suc i) es
          ])
          h

    -- The condition at the chosen place is the one whose plan is taken, and the others are kept.
    choose-IsSplit :
        (i : ℕ) (es : List (Expr D)) (k : ℕ) (p : ScanPlan D T)
        → choose num columns table indexes i es ≡ ok (some (k, p))
        → (j : ℕ) × (k ≡ i + j) × IsSplit columns table indexes es p (without j es)
    choose-IsSplit i [] k p h = absurd (unfold choose in ground arith)
    choose-IsSplit i (e ∷ es) k p h =
        by_cases (try_index num columns table indexes e) refl (choose-IsSplit (suc i) es k p)
      where
        by_cases :
            (r : Result PlanError (Option (ScanPlan D T)))
            → try_index num columns table indexes e ≡ r
            → (choose num columns table indexes (suc i) es ≡ ok (some (k, p))
                → (j : ℕ) × (k ≡ suc i + j) × IsSplit columns table indexes es p (without j es))
            → (j : ℕ) × (k ≡ i + j) × IsSplit columns table indexes (e ∷ es) p (without j (e ∷ es))
        by_cases (err x) er rest = absurd (clash (sym (choose-step i e es (err x) er) ∙ h))
          where
            clash :
                ◌≡◌ {A = Result PlanError (Option (ℕ × ScanPlan D T))} (err x) (ok (some (k, p)))
                → ⊥
            clash c = ground arith
        by_cases (ok (some q)) er rest =
            let (ei, ep) = found (sym (choose-step i e es (ok (some q)) er) ∙ h) in
            (
              0,
              omega (arith, ei),
              ([], e, es, refl, unfold without in refl, tt, er ∙ ap (λ x. ok (some x)) ep),
            )
          where
            found :
                ◌≡◌ {A = Result PlanError (Option (ℕ × ScanPlan D T))}
                  (ok (some (i, q)))
                  (ok (some (k, p)))
                → (i ≡ k) × (q ≡ p)
            found c = ground arith
        by_cases (ok none) er rest =
            let (j, ek, (before, e', after, split, kept, unserved, tried)) =
              rest (sym (choose-step i e es (ok none) er) ∙ h) in
            (
              suc j,
              omega (arith, ek),
              (
                e ∷ before,
                e',
                after,
                ap (◌∷◌ e) split,
                unfold without in ap (◌∷◌ e) kept,
                (er, unserved),
                tried,
              ),
            )

    choose-none :
        (i : ℕ) (es : List (Expr D))
        → choose num columns table indexes i es ≡ ok none
        → IsUnserved columns table indexes es
    choose-none i [] h = tt
    choose-none i (e ∷ es) h =
        by_cases (try_index num columns table indexes e) refl (choose-none (suc i) es)
      where
        by_cases :
            (r : Result PlanError (Option (ScanPlan D T)))
            → try_index num columns table indexes e ≡ r
            → (choose num columns table indexes (suc i) es ≡ ok none
                → IsUnserved columns table indexes es)
            → (try_index num columns table indexes e ≡ ok none)
              × IsUnserved columns table indexes es
        by_cases (err x) er rest = absurd (clash (sym (choose-step i e es (err x) er) ∙ h))
          where
            clash : ◌≡◌ {A = Result PlanError (Option (ℕ × ScanPlan D T))} (err x) (ok none) → ⊥
            clash c = ground arith
        by_cases (ok (some q)) er rest =
            absurd (clash (sym (choose-step i e es (ok (some q)) er) ∙ h))
          where
            clash :
                ◌≡◌ {A = Result PlanError (Option (ℕ × ScanPlan D T))} (ok (some (i, q))) (ok none)
                → ⊥
            clash c = ground arith
        by_cases (ok none) er rest = (er, rest (sym (choose-step i e es (ok none) er) ∙ h))

  -- The plan keeps every condition on the table and loses none: it is a full scan that tests all of
  -- them, when no condition has an index; or it takes the scan that serves one condition, before
  -- which none has an index, and tests all the others, in order.
  pub decide-conditions :
      (schemas : List (Bytes × TableDefinition D)) (table : Bytes) (indexes : IndexMap T)
      (e : Expr D) (def : TableDefinition D) (plan : ScanPlan D T)
      → get_table table schemas ≡ some def
      → decide num schemas table indexes (some e) ≡ ok plan
      → ((plan ≡ with_filter (belonging table (flat_and [] e)) no_plan)
          × IsUnserved def.columns table indexes (belonging table (flat_and [] e)))
        ⊎ ((p : ScanPlan D T) × (kept : List (Expr D)) × (plan ≡ with_filter kept p)
            × IsSplit def.columns table indexes (belonging table (flat_and [] e)) p kept)
  unfolding decide
  decide-conditions schemas table indexes e def plan hd h =
      by_cases (choose num def.columns table indexes 0 exprs) refl
    where
      exprs : List (Expr D)
      exprs = belonging table (flat_and [] e)

      finish : Option (ℕ × ScanPlan D T) → Result PlanError (ScanPlan D T)
      finish o = elim o [
        | some (i, p) ↦ ok (with_filter (without i exprs) p)
        | none ↦ ok (with_filter exprs no_plan)
      ]

      decided :
          decide num schemas table indexes (some e)
          ≡ (choose num def.columns table indexes 0 exprs >>= finish)
      decided = rw (hd, decide)

      same :
          {r : Result PlanError (Option (ℕ × ScanPlan D T))}
          → choose num def.columns table indexes 0 exprs ≡ r
          → (r >>= finish) ≡ ok plan
      same hr = ap (λ r. r >>= finish) (sym hr) ∙ sym decided ∙ h

      value :
          {q : ScanPlan D T} → ◌≡◌ {A = Result PlanError (ScanPlan D T)} (ok q) (ok plan) → plan ≡ q
      value c = ground arith

      by_cases :
          (r : Result PlanError (Option (ℕ × ScanPlan D T)))
          → choose num def.columns table indexes 0 exprs ≡ r
          → ((plan ≡ with_filter exprs no_plan) × IsUnserved def.columns table indexes exprs)
            ⊎ ((p : ScanPlan D T) × (kept : List (Expr D)) × (plan ≡ with_filter kept p)
                × IsSplit def.columns table indexes exprs p kept)
      by_cases (err x) hr = absurd (clash (same hr))
        where
          clash : ◌≡◌ {A = Result PlanError (ScanPlan D T)} (err x) (ok plan) → ⊥
          clash c = ground arith
      by_cases (ok none) hr =
          inl (value (same hr), choose-none def.columns table indexes 0 exprs hr)
      by_cases (ok (some (i, p))) hr =
          let (j, ej, split) = choose-IsSplit def.columns table indexes 0 exprs i p hr in
          inr (
            p,
            without i exprs,
            value (same hr),
            subst (λ k. IsSplit def.columns table indexes exprs p (without k exprs))
                (sym (omega (arith, ej))) split,
          )
