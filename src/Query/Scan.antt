-- ===== src/Query/Scan.antt =====
-- `BuildKeyForTree` and `GetScannedRows` (src/AQL/Executor/Executor.cpp): the rows of a plan, by a full
-- scan or through an index. `std::sort` of the locations is a parameter.
use akatsuki_db.Base.{
  ℕ, Option, none, some, List, [], ◌∷◌, map, Bytes, ℤ, pos, pos_part, eqb_ℤ, if◌then◌else◌, Result,
  ok, err, ◌>>=◌,
}
use akatsuki_db.Storage.Page.{get_slot}
use akatsuki_db.Storage.PageManager.{StorageError}
use akatsuki_db.Storage.LruCache.{Address}
use akatsuki_db.Storage.BufferPool.{BufferPool, get_page}
use akatsuki_db.Table.Manager.{TableManager, RowEntry, full_scan}
use akatsuki_db.Table.Row.{deserialize}
use akatsuki_db.Index.Key.{IndexKey, KeyError, key_of}
use akatsuki_db.Index.Tree.{TreeError, BPlusTree}
use akatsuki_db.Index.Tree.Query.{RowLocations, point_query, range_query}
use akatsuki_db.Query.Expression.{Expr}
use akatsuki_db.Query.Schema.{ColumnDefinition, TableDefinition}
use akatsuki_db.Query.Eval.{Numbers, Row, EvalError, or_null}
use akatsuki_db.Query.Plan.{full, point, range, ScanPlan, passes_filter}

pub data ScanError : Type 0 where
  storage : StorageError → ScanError
  tree : TreeError → ScanError
  filter : EvalError → ScanError

abbrev pub thrown : {X V : Type 0} → (X → ScanError) → Result X V → Result ScanError V
thrown wrap (ok v) = ok v
thrown wrap (err x) = err (wrap x)

pub record ScannedRow (D : Type 0) : Type 0 where
  pub page_id : ℤ
  pub slot_index : ℤ
  pub row : Row D

module _ {D : Type 0} (num : Numbers D) where
  unfoldable pub build_key_for_tree : Row D → List Bytes → Result KeyError IndexKey
  unfolding key_of
  build_key_for_tree row columns = key_of num.bits (map (λ c. or_null (row c)) columns)

  -- A row that passes the conditions goes before the rows that follow.
  unfoldable pub push_passing :
      List (Expr D)
      → ScannedRow D
      → Result ScanError (List (ScannedRow D))
      → Result ScanError (List (ScannedRow D))
  unfolding passes_filter
  push_passing filters r rest = thrown filter (passes_filter num filters r.row) >>= λ b.
      if b then (rest >>= λ rs. ok (r ∷ rs)) else rest

  -- The loop over the entries of a full scan.
  unfoldable pub filter_entries :
      List (Expr D)
      → List (ColumnDefinition D)
      → List RowEntry
      → Result ScanError (List (ScannedRow D))
  unfolding push_passing deserialize
  filter_entries filters columns [] = ok []
  filter_entries filters columns (e ∷ es) =
      push_passing filters
        (record {
          page_id = pos e.page_id;
          slot_index = pos e.slot_index;
          row = deserialize num e.row_bytes columns;
        })
        (filter_entries filters columns es)

  -- The page of a location: `currentPage`, if it is that one.
  unfoldable pub current_page :
      ℤ → Option (ℤ × Address) → BufferPool → Result ScanError (Address × BufferPool)
  unfolding get_page eqb_ℤ
  current_page id none s = thrown storage (get_page id s)
  current_page id (some (current, a)) s =
      if eqb_ℤ id current then ok (a, s) else thrown storage (get_page id s)

  -- The loop over the locations that the index gave.
  unfoldable pub filter_locations :
      List (Expr D)
      → List (ColumnDefinition D)
      → ℕ
      → RowLocations
      → Option (ℤ × Address)
      → BufferPool
      → Result ScanError (List (ScannedRow D) × BufferPool)
  unfolding current_page deserialize passes_filter get_slot
  filter_locations filters columns size [] current s = ok ([], s)
  filter_locations filters columns size ((id, slot) ∷ ls) current s =
      current_page id current s >>= λ (a, s').
      let row = deserialize num (get_slot (pos_part slot) size (s'.objects a)) columns in
      thrown filter (passes_filter num filters row) >>= λ b.
      filter_locations filters columns size ls (some (id, a)) s' >>= λ (rows, s'').
      ok (if b then record { page_id = id; slot_index = slot; row = row } ∷ rows else rows, s'')

  module _ (sort : RowLocations → RowLocations) where
    -- The locations of a plan that is not a full scan, and the tree after the query.
    unfoldable pub planned_locations :
        ScanPlan D BPlusTree → Result ScanError (RowLocations × Option BPlusTree)
    unfolding point_query range_query
    planned_locations plan = elim plan.index [
      | none ↦ ok ([], none)
      | some t ↦ elim plan.scan_type [
        | full ↦ ok ([], some t)
        | point ↦ thrown tree (point_query plan.point_key t) >>= λ (ls, t'). ok (ls, some t')
        | range ↦
            thrown tree (
              range_query plan.range_start plan.range_end plan.range_start_open plan.range_end_open
                t)
            >>= λ (ls, t'). ok (ls, some t')
      ]
    ]

    -- The rows, the table, and the index that the plan names.
    unfoldable pub get_scanned_rows :
        TableDefinition D
        → ScanPlan D BPlusTree
        → TableManager
        → Result ScanError (List (ScannedRow D) × TableManager × Option BPlusTree)
    unfolding full_scan filter_entries planned_locations filter_locations
    get_scanned_rows def plan t = elim plan.scan_type [
      | full ↦ thrown storage (full_scan t) >>= λ (entries, t').
          filter_entries plan.filter_after def.columns entries >>= λ rows. ok (rows, t', plan.index)
      | _ ↦ planned_locations plan >>= λ (ls, index).
          filter_locations plan.filter_after def.columns t.row_size_bytes (sort ls) none t.pool
          >>= λ (rows, s). ok (rows, record t { pool = s }, index)
    ]
