-- ===== src/Index/Tree/Query.antt =====
-- `PointQuery` and `RangeQuery`: the leaves from the one where the start belongs are walked along
-- their links.
use akatsuki_db.Base.{
  ℕ, zero, suc, ◌+◌, ◌-◌, ◌*◌, ◌^◌, Bool, true, false, ◌&&◌, ◌||◌, Option, none, some, List, [],
  ◌∷◌, ◌++◌, ℤ, negsuc, eqb_ℤ, leb, if◌then◌else◌, Result, ok, err, ◌>>=◌,
}
use akatsuki_db.Storage.LruCache.{Address}
use akatsuki_db.Storage.BufferPool.{BufferPool, total_pages}
use akatsuki_db.Index.Key.{IndexKey, equal, greater}
use akatsuki_db.Index.Node.{
  Node, get_key_count, get_key, find_key_index, get_row_location, get_next_leaf_page_id,
}
use akatsuki_db.Index.Tree.{TreeError, endless, BPlusTree, node_at, load_node, find_leaf}

abbrev pub RowLocations : Type 0
RowLocations = List (ℤ × ℤ)

-- Behind the last key of a leaf comes the first of the next; `none` where there is no next leaf.
unfoldable pub advance :
    ℕ → Address → BufferPool → Result TreeError (Option (ℕ × Address) × BufferPool)
unfolding get_key_count get_next_leaf_page_id load_node eqb_ℤ
advance index a s =
    if leb (get_key_count (node_at a s)) index
    then if eqb_ℤ (get_next_leaf_page_id (node_at a s)) (negsuc 0)
      then ok (none, s)
      else (load_node (get_next_leaf_page_id (node_at a s)) s >>= λ (b, s'). ok (some (0, b), s'))
    else ok (some (index, a), s)

-- `result` holds what was found so far.
unfoldable pub point_loop :
    ℕ
    → IndexKey
    → ℕ
    → RowLocations
    → Address
    → BufferPool
    → Result TreeError (RowLocations × BufferPool)
unfolding advance get_key get_row_location
point_loop zero key index result a s = err endless
point_loop (suc fuel) key index result a s = advance index a s >>= λ (place, s'). elim place [
  | none ↦ ok (result, s')
  | some (i, b) ↦ elim (equal (get_key i (node_at b s')) key) [
    | false ↦ ok (result, s')
    | true ↦ point_loop fuel key (i + 1) (result ++ get_row_location i (node_at b s') ∷ []) b s'
  ]
]

-- A leaf has fewer than 2^15 keys.
unfoldable pub point_query : IndexKey → BPlusTree → Result TreeError (RowLocations × BPlusTree)
unfolding find_leaf find_key_index point_loop total_pages
point_query key t = find_leaf key t >>= λ (a, s).
    point_loop ((total_pages t.pool + 1) * 2 ^ 15) key (find_key_index key (node_at a s)) [] a s
    >>= λ (result, s'). ok (result, record t { pool = s' })

-- The keys of one leaf from an index on: what is found, and whether the end was reached.
unfoldable pub scan_leaf : ℕ → ℕ → IndexKey → IndexKey → Bool → Bool → Node → RowLocations × Bool
unfolding get_key get_row_location
scan_leaf zero index start end start_open end_open n = ([], false)
scan_leaf (suc keys) index start end start_open end_open n =
    let key = get_key index n in
    let (found, stopped) = scan_leaf keys (index + 1) start end start_open end_open n in
    if greater key end || end_open && equal key end
    then ([], true)
    else if start_open && equal key start
    then (found, stopped)
    else (get_row_location index n ∷ found, stopped)

unfoldable pub range_loop :
    ℕ
    → ℕ
    → IndexKey
    → IndexKey
    → Bool
    → Bool
    → Address
    → BufferPool
    → Result TreeError (RowLocations × BufferPool)
unfolding scan_leaf get_key_count get_next_leaf_page_id load_node eqb_ℤ
range_loop zero index start end start_open end_open a s = err endless
range_loop (suc fuel) index start end start_open end_open a s =
    let n = node_at a s in
    let (found, stopped) =
      scan_leaf (get_key_count n - index) index start end start_open end_open n in
    if stopped || eqb_ℤ (get_next_leaf_page_id n) (negsuc 0)
    then ok (found, s)
    else (load_node (get_next_leaf_page_id n) s >>= λ (b, s').
        range_loop fuel 0 start end start_open end_open b s' >>= λ (later, s'').
        ok (found ++ later, s''))

unfoldable pub range_query :
    IndexKey → IndexKey → Bool → Bool → BPlusTree → Result TreeError (RowLocations × BPlusTree)
unfolding find_leaf find_key_index range_loop total_pages
range_query start end start_open end_open t = find_leaf start t >>= λ (a, s).
    range_loop (total_pages t.pool) (find_key_index start (node_at a s)) start end start_open
      end_open a s
    >>= λ (found, s'). ok (found, record t { pool = s' })
