-- ===== src/Index/Node.antt =====
-- `BPlusTreeNode` (include/AkatsukiDB/Index/BPlusTreeNode.hpp, src/Index/BPlusTreeNode.cpp): a page
-- seen as a node of the tree, and the parts of `BPlusTree` that change one leaf. Indices and the
-- number of keys are not negative. A leaf's entries are a key, a page and a slot; an internal node has
-- a child before each key and one behind the last.
pub mod Search
pub mod Writes
pub mod Slots
pub mod Shift
pub mod Lists
pub mod Leaf
pub mod Ordered
pub mod Steps
use akatsuki_db.Base.{
  ℕ, zero, suc, ◌+◌, ◌-◌, ◌*◌, ◌/◌, Bool, true, false, Bytes, ℤ, pos, negsuc, pos_part, ltb, leb,
  ◌==◌, get_or, read_at, write_at, if◌then◌else◌, ◌∷◌, [],
}
use akatsuki_db.Storage.Page.{
  Page, page_size, mark_dirty, read_short, read_int, write_short, write_int,
}
use akatsuki_db.Index.Key.{IndexKey, mk_key, greater_equal, equal}
use akatsuki_db.Index.Key

abbrev pub Node : Type 0
Node = Page

-- `NodeType`
abbrev pub internal : ℕ
internal = 0

abbrev pub leaf : ℕ
leaf = 1

-- `InsertEntry`
pub record InsertEntry : Type 0 where
  pub key : IndexKey
  pub page_id : ℤ
  pub slot_index : ℤ

abbrev pub data_start : ℕ
data_start = 20

abbrev pub internal_entry_size : ℕ
internal_entry_size = Key.size + 4

abbrev pub leaf_entry_size : ℕ
leaf_entry_size = Key.size + 4 + 2

unfoldable pub internal_order : ℕ
internal_order = (page_size - data_start) / internal_entry_size

unfoldable pub leaf_order : ℕ
leaf_order = (page_size - data_start) / leaf_entry_size

-- `memcpy` into the page, and `MarkDirty`.
unfoldable pub put_bytes : ℕ → Bytes → Node → Node
unfolding mark_dirty
put_bytes off bs n = mark_dirty (record n { bytes = write_at off bs n.bytes })

unfoldable pub get_type : Node → ℕ
get_type n = get_or (read_at 0 1 n.bytes) 0 0

unfoldable pub set_type : ℕ → Node → Node
unfolding put_bytes
set_type t n = put_bytes 0 (t ∷ []) n

unfoldable pub get_key_count : Node → ℕ
unfolding read_short
get_key_count n = pos_part (read_short 1 n)

unfoldable pub set_key_count : ℕ → Node → Node
unfolding write_short
set_key_count count n = write_short 1 (pos count) n

unfoldable pub get_parent_page_id : Node → ℤ
unfolding read_int
get_parent_page_id n = read_int 3 n

unfoldable pub set_parent_page_id : ℤ → Node → Node
unfolding write_int
set_parent_page_id id n = write_int 3 id n

unfoldable pub get_next_leaf_page_id : Node → ℤ
unfolding read_int
get_next_leaf_page_id n = read_int 7 n

unfoldable pub set_next_leaf_page_id : ℤ → Node → Node
unfolding write_int
set_next_leaf_page_id id n = write_int 7 id n

unfoldable pub get_prev_leaf_page_id : Node → ℤ
unfolding read_int
get_prev_leaf_page_id n = read_int 11 n

unfoldable pub set_prev_leaf_page_id : ℤ → Node → Node
unfolding write_int
set_prev_leaf_page_id id n = write_int 11 id n

unfoldable pub get_page_id : Node → ℤ
unfolding read_int
get_page_id n = read_int 15 n

unfoldable pub set_page_id : ℤ → Node → Node
unfolding write_int
set_page_id id n = write_int 15 id n

unfoldable pub create_leaf : ℤ → Page → Node
unfolding set_next_leaf_page_id set_prev_leaf_page_id set_page_id set_type
create_leaf id page =
    set_type leaf
      (set_page_id id (set_prev_leaf_page_id (negsuc 0) (set_next_leaf_page_id (negsuc 0) page)))

unfoldable pub create_internal : ℤ → Page → Node
unfolding set_page_id set_type
create_internal id page = set_type internal (set_page_id id page)

-- Where the key of an index stands.
unfoldable pub key_offset : ℕ → Node → ℕ
unfolding get_type
key_offset i n =
    data_start + (if get_type n == leaf then i * leaf_entry_size else i * internal_entry_size + 4)

unfoldable pub get_key : ℕ → Node → IndexKey
unfolding key_offset
get_key i n = mk_key (read_at (key_offset i n) Key.size n.bytes)

unfoldable pub set_key : ℕ → IndexKey → Node → Node
unfolding key_offset put_bytes
set_key i key n = put_bytes (key_offset i n) key.bytes n

abbrev pub location_offset : ℕ → ℕ
location_offset i = data_start + i * leaf_entry_size + Key.size

unfoldable pub get_row_location : ℕ → Node → ℤ × ℤ
unfolding read_int read_short
get_row_location i n = (read_int (location_offset i) n, read_short (location_offset i + 4) n)

unfoldable pub set_row_location : ℕ → ℤ × ℤ → Node → Node
unfolding write_int write_short
set_row_location i (page_id, slot) n =
    write_short (location_offset i + 4) slot (write_int (location_offset i) page_id n)

abbrev pub child_offset : ℕ → ℕ
child_offset i = data_start + i * internal_entry_size

unfoldable pub get_child_page_id : ℕ → Node → ℤ
unfolding read_int
get_child_page_id i n = read_int (child_offset i) n

unfoldable pub set_child_page_id : ℕ → ℤ → Node → Node
unfolding write_int
set_child_page_id i id n = write_int (child_offset i) id n

-- The loop of `FindKeyIndex`: `right` is one more than the source's `r`, which can be -1.
unfoldable pub search_loop : (ℕ → Bool) → ℕ → ℕ → ℕ → ℕ → ℕ
search_loop not_less zero left right ans = ans
search_loop not_less (suc fuel) left right ans =
    let mid = (left + right - 1) / 2 in
    let found = not_less mid in
    let rest =
      search_loop not_less fuel (if found then left else mid + 1) (if found then mid else right)
        (if found then mid else ans) in
    if ltb left right then rest else ans

unfoldable pub find_key_index : IndexKey → Node → ℕ
unfolding search_loop get_key get_key_count
find_key_index key n =
    let count = get_key_count n in
    search_loop (λ mid. greater_equal (get_key mid n) key) (count + 1) 0 count count

unfoldable pub is_leaf_full : Node → Bool
unfolding get_key_count leaf_order
is_leaf_full n = leb leaf_order (get_key_count n)

unfoldable pub is_internal_full : Node → Bool
unfolding get_key_count internal_order
is_internal_full n = leb internal_order (get_key_count n)

unfoldable pub get_entry : ℕ → Node → InsertEntry
unfolding get_key get_row_location
get_entry i n =
    let (page_id, slot) = get_row_location i n in
    record { key = get_key i n; page_id = page_id; slot_index = slot }

-- A key and its location, written to an index of a leaf.
unfoldable pub set_entry : ℕ → InsertEntry → Node → Node
unfolding set_key set_row_location
set_entry i e n = set_row_location i (e.page_id, e.slot_index) (set_key i e.key n)

-- The body of the loops that move entries: the key first, then the location.
unfoldable pub copy_entry : ℕ → ℕ → Node → Node
unfolding set_key get_key set_row_location get_row_location
copy_entry from to n =
    let n' = set_key to (get_key from n) n in set_row_location to (get_row_location from n') n'

-- The loop of `InsertIntoLeaf`: the `moves` entries from `index` on move up by one, the last first.
unfoldable pub shift_right : ℕ → ℕ → Node → Node
unfolding copy_entry
shift_right zero index n = n
shift_right (suc moves) index n =
    let i = index + moves in shift_right moves index (copy_entry i (i + 1) n)

unfoldable pub insert_into_leaf : InsertEntry → Node → Node
unfolding find_key_index shift_right set_entry set_key_count get_key_count mark_dirty
insert_into_leaf e n =
    let index = find_key_index e.key n in
    let shifted = shift_right (get_key_count n - index) index n in
    let written = set_entry index e shifted in
    mark_dirty (set_key_count (get_key_count written + 1) written)

-- The loop of `DeleteFromLeaf`: the `moves` entries behind `index` move down by one, the first first.
unfoldable pub shift_left : ℕ → ℕ → Node → Node
unfolding copy_entry
shift_left zero index n = n
shift_left (suc moves) index n = shift_left moves (index + 1) (copy_entry (index + 1) index n)

-- What is returned, and the leaf.
unfoldable pub delete_from_leaf : IndexKey → Node → Bool × Node
unfolding find_key_index get_key get_key_count shift_left set_key_count
delete_from_leaf key n =
    let index = find_key_index key n in
    let count = get_key_count n in
    let shifted = shift_left (count - 1 - index) index n in
    if leb count index
    then (false, n)
    else if equal (get_key index n) key
    then (true, set_key_count (get_key_count shifted - 1) shifted)
    else (false, n)
