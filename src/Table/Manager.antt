-- ===== src/Table/Manager.antt =====
-- `TableManager` (include/AkatsukiDB/Table/TableManager.hpp, src/Table/TableManager.cpp): rows of one
-- size in the slots of a pool's pages; the last byte of a row is 1 when the row is deleted. A slot's
-- index is not negative and its row lies in the page: the source does not check either.
pub mod Slots
pub mod Writes
use akatsuki_db.Base.{
  ℕ, zero, suc, ◌+◌, ◌-◌, ◌*◌, Bool, true, false, List, [], ◌∷◌, ◌++◌, Bytes, ℤ, pos, negsuc,
  pos_part, ◌==◌, ltb, leb, take, get_or, set, if◌then◌else◌, Result, ok, err, ◌>>=◌,
}
use akatsuki_db.Storage.Page.{
  Page, page_size, page_header, mark_dirty, get_page_id, set_page_id, get_slot_count,
  set_slot_count, get_free_offset, set_free_offset, set_next_page_id, get_slot, put_slot,
}
use akatsuki_db.Storage.PageManager.{StorageError}
use akatsuki_db.Storage.LruCache.{Address}
use akatsuki_db.Storage.BufferPool.{BufferPool, modify, total_pages, allocate_page, get_page}

pub record TableManager : Type 0 where
  pub pool : BufferPool
  pub row_size_bytes : ℕ

pub record RowEntry : Type 0 where
  pub page_id : ℕ
  pub slot_index : ℕ
  pub row_bytes : Bytes

abbrev pub add : ℤ → ℕ → ℤ
add (pos a) b = pos (a + b)
add (negsuc a) b = if ltb a b then pos (b - 1 - a) else negsuc (a - b)

abbrev with_pool : BufferPool → TableManager → TableManager
with_pool s t = record t { pool = s }

-- A new data page: an empty page with its free offset and its number.
unfoldable pub prepare : ℕ → Page → Page
prepare id p = set_page_id (pos id) (set_free_offset (pos 16) p)

-- `AllocatePage`, `GetPage` and the two setters.
unfoldable pub add_page : BufferPool → Result StorageError (Address × BufferPool)
unfolding allocate_page get_page prepare modify
add_page s =
    let (id, s') = allocate_page s in
    get_page (pos id) s' >>= λ (a, s''). ok (a, modify a (prepare id) s'')

-- `PAGE_SIZE - usedSpace >= _rowSizeBytes`
abbrev pub has_space : ℕ → Page → Bool
has_space row_size p = elim (get_slot_count p) [
  | pos n ↦ leb (page_header + n * row_size + row_size) page_size
  | negsuc n ↦ true
]

unfoldable pub last_page : BufferPool → Result StorageError (Address × BufferPool)
unfolding total_pages get_page add_page
last_page s = (if total_pages s == 1 then add_page s >>= (λ (a, s'). ok s') else ok s) >>= λ s'.
    get_page (pos (total_pages s' - 1)) s'

-- The page that is full is linked to the new one.
unfoldable pub link_new_page : Address → BufferPool → Result StorageError (Address × BufferPool)
unfolding allocate_page get_page prepare modify
link_new_page a s =
    let (id, s') = allocate_page s in
    get_page (pos id) (modify a (λ p. mark_dirty (set_next_page_id (pos id) p)) s') >>= λ (b, s'').
    ok (b, modify b (prepare id) s'')

unfoldable pub get_page_with_space : ℕ → BufferPool → Result StorageError (Address × BufferPool)
unfolding last_page link_new_page
get_page_with_space row_size s = last_page s >>= λ (a, s').
    if has_space row_size (s'.objects a) then ok (a, s') else link_new_page a s'

-- What `InsertRow` does to the page.
unfoldable pub append_row : ℕ → Bytes → Page → Page
append_row row_size row p =
    let filled = put_slot (pos_part (get_slot_count p)) row_size (take row_size row) p in
    let counted = set_slot_count (add (get_slot_count p) 1) filled in
    mark_dirty (set_free_offset (add (get_free_offset counted) row_size) counted)

unfoldable pub insert_row : Bytes → TableManager → Result StorageError ((ℤ × ℤ) × TableManager)
unfolding get_page_with_space append_row modify
insert_row row t = get_page_with_space t.row_size_bytes t.pool >>= λ (a, s). ok (
  (get_page_id (s.objects a), get_slot_count (s.objects a)),
  with_pool (modify a (append_row t.row_size_bytes row) s) t,
)

unfoldable pub is_deleted : ℕ → Bytes → Bool
is_deleted row_size row = get_or row (row_size - 1) 0 == 1

unfoldable pub read_row : ℤ → ℕ → TableManager → Result StorageError (Bytes × TableManager)
unfolding get_page
read_row page_id slot t = get_page page_id t.pool >>= λ (a, s).
    ok (get_slot slot t.row_size_bytes (s.objects a), with_pool s t)

-- What the three writers do to the page.
unfoldable pub overwrite_row : ℕ → ℕ → Bytes → Page → Page
overwrite_row slot row_size row p = mark_dirty (put_slot slot row_size (take row_size row) p)

unfoldable pub flag_row : ℕ → ℕ → ℕ → Page → Page
flag_row flag slot row_size p =
    mark_dirty (put_slot slot row_size (set (get_slot slot row_size p) (row_size - 1) flag) p)

abbrev on_page : ℤ → (Page → Page) → TableManager → Result StorageError TableManager
on_page page_id f t = get_page page_id t.pool >>= λ (a, s). ok (with_pool (modify a f s) t)

unfoldable pub update_row : ℤ → ℕ → Bytes → TableManager → Result StorageError TableManager
unfolding get_page modify overwrite_row
update_row page_id slot row t = on_page page_id (overwrite_row slot t.row_size_bytes row) t

unfoldable pub undelete_row : ℤ → ℕ → Bytes → TableManager → Result StorageError TableManager
unfolding get_page modify flag_row
undelete_row page_id slot original t = on_page page_id (flag_row 0 slot t.row_size_bytes) t

unfoldable pub delete_row : ℤ → ℕ → TableManager → Result StorageError TableManager
unfolding get_page modify flag_row
delete_row page_id slot t = on_page page_id (flag_row 1 slot t.row_size_bytes) t

-- The slots of one page from `slot` on, `left` of them.
unfoldable pub scan_slots : ℕ → ℕ → ℕ → ℕ → Page → List RowEntry
unfolding is_deleted
scan_slots row_size page_id zero slot p = []
scan_slots row_size page_id (suc left) slot p =
    let rest = scan_slots row_size page_id left (slot + 1) p in
    let row = get_slot slot row_size p in
    if is_deleted row_size row
    then rest
    else record { page_id = page_id; slot_index = slot; row_bytes = row } ∷ rest

-- The pages from `page_id` on, `left` of them.
unfoldable pub scan_pages :
    ℕ → ℕ → ℕ → BufferPool → Result StorageError (List RowEntry × BufferPool)
unfolding get_page scan_slots
scan_pages row_size zero page_id s = ok ([], s)
scan_pages row_size (suc left) page_id s = get_page (pos page_id) s >>= λ (a, s').
    scan_pages row_size left (page_id + 1) s' >>= λ (rest, s''). ok (
      scan_slots row_size page_id (pos_part (get_slot_count (s'.objects a))) 0 (s'.objects a)
          ++ rest,
      s'',
    )

unfoldable pub full_scan : TableManager → Result StorageError (List RowEntry × TableManager)
unfolding scan_pages total_pages
full_scan t = scan_pages t.row_size_bytes (total_pages t.pool - 1) 1 t.pool >>= λ (rows, s).
    ok (rows, with_pool s t)
