-- ===== src/Tests/Storage.antt =====
-- The page cache and the pages of a table, on a file of two pages.
use akatsuki_db.Base.{
  ℕ, ◌+◌, ◌*◌, ◌≤◌, ◌<◌, ◌≡◌, refl, ap, true, false, [], ◌∷◌, Bytes, pos, negsuc, length, replicate,
  length-replicate, arith, ok, err, eqb_ℤ, read_at, of_le,
}
use akatsuki_db.Storage.Page.{Page, page_size, new_page, get_slot, get_slot_count, read_short}
use akatsuki_db.Storage.Page.Header.{
  slot_count, free_offset, get_field, set_field, get_field-set_field,
}
use akatsuki_db.Storage.PageManager.{out_of_range, open_file}
use akatsuki_db.Storage.PageManager.Laws.{disk}
use akatsuki_db.Storage.LruCache.{Address, LruCache, find, put, remove, pop_last}
use akatsuki_db.Storage.LruCache.Recency.{put-kept, notified, notify}
use akatsuki_db.Storage.BufferPool.{BufferPool, open_pool, get_page, flush_all, allocate_page}
use akatsuki_db.Storage.BufferPool.View.{view, IsPool}
use akatsuki_db.Storage.BufferPool.Flush.{flush_all-settles, view-reopen, open_file-whole}
use akatsuki_db.Storage.BufferPool.GetPage.{Fetched, get_page-Fetched, get_page-out_of_range}
use akatsuki_db.Storage.BufferPool.Change.{allocate_page-view, open_pool-IsPool}
use akatsuki_db.Table.Manager.{
  TableManager, append_row, is_deleted, update_row, delete_row, undelete_row,
}
use akatsuki_db.Table.Manager.Writes.{
  RowWritten, row_at, flagged, update_row-RowWritten, delete_row-RowWritten,
}
use akatsuki_db.Table.Manager.Slots.{append_row-slots}

abbrev file : Bytes
file = replicate 8192 0

length-file : length file ≡ 2 * page_size
length-file = length-replicate {A = ℕ} 8192 0

abbrev blank : Page
blank = new_page (pos 0) (replicate 4096 0)

abbrev pool : BufferPool
pool = open_pool file (λ _. blank)

pool-IsPool : IsPool pool
unfolding open_pool
pool-IsPool = open_pool-IsPool file (λ _. blank) 2 (omega arith) (omega arith) length-file

pool_total : pool.manager.total_pages ≡ 2
unfolding open_pool open_file
pool_total =
    ap (λ m. m.total_pages) (open_file-whole file 2 (omega arith) (omega arith) length-file)

get_page-Fetched_example :
    (a : Address) × (t : BufferPool) × (get_page (pos 1) pool ≡ ok (a, t)) × Fetched pool 1 a t
get_page-Fetched_example = get_page-Fetched pool 1 pool-IsPool (omega (arith, pool_total))

get_page-out_of_range_example :
    ((i : ℕ) → get_page (negsuc i) pool ≡ err out_of_range)
    × ((i : ℕ) → pool.manager.total_pages ≤ i → get_page (pos i) pool ≡ err out_of_range)
    × ((i : ℕ)
        → i < pool.manager.total_pages
        → (a : Address) × (t : BufferPool) × (get_page (pos i) pool ≡ ok (a, t)))
get_page-out_of_range_example = get_page-out_of_range pool pool-IsPool

flush_all-settles_example :
    IsPool (flush_all pool)
    × ((i : ℕ)
        → (view (flush_all pool) i ≡ view pool i) × (disk i (flush_all pool).manager ≡ view pool i))
flush_all-settles_example = flush_all-settles pool pool-IsPool

view-reopen_example : view (open_pool (flush_all pool).manager.file (λ _. blank)) 1 ≡ view pool 1
view-reopen_example =
    view-reopen pool (λ _. blank) 1 pool-IsPool (omega (arith, pool_total))
      (omega (arith, pool_total))

-- A table of rows of two bytes.
abbrev rows : TableManager
rows = record { pool = pool; row_size_bytes = 2 }

update_row-RowWritten_example :
    (t' : TableManager) × (update_row (pos 1) 3 (5 ∷ 0 ∷ []) rows ≡ ok t')
    × RowWritten rows 1 3 (5 ∷ 0 ∷ []) t'
update_row-RowWritten_example =
    update_row-RowWritten rows 1 3 (5 ∷ 0 ∷ []) pool-IsPool (omega (arith, pool_total), omega arith)
      refl

delete_row-RowWritten_example :
    ((t' : TableManager) × (delete_row (pos 1) 3 rows ≡ ok t')
      × RowWritten rows 1 3 (flagged 1 1 3 rows) t'
      × (is_deleted 2 (row_at 1 3 t') ≡ true))
    × ((t' : TableManager) × (undelete_row (pos 1) 3 [] rows ≡ ok t')
        × RowWritten rows 1 3 (flagged 0 1 3 rows) t'
        × (is_deleted 2 (row_at 1 3 t') ≡ false))
delete_row-RowWritten_example =
    delete_row-RowWritten rows 1 3 [] pool-IsPool (omega (arith, pool_total), omega arith)
      (omega arith)

allocate_page-view_example :
    ((allocate_page pool).0 ≡ pool.manager.total_pages)
    × IsPool (allocate_page pool).1
    × ((allocate_page pool).1.manager.total_pages ≡ pool.manager.total_pages + 1)
    × (view (allocate_page pool).1 pool.manager.total_pages ≡ replicate page_size 0)
    × ((j : ℕ) → j < pool.manager.total_pages → view (allocate_page pool).1 j ≡ view pool j)
allocate_page-view_example = allocate_page-view pool pool-IsPool

-- A full cache of two pages, the older of them dirty.
abbrev full_cache : LruCache
full_cache = record {
  capacity = 2;
  nodes = record { page_id = pos 7; page = 3 } ∷ record { page_id = pos 4; page = 9 } ∷ [];
}

put-kept_example :
    put (λ s a. true) (λ a s. a ∷ s) (pos 5) 8 full_cache []
    ≡ ok (
      record {
        capacity = 2;
        nodes = record { page_id = pos 5; page = 8 } ∷ record { page_id = pos 7; page = 3 } ∷ [];
      },
      9 ∷ [],
    )
unfolding put notified notify find remove pop_last eqb_ℤ
put-kept_example =
    put-kept (λ s a. true) (λ a s. a ∷ s) (pos 5) 8 full_cache []
      (record { bounded = omega arith; distinct = (refl, (refl, tt)) }) (omega arith)

get_field-set_field_example :
    get_field slot_count (set_field free_offset (pos 96) blank) ≡ get_field slot_count blank
get_field-set_field_example =
    get_field-set_field blank free_offset slot_count (pos 96) (length-replicate {A = ℕ} 4096 0)
      (omega arith, omega arith)

append_row-slots_example :
    (get_slot 0 2 (append_row 2 (5 ∷ 0 ∷ []) blank) ≡ 5 ∷ 0 ∷ [])
    × ((i : ℕ) → i < 0 → get_slot i 2 (append_row 2 (5 ∷ 0 ∷ []) blank) ≡ get_slot i 2 blank)
    × (get_slot_count (append_row 2 (5 ∷ 0 ∷ []) blank) ≡ pos 1)
append_row-slots_example =
    append_row-slots 2 0 (5 ∷ 0 ∷ []) blank (length-replicate {A = ℕ} 4096 0) refl count_0
      (omega arith) (omega arith)
  where
    count_0 : get_slot_count blank ≡ pos 0
    count_0 = unfold get_slot_count read_short read_at of_le in refl
