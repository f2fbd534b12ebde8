-- ===== src/Storage/BufferPool.antt =====
-- `BufferPool` (include/AkatsukiDB/Storage/BufferPool.hpp, src/Storage/BufferPool.cpp). The pages
-- are shared objects: `objects` is the heap that they lie in, and a caller that holds an address
-- may change the object behind it.
pub mod View
pub mod Write
pub mod Flush
pub mod Fetch
pub mod GetPage
pub mod Change
use akatsuki_db.Base.{
  ℕ, ◌+◌, Bool, true, false, Option, none, some, List, [], ◌∷◌, ℤ, pos, ◌==◌, if◌then◌else◌, Result,
  ok, err, ◌>>=◌, Bytes,
}
use akatsuki_db.Storage.Page.{Page}
use akatsuki_db.Storage.PageManager
use akatsuki_db.Storage.PageManager.{PageManager, StorageError, read_page, write_page, open_file}
use akatsuki_db.Storage.LruCache
use akatsuki_db.Storage.LruCache.{LruCache, Address, pages}

abbrev pub max_capacity : ℕ
max_capacity = 1024

-- `next_object` is the address that the next `new Page` gets.
pub record BufferPool : Type 0 where
  pub manager : PageManager
  pub cache : LruCache
  pub objects : Address → Page
  pub next_object : Address

unfoldable pub open_pool : Bytes → (Address → Page) → BufferPool
open_pool file objects = record {
  manager = open_file file;
  cache = record { capacity = max_capacity; nodes = [] };
  objects = objects;
  next_object = 0;
}

unfoldable pub store : Address → Page → (Address → Page) → Address → Page
store a p objects b = if a == b then p else objects b

-- A change of the object behind an address, by whoever holds it.
unfoldable pub modify : Address → (Page → Page) → BufferPool → BufferPool
unfolding store
modify a f s = record s { objects = store a (f (s.objects a)) s.objects }

-- `_pageManager.WritePage(*page)`
unfoldable pub write_object : Address → BufferPool → BufferPool
unfolding write_page store
write_object a s =
    let (p, m) = write_page (s.objects a) s.manager in
    record s { manager = m; objects = store a p s.objects }

abbrev pub object_dirty : BufferPool → Address → Bool
object_dirty s a = (s.objects a).is_dirty

unfoldable pub total_pages : BufferPool → ℕ
total_pages s = s.manager.total_pages

unfoldable pub allocate_page : BufferPool → ℕ × BufferPool
unfolding PageManager.allocate_page
allocate_page s =
    let (id, m) = PageManager.allocate_page s.manager in (id, record s { manager = m })

-- The page just read becomes a new object, and the cache may evict another page for it.
unfoldable pub load_page : ℤ → Page → BufferPool → Result StorageError (Address × BufferPool)
unfolding LruCache.put store write_object
load_page id p s =
    let a = s.next_object in
    let s' = record s { objects = store a p s.objects; next_object = a + 1 } in
    elim (LruCache.put object_dirty write_object id a s'.cache s') [
      | err e ↦ err e
      | ok (c, s'') ↦ ok (a, record s'' { cache = c })
    ]

unfoldable pub get_page : ℤ → BufferPool → Result StorageError (Address × BufferPool)
unfolding LruCache.get load_page read_page
get_page id s = elim (LruCache.get id s.cache) [
  | some (a, c) ↦ ok (a, record s { cache = c })
  | none ↦ read_page id s.manager >>= λ p. load_page id p s
]

-- `FlushAll` asks `isDirty`, and so does `WritePage`.
unfoldable pub flush_objects : List Address → BufferPool → BufferPool
unfolding write_object
flush_objects [] s = s
flush_objects (a ∷ rest) s = flush_objects rest (if object_dirty s a then write_object a s else s)

unfoldable pub flush_all : BufferPool → BufferPool
unfolding flush_objects
flush_all s = flush_objects (pages s.cache) s
