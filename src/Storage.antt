-- ===== src/Storage.antt =====
-- The storage layer: pages, the paged file, the cache of pages and the pool over both.
pub mod Layout
pub mod Page
pub mod PageManager
pub mod LruCache
pub mod BufferPool
