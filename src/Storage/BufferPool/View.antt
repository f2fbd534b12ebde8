-- ===== src/Storage/BufferPool/View.antt =====
-- The abstract view of a buffer pool, the bytes that each page id stands for, and the invariant
-- that ties the cached objects to the file.
use akatsuki_db.Base.{
  ℕ, ◌<◌, ◌≡◌, refl, sym, ◌∙◌, ◌≢◌, true, false, none, some, List, Bytes, length, ℤ, pos, arith,
  Option-cases, inl, inr,
}
use akatsuki_db.Storage.Page.{Page, page_size, clear_dirty}
use akatsuki_db.Storage.PageManager.{write_page, write_at_page}
use akatsuki_db.Storage.PageManager.Laws.{
  disk, IsWhole, write_at_page-IsWhole, disk-write_self, disk-write_ne,
}
use akatsuki_db.Storage.LruCache.{Address, Node, find}
use akatsuki_db.Storage.LruCache.Laws.{IsCache}
use akatsuki_db.Storage.BufferPool.{BufferPool, store, write_object}

-- What page `i` holds: the cached object if there is one, else the page on disk.
unfoldable pub view : BufferPool → ℕ → Bytes
view s i = elim (find (pos i) s.cache.nodes) [
  | none ↦ disk i s.manager
  | some a ↦ (s.objects a).bytes
]

abbrev pub SameView : BufferPool → BufferPool → Type 0
SameView s s' = (i : ℕ) → view s' i ≡ view s i

-- The object at `a` stands for page `i`; unless it is dirty it equals the page on disk.
pub record Backs (s : BufferPool) (a : Address) (i : ℕ) : Type 0 where
  pub id : (s.objects a).page_id ≡ pos i
  pub inside : i < s.manager.total_pages
  pub size : length (s.objects a).bytes ≡ page_size
  pub clean : (s.objects a).is_dirty ≡ false → (s.objects a).bytes ≡ disk i s.manager
  pub allocated : a < s.next_object

pub record IsPool (s : BufferPool) : Type 0 where
  pub cache : IsCache s.cache
  pub room : 0 < s.cache.capacity
  pub whole : IsWhole s.manager
  pub backed :
      (j : ℤ) (a : Address) → find j s.cache.nodes ≡ some a → (i : ℕ) × (j ≡ pos i) × Backs s a i

pub view-cached :
    (s : BufferPool) (i : ℕ) {a : Address}
    → find (pos i) s.cache.nodes ≡ some a
    → view s i ≡ (s.objects a).bytes
unfolding view
view-cached s i h = rw (h, view)

pub view-uncached :
    (s : BufferPool) (i : ℕ) → find (pos i) s.cache.nodes ≡ none → view s i ≡ disk i s.manager
unfolding view
view-uncached s i h = rw (h, view)

-- Where a changed list of nodes finds the same, the view is the same.
pub view-nodes :
    (s : BufferPool) (ns : List Node) (i : ℕ)
    → find (pos i) ns ≡ find (pos i) s.cache.nodes
    → view (record s { cache = record s.cache { nodes = ns } }) i ≡ view s i
unfolding view
view-nodes s ns i h = rw (h, view)

-- Two equal caches, objects with the same bytes and the same pages on disk wherever nothing is
-- cached give the same view.
pub view-cong :
    (s s' : BufferPool)
    → s'.cache ≡ s.cache
    → ((a : Address) → (s'.objects a).bytes ≡ (s.objects a).bytes)
    → ((i : ℕ) → find (pos i) s.cache.nodes ≡ none → disk i s'.manager ≡ disk i s.manager)
    → SameView s s'
view-cong s s' c o d i = elim (Option-cases (find (pos i) s.cache.nodes)) [
  | inl e ↦ view-uncached s' i (rw c e) ∙ d i e ∙ sym (view-uncached s i e)
  | inr (a, e) ↦ view-cached s' i (rw c e) ∙ o a ∙ sym (view-cached s i e)
]

-- What writing a dirty cached object out does: the page on disk gets its bytes, its flag is
-- cleared, and nothing else changes.
pub record Written (s : BufferPool) (a : Address) (i : ℕ) (s' : BufferPool) : Type 0 where
  pub same_cache : s'.cache ≡ s.cache
  pub same_next : s'.next_object ≡ s.next_object
  pub same_total : s'.manager.total_pages ≡ s.manager.total_pages
  pub whole : IsWhole s'.manager
  pub on_disk : disk i s'.manager ≡ (s.objects a).bytes
  pub off_disk : (j : ℕ) → j ≢ i → disk j s'.manager ≡ disk j s.manager
  pub cleared : s'.objects a ≡ clear_dirty (s.objects a)
  pub kept : (b : Address) → a ≢ b → s'.objects b ≡ s.objects b

pub store_self : (a : Address) (p : Page) (o : Address → Page) → store a p o a ≡ p
unfolding store
store_self a p o = ground arith

pub store_ne : (a b : Address) (p : Page) (o : Address → Page) → a ≢ b → store a p o b ≡ o b
unfolding store
store_ne a b p o h = ground arith

abbrev written : BufferPool → Address → ℕ → BufferPool
written s a i = record s {
  manager = record s.manager { file = write_at_page (pos i) (s.objects a).bytes s.manager.file };
  objects = store a (clear_dirty (s.objects a)) s.objects;
}

write_object-written :
    (s : BufferPool) (a : Address) (i : ℕ)
    → (s.objects a).page_id ≡ pos i
    → (s.objects a).is_dirty ≡ true
    → write_object a s ≡ written s a i
unfolding write_object write_page
write_object-written s a i e d = rw (d, e)

pub write_object-Written :
    (s : BufferPool) (a : Address) (i : ℕ)
    → IsWhole s.manager
    → Backs s a i
    → (s.objects a).is_dirty ≡ true
    → Written s a i (write_object a s)
write_object-Written s a i w b d = rw (write_object-written s a i b.id d) (record {
  same_cache = refl;
  same_next = refl;
  same_total = refl;
  whole = write_at_page-IsWhole s.manager i (s.objects a).bytes w b.inside b.size;
  on_disk = disk-write_self s.manager i (s.objects a).bytes w b.inside b.size;
  off_disk = disk-write_ne s.manager i (s.objects a).bytes w b.inside b.size;
  cleared = store_self a (clear_dirty (s.objects a)) s.objects;
  kept = λ c h. store_ne a c (clear_dirty (s.objects a)) s.objects h;
})
