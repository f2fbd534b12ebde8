-- ===== src/Storage/BufferPool/Change.antt =====
-- Opening a pool, growing its file, and changing a page through the object that `GetPage` returned.
use akatsuki_db.Base.{
  ℕ, ◌+◌, ◌*◌, ◌^◌, ◌<◌, ◌≡◌, refl, sym, ap, ◌∙◌, ◌≢◌, Bool, true, false, some, Bytes, length, pos,
  arith, Option-cases, inl, inr, replicate,
}
use native.Mathlib.Decide.{ℕ_discrete}
use mathlib.Core.Path.{subst}
use akatsuki_db.Storage.Page.{Page, page_size}
use akatsuki_db.Storage.PageManager
use akatsuki_db.Storage.PageManager.{PageManager, open_file}
use akatsuki_db.Storage.PageManager.Laws.{
  disk-allocate_page, disk-allocate_page_new, allocate_page-IsWhole,
}
use akatsuki_db.Storage.LruCache.{Address, find}
use akatsuki_db.Storage.BufferPool.{BufferPool, store, modify, allocate_page, open_pool}
use akatsuki_db.Storage.BufferPool.View.{
  view, Backs, IsPool, view-cached, view-uncached, store_self, store_ne,
}
use akatsuki_db.Storage.BufferPool.Write.{pos_inj}
use akatsuki_db.Storage.BufferPool.Flush.{open_file-whole}

-- A change that a caller may make: it marks the page dirty, and keeps its id and its size.
pub record IsEdit (f : Page → Page) (p : Page) : Type 0 where
  pub dirty : (f p).is_dirty ≡ true
  pub same_id : (f p).page_id ≡ p.page_id
  pub same_size : length (f p).bytes ≡ length p.bytes

module _ (s : BufferPool) (i : ℕ) (a : Address) (f : Page → Page) (P : IsPool s)
    (cached : find (pos i) s.cache.nodes ≡ some a) (E : IsEdit f (s.objects a)) where
  abbrev edited : BufferPool
  edited = record s { objects = store a (f (s.objects a)) s.objects }

  object_a : edited.objects a ≡ f (s.objects a)
  object_a = store_self a (f (s.objects a)) s.objects

  true≢false : {b : Bool} → b ≡ true → b ≡ false → ⊥
  true≢false p q = ground arith

  edited-Backs : {b : Address} {j : ℕ} → Backs s b j → Backs edited b j
  edited-Backs {b} {j} B = elim (ℕ_discrete a b) [
    | yes e ↦
        subst (λ k. Backs edited k j) e
          (record {
            id =
                ap (λ (p : Page). p.page_id) object_a
                ∙ E.same_id
                ∙ ap (λ k. (s.objects k).page_id) e
                ∙ B.id;
            inside = B.inside;
            size =
                ap (λ (p : Page). length p.bytes) object_a
                ∙ E.same_size
                ∙ ap (λ k. length (s.objects k).bytes) e
                ∙ B.size;
            clean = λ c. absurd (true≢false (ap (λ (p : Page). p.is_dirty) object_a ∙ E.dirty) c);
            allocated = subst (λ (k : ℕ). k < s.next_object) (sym e) (B.allocated);
          })
    | no ne ↦
        let o = store_ne a b (f (s.objects a)) s.objects ne in
        record {
          id = ap (λ (p : Page). p.page_id) o ∙ B.id;
          inside = B.inside;
          size = ap (λ (p : Page). length p.bytes) o ∙ B.size;
          clean = λ c.
              ap (λ (p : Page). p.bytes) o ∙ B.clean (sym (ap (λ (p : Page). p.is_dirty) o) ∙ c);
          allocated = B.allocated;
        }
  ]

  edited-IsPool : IsPool edited
  edited-IsPool = record {
    cache = P.cache;
    room = P.room;
    whole = P.whole;
    backed = λ j b c. let (k, e, B) = P.backed j b c in (k, e, edited-Backs B);
  }

  edited-view_ne : (j : ℕ) → j ≢ i → view edited j ≡ view s j
  edited-view_ne j ne = elim (Option-cases (find (pos j) s.cache.nodes)) [
    | inl e ↦ view-uncached edited j e ∙ sym (view-uncached s j e)
    | inr (b, e) ↦
        let other = λ (eq : a ≡ b). ne (same_page j b e eq) in
        view-cached edited j e
        ∙ ap (λ (p : Page). p.bytes) (store_ne a b (f (s.objects a)) s.objects other)
        ∙ sym (view-cached s j e)
  ]
    where
      same_page : (j : ℕ) (b : Address) → find (pos j) s.cache.nodes ≡ some b → a ≡ b → j ≡ i
      same_page j b e eq =
          let (k, e_k, B) = P.backed (pos j) b e in
          let (l, e_l, A) = P.backed (pos i) a cached in
          pos_inj (e_k ∙ sym B.id ∙ ap (λ x. (s.objects x).page_id) (sym eq) ∙ A.id ∙ sym e_l)

-- An edit of a cached page through its object keeps the invariant, changes the page to what the
-- edit makes of it, and changes no other page.
pub modify-view :
    (s : BufferPool) (i : ℕ) (a : Address) (f : Page → Page)
    → IsPool s
    → find (pos i) s.cache.nodes ≡ some a
    → IsEdit f (s.objects a)
    → IsPool (modify a f s)
      × (view (modify a f s) i ≡ (f (s.objects a)).bytes)
      × ((j : ℕ) → j ≢ i → view (modify a f s) j ≡ view s j)
unfolding modify
modify-view s i a f P c E = (
  edited-IsPool s i a f P c E,
  view-cached (edited s i a f P c E) i c ∙ ap (λ (p : Page). p.bytes) (object_a s i a f P c E),
  edited-view_ne s i a f P c E,
)

module _ (s : BufferPool) (P : IsPool s) where
  abbrev grown : BufferPool
  grown = record s { manager = (PageManager.allocate_page s.manager).1 }

  grown_total : grown.manager.total_pages ≡ s.manager.total_pages + 1
  unfolding PageManager.allocate_page
  grown_total = refl

  grown-Backs : {b : Address} {j : ℕ} → Backs s b j → Backs grown b j
  grown-Backs {b} {j} B = record {
    id = B.id;
    inside = rw grown_total (lt_step (B.inside));
    size = B.size;
    clean = λ c. B.clean c ∙ sym (disk-allocate_page j s.manager P.whole B.inside);
    allocated = B.allocated;
  }
    where
      lt_step : {n m : ℕ} → n < m → n < m + 1
      lt_step h = omega arith

  grown-IsPool : IsPool grown
  grown-IsPool = record {
    cache = P.cache;
    room = P.room;
    whole = allocate_page-IsWhole s.manager P.whole;
    backed = λ j b c. let (k, e, B) = P.backed j b c in (k, e, grown-Backs B);
  }

  grown-view : (j : ℕ) → j < s.manager.total_pages → view grown j ≡ view s j
  grown-view j h = elim (Option-cases (find (pos j) s.cache.nodes)) [
    | inl e ↦
        view-uncached grown j e
        ∙ disk-allocate_page j s.manager P.whole h
        ∙ sym (view-uncached s j e)
    | inr (b, e) ↦ view-cached grown j e ∙ sym (view-cached s j e)
  ]

  grown-view_new : view grown s.manager.total_pages ≡ replicate page_size 0
  grown-view_new = elim (Option-cases (find (pos s.manager.total_pages) s.cache.nodes)) [
    | inl e ↦ view-uncached grown _ e ∙ disk-allocate_page_new s.manager P.whole
    | inr (b, e) ↦
        let (k, e_k, B) = P.backed _ b e in
        absurd
          (irrefl (subst (λ (n : ℕ). n < s.manager.total_pages) (sym (pos_inj e_k)) (B.inside)))
  ]
    where
      irrefl : {n : ℕ} → ¬ (n < n)
      irrefl h = omega arith

-- `AllocatePage` returns the old page count as the new id, keeps the invariant and every page that
-- there was, and the new page is all zeros.
pub allocate_page-view :
    (s : BufferPool)
    → IsPool s
    → ((allocate_page s).0 ≡ s.manager.total_pages)
      × IsPool (allocate_page s).1
      × ((allocate_page s).1.manager.total_pages ≡ s.manager.total_pages + 1)
      × (view (allocate_page s).1 s.manager.total_pages ≡ replicate page_size 0)
      × ((j : ℕ) → j < s.manager.total_pages → view (allocate_page s).1 j ≡ view s j)
unfolding allocate_page PageManager.allocate_page
allocate_page-view s P = (refl, grown-IsPool s P, refl, grown-view_new s P, grown-view s P)

-- A pool opened on a file of whole pages, at least one and fewer than 2^19, keeps the invariant.
pub open_pool-IsPool :
    (file : Bytes) (objects : Address → Page) (n : ℕ)
    → 0 < n
    → n < 2 ^ 19
    → length file ≡ n * page_size
    → IsPool (open_pool file objects)
unfolding open_pool find
open_pool-IsPool file objects n h small e = record {
  cache = record { bounded = omega arith; distinct = tt };
  room = omega arith;
  whole = rw (open_file-whole file n h small e) e;
  backed = λ j b c. absurd (ground arith);
}
