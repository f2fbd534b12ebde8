-- ===== src/Storage/BufferPool/Flush.antt =====
-- `FlushAll`: the file catches up with the view, so a pool opened on it later sees the same pages.
use akatsuki_db.Base.{
  ℕ, ◌*◌, ◌/◌, ◌<◌, ◌≡◌, refl, sym, ap, ◌∙◌, false, some, List, [], ◌∷◌, Bytes, length, pos, ltb,
  true, ◌%◌, ◌^◌, eqb_ℤ, eqb_ℤ_iff, arith, Bool-cases, Option-cases, inl, inr, if◌then◌else◌, map,
}
use native.Mathlib.Decide.{ℕ_discrete}
use akatsuki_db.Storage.Page.{Page, page_size}
use akatsuki_db.Storage.PageManager.{page_count, pages_in, open_file}
use akatsuki_db.Storage.PageManager.Laws.{disk}
use akatsuki_db.Storage.LruCache.{Address, Node, find}
use akatsuki_db.Storage.LruCache.Laws.{AllFound, AllFound-self}
use akatsuki_db.Storage.BufferPool.{
  BufferPool, write_object, object_dirty, flush_objects, flush_all, open_pool,
}
use akatsuki_db.Storage.BufferPool.View.{
  view, SameView, Backs, IsPool, view-cached, view-uncached, Written, write_object-Written,
}
use akatsuki_db.Storage.BufferPool.Write.{written-IsPool, written-SameView, pos_inj}
use mathlib.Core.Path.{subst}

-- Page `i` on disk is up to date.
abbrev Settled : BufferPool → ℕ → Type 0
Settled s i = disk i s.manager ≡ view s i

-- `s'` has the same pages as `s`, and a page up to date in `s` is so in `s'`.
record Follows (s s' : BufferPool) : Type 0 where
  pool : IsPool s'
  same : SameView s s'
  same_cache : s'.cache ≡ s.cache
  same_total : s'.manager.total_pages ≡ s.manager.total_pages
  settled : (j : ℕ) → Settled s j → Settled s' j

Follows-trans : {s t u : BufferPool} → Follows s t → Follows t u → Follows s u
Follows-trans f g = record {
  pool = g.pool;
  same = λ i. g.same i ∙ f.same i;
  same_cache = g.same_cache ∙ f.same_cache;
  same_total = g.same_total ∙ f.same_total;
  settled = λ j h. g.settled j (f.settled j h);
}

abbrev flush_one : Address → BufferPool → BufferPool
flush_one a s = if object_dirty s a then write_object a s else s

module _ (s : BufferPool) (a : Address) (i : ℕ) (P : IsPool s)
    (cached : find (pos i) s.cache.nodes ≡ some a) where
  own : Backs s a i
  own = let (k, e, B) = P.backed (pos i) a cached in subst (Backs s a) (sym (pos_inj e)) B

  dirty_step : (s' : BufferPool) → Written s a i s' → Follows s s' × Settled s' i
  dirty_step s' W =
      let same = written-SameView s a i P cached s' W in
      let now : Settled s' i = W.on_disk ∙ sym (view-cached s i cached) ∙ sym (same i) in
      (
        record {
          pool = written-IsPool s a i P cached s' W;
          same = same;
          same_cache = W.same_cache;
          same_total = W.same_total;
          settled = λ j h. elim (ℕ_discrete j i) [
            | yes e ↦ subst (Settled s') (sym e) now
            | no ne ↦ W.off_disk j ne ∙ h ∙ sym (same j)
          ];
        },
        now,
      )

  flush_one-Follows : Follows s (flush_one a s) × Settled (flush_one a s) i
  flush_one-Follows = elim (Bool-cases (object_dirty s a)) [
    | inl d ↦ rw d (dirty_step (write_object a s) (write_object-Written s a i P.whole own d))
    | inr c ↦ rw c (
        (
          record {
            pool = P;
            same = λ j. refl;
            same_cache = refl;
            same_total = refl;
            settled = λ j h. h;
          },
          sym (own.clean c) ∙ sym (view-cached s i cached),
        ))
  ]

addresses : List Node → List Address
addresses ns = map (λ n. n.page) ns

flush_objects-Follows :
    (ns : List Node) (s : BufferPool)
    → IsPool s
    → AllFound s.cache.nodes ns
    → Follows s (flush_objects (map (λ n. n.page) ns) s)
      × ((i : ℕ) (a : Address)
          → find (pos i) ns ≡ some a
          → Settled (flush_objects (map (λ n. n.page) ns) s) i)
unfolding flush_objects find
flush_objects-Follows [] s P all = (
  record { pool = P; same = λ j. refl; same_cache = refl; same_total = refl; settled = λ j h. h },
  λ i a h. absurd (ground arith),
)
flush_objects-Follows (n ∷ ns) s P all =
    let (k, e, B) = P.backed n.page_id n.page all.0 in
    let (f, now) = flush_one-Follows s n.page k P (rw e at (all.0)) in
    let all' : AllFound (flush_one n.page s).cache.nodes ns = rw f.same_cache (all.1) in
    let (g, found) = flush_objects-Follows ns (flush_one n.page s) f.pool all' in
    (
      Follows-trans f g,
      λ i a h. elim (Bool-cases (eqb_ℤ n.page_id (pos i))) [
        | inl same ↦
            let i≡k : k ≡ i = pos_inj (sym e ∙ (eqb_ℤ_iff n.page_id (pos i)).0 same) in
            g.settled i (subst (Settled (flush_one n.page s)) i≡k now)
        | inr other ↦ found i a (rw other at h)
      ],
    )

flush_all-Follows :
    (s : BufferPool) → IsPool s → Follows s (flush_all s) × ((i : ℕ) → Settled (flush_all s) i)
unfolding flush_all
flush_all-Follows s P =
    let (f, found) =
      flush_objects-Follows s.cache.nodes s P (AllFound-self s.cache.nodes P.cache.distinct) in
    (
      f,
      λ i. elim (Option-cases (find (pos i) s.cache.nodes)) [
        | inl e ↦ sym (view-uncached _ i (rw f.same_cache e))
        | inr (a, e) ↦ found i a e
      ],
    )

-- Flushing keeps the invariant and every page, and afterwards every page on disk is up to date.
pub flush_all-settles :
    (s : BufferPool)
    → IsPool s
    → IsPool (flush_all s)
      × ((i : ℕ) → (view (flush_all s) i ≡ view s i) × (disk i (flush_all s).manager ≡ view s i))
flush_all-settles s P =
    let (f, now) = flush_all-Follows s P in (f.pool, λ i. (f.same i, now i ∙ f.same i))

page_count-whole : (n : ℕ) → n < 2 ^ 19 → page_count (n * page_size) ≡ pos n
unfolding page_count pages_in
page_count-whole n small =
    let b : ltb (n * page_size % 2 ^ 32) (2 ^ 31) ≡ true = ground arith in
    let q : n * page_size % 2 ^ 32 / page_size ≡ n = omega arith in rw (b, q)

pub open_file-whole :
    (file : Bytes) (n : ℕ)
    → 0 < n
    → n < 2 ^ 19
    → length file ≡ n * page_size
    → open_file file ≡ record { file = file; total_pages = n }
unfolding open_file eqb_ℤ
open_file-whole file n h small e =
    let t : page_count (length file) ≡ pos n = rw e (page_count-whole n small) in
    let f : eqb_ℤ (pos n) (pos 0) ≡ false = ground arith in rw (t, f)

view-open_pool :
    (file : Bytes) (objects : Address → Page) (i : ℕ)
    → view (open_pool file objects) i ≡ disk i (open_file file)
unfolding open_pool
view-open_pool file objects i = view-uncached _ i (unfold find in refl)

-- A pool of at least one page and fewer than 2^19 (a file below 2 GiB) that is flushed, closed and
-- opened again on the file that it left holds every page as it was, whatever had been cached, changed
-- or evicted before.
pub view-reopen :
    (s : BufferPool) (objects : Address → Page) (i : ℕ)
    → IsPool s
    → 0 < s.manager.total_pages
    → s.manager.total_pages < 2 ^ 19
    → view (open_pool (flush_all s).manager.file objects) i ≡ view s i
view-reopen s objects i P h small =
    let (f, now) = flush_all-Follows s P in
    let m = (flush_all s).manager in
    let e : open_file m.file ≡ m =
      open_file-whole m.file m.total_pages (rw f.same_total h) (rw f.same_total small)
        f.pool.whole in
    view-open_pool m.file objects i ∙ ap (disk i) e ∙ now i ∙ f.same i
