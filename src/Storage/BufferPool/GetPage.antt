-- ===== src/Storage/BufferPool/GetPage.antt =====
-- `GetPage` as its callers see it.
use akatsuki_db.Base.{
  ℕ, ◌+◌, ◌≤◌, ◌<◌, ◌≡◌, refl, sym, ap, ◌∙◌, ◌≢◌, none, some, List, Bytes, length, ℤ, pos, negsuc,
  eqb_ℤ, eqb_ℤ_iff, arith, Bool-cases, Option-cases, inl, inr, ok, err, ◌>>=◌,
}
use mathlib.Core.Path.{subst}
use akatsuki_db.Storage.Page.{Page, new_page}
use akatsuki_db.Storage.PageManager.{out_of_range, read_page}
use akatsuki_db.Storage.PageManager.Laws.{disk, read_page-disk, read_page-out_of_range, length-disk}
use akatsuki_db.Storage.LruCache
use akatsuki_db.Storage.LruCache.{Address, Node, LruCache, find, remove, add_front}
use akatsuki_db.Storage.LruCache.Laws.{
  find-remove_self, find-remove_ne, remove-AreDistinct, length-remove, put-miss,
}
use akatsuki_db.Storage.BufferPool.{
  BufferPool, write_object, object_dirty, store, get_page, load_page,
}
use akatsuki_db.Storage.BufferPool.View.{
  view, SameView, Backs, IsPool, view-cached, view-uncached, view-nodes, store_self, store_ne,
}
use akatsuki_db.Storage.BufferPool.Write.{pos_inj}
use akatsuki_db.Storage.BufferPool.Fetch.{
  Roomy, make_room-Roomy, fronted, front-IsPool, front-SameView, find-front_self,
}

-- The object `a` of the pool `t` stands for page `i` of `s`, and no page has changed.
pub record Fetched (s : BufferPool) (i : ℕ) (a : Address) (t : BufferPool) : Type 0 where
  pub pool : IsPool t
  pub same : SameView s t
  pub cached : find (pos i) t.cache.nodes ≡ some a
  pub bytes : (t.objects a).bytes ≡ view s i
  pub same_total : t.manager.total_pages ≡ s.manager.total_pages

get_page-found :
    (id : ℤ) (s : BufferPool) (a : Address)
    → find id s.cache.nodes ≡ some a
    → get_page id s
      ≡ ok (
        a,
        record s { cache = record s.cache { nodes = add_front id a (remove id s.cache.nodes) } },
      )
unfolding get_page LruCache.get
get_page-found id s a h = rw (h, LruCache.get, get_page)

get_page-absent :
    (id : ℤ) (s : BufferPool)
    → find id s.cache.nodes ≡ none
    → get_page id s ≡ (read_page id s.manager >>= λ p. load_page id p s)
unfolding get_page LruCache.get
get_page-absent id s h = rw (h, LruCache.get, get_page)

lt_ne : {a b : ℕ} → a < b → b ≢ a
lt_ne h = omega arith

module _ (s : BufferPool) (P : IsPool s) (i : ℕ) where
  -- The object that a read makes.
  abbrev fresh : BufferPool
  fresh = record s {
    objects = store s.next_object (new_page (pos i) (disk i s.manager)) s.objects;
    next_object = s.next_object + 1;
  }

  fresh_kept : {b : Address} → b < s.next_object → fresh.objects b ≡ s.objects b
  fresh_kept {b} h = store_ne s.next_object b _ s.objects (lt_ne h)

  fresh-Backs : {b : Address} {j : ℕ} → Backs s b j → Backs fresh b j
  fresh-Backs {b} {j} B =
      let e = fresh_kept (B.allocated) in
      record {
        id = ap (λ (p : Page). p.page_id) e ∙ B.id;
        inside = B.inside;
        size = ap (λ (p : Page). length p.bytes) e ∙ B.size;
        clean =
            λ c. ap (λ (p : Page). p.bytes) e ∙ B.clean (sym (ap (λ (p : Page). p.is_dirty) e) ∙ c);
        allocated = lt_step (B.allocated);
      }
    where
      lt_step : {n m : ℕ} → n < m → n < m + 1
      lt_step h = omega arith

  fresh-IsPool : IsPool fresh
  fresh-IsPool = record {
    cache = P.cache;
    room = P.room;
    whole = P.whole;
    backed = λ j b f. let (k, e, B) = P.backed j b f in (k, e, fresh-Backs B);
  }

  fresh-SameView : SameView s fresh
  fresh-SameView j = elim (Option-cases (find (pos j) s.cache.nodes)) [
    | inl e ↦ view-uncached fresh j e ∙ sym (view-uncached s j e)
    | inr (b, e) ↦
        let (k, e', B) = P.backed (pos j) b e in
        view-cached fresh j e
        ∙ ap (λ (p : Page). p.bytes) (fresh_kept (B.allocated))
        ∙ sym (view-cached s j e)
  ]

  unused : (j : ℤ) → find j s.cache.nodes ≢ some s.next_object
  unused j f = let (k, e, B) = P.backed j s.next_object f in irrefl (B.allocated)
    where
      irrefl : {n : ℕ} → ¬ (n < n)
      irrefl h = omega arith

  module _ (inside : i < s.manager.total_pages) (miss : find (pos i) s.cache.nodes ≡ none) where
    read_page-fresh : read_page (pos i) s.manager ≡ ok (new_page (pos i) (disk i s.manager))
    read_page-fresh = read_page-disk i s.manager P.whole inside

    load_page-fronted :
        (t : BufferPool)
        → Roomy fresh s.next_object t
        → Fetched s i s.next_object (fronted t i s.next_object)
    load_page-fronted t R =
        let a = s.next_object in
        let object : t.objects a ≡ new_page (pos i) (disk i s.manager) =
          R.same_object ∙ store_self a _ s.objects in
        let gone = R.missing i miss in
        let on_disk : disk i t.manager ≡ disk i s.manager =
          sym (view-uncached t i gone) ∙ R.same i ∙ fresh-SameView i ∙ view-uncached s i miss in
        let bytes : (t.objects a).bytes ≡ disk i s.manager = ap (λ (p : Page). p.bytes) object in
        let B : Backs t a i = record {
          id = ap (λ (p : Page). p.page_id) object;
          inside = rw R.same_total inside;
          size = ap (λ (l : Bytes). length l) bytes ∙ length-disk i s.manager P.whole inside;
          clean = λ c. bytes ∙ sym on_disk;
          allocated = rw R.same_next (lt_succ a);
        } in
        let Q = front-IsPool t R.pool i a gone R.space B (bytes ∙ sym on_disk) in
        record {
          pool = Q;
          same = λ j.
              front-SameView t R.pool i a gone R.space B (bytes ∙ sym on_disk) j
              ∙ R.same j
              ∙ fresh-SameView j;
          cached = find-front_self t R.pool i a gone R.space B (bytes ∙ sym on_disk);
          bytes = bytes ∙ sym (view-uncached s i miss);
          same_total = R.same_total;
        }
      where
        lt_succ : (n : ℕ) → n < n + 1
        lt_succ n = omega arith

    get_page-miss :
        (a : Address) × (t : BufferPool) × (get_page (pos i) s ≡ ok (a, t)) × Fetched s i a t
    unfolding load_page
    get_page-miss =
        let (c, t, made, R) = make_room-Roomy fresh fresh-IsPool s.next_object unused in
        (
          s.next_object,
          fronted (record t { cache = c }) i s.next_object,
          get_page-absent (pos i) s miss
              ∙ rw read_page-fresh (
                  rw (
                    put-miss object_dirty write_object (pos i) s.next_object s.cache fresh miss
                        made,
                    load_page,
                  )),
          load_page-fronted (record t { cache = c }) R,
        )

  -- A hit moves the node to the front.
  module _ (a : Address) (hit : find (pos i) s.cache.nodes ≡ some a) where
    abbrev moved : List Node
    moved = add_front (pos i) a (remove (pos i) s.cache.nodes)

    find-moved : (j : ℤ) → find j moved ≡ find j s.cache.nodes
    unfolding find
    find-moved j = elim (Bool-cases (eqb_ℤ (pos i) j)) [
      | inl e ↦ rw e (sym hit ∙ ap (λ k. find k s.cache.nodes) ((eqb_ℤ_iff (pos i) j).0 e))
      | inr e ↦ rw e (find-remove_ne (pos i) j s.cache.nodes e)
    ]

    abbrev touched : BufferPool
    touched = record s { cache = record s.cache { nodes = moved } }

    touched-Backs : {b : Address} {j : ℕ} → Backs s b j → Backs touched b j
    touched-Backs B = record {
      id = B.id;
      inside = B.inside;
      size = B.size;
      clean = B.clean;
      allocated = B.allocated;
    }

    get_page-hit : (get_page (pos i) s ≡ ok (a, touched)) × Fetched s i a touched
    get_page-hit = (
      get_page-found (pos i) s a hit,
      record {
        pool = record {
          cache = record {
            bounded = omega (arith, length-remove (pos i) s.cache.nodes hit, P.cache.bounded);
            distinct = (
              find-remove_self (pos i) s.cache.nodes P.cache.distinct,
              remove-AreDistinct (pos i) s.cache.nodes P.cache.distinct,
            );
          };
          room = P.room;
          whole = P.whole;
          backed = λ j b f.
              let (k, e, B) = P.backed j b (sym (find-moved j) ∙ f) in (k, e, touched-Backs B);
        };
        same = λ j. view-nodes s moved j (find-moved (pos j));
        cached = find-moved (pos i) ∙ hit;
        bytes = sym (view-cached s i hit);
        same_total = refl;
      },
    )

-- In a pool that keeps the invariant, `GetPage` of any page of the file succeeds, cached or not
-- and whatever has to be evicted. The object that it returns is the cached one and holds the
-- page's bytes; the invariant still holds, and no page has other contents than before.
pub get_page-Fetched :
    (s : BufferPool) (i : ℕ)
    → IsPool s
    → i < s.manager.total_pages
    → (a : Address) × (t : BufferPool) × (get_page (pos i) s ≡ ok (a, t)) × Fetched s i a t
get_page-Fetched s i P h = elim (Option-cases (find (pos i) s.cache.nodes)) [
  | inl e ↦ get_page-miss s P i h e
  | inr (a, e) ↦ let (eq, F) = get_page-hit s P i a e in (a, touched s P i a e, eq, F)
]

-- In a pool that keeps the invariant, `GetPage` throws `out_of_range` for exactly the ids that the
-- file does not have: for every negative id, for an id from the page count on, and for no other,
-- where it returns an object.
pub get_page-out_of_range :
    (s : BufferPool)
    → IsPool s
    → ((i : ℕ) → get_page (negsuc i) s ≡ err out_of_range)
      × ((i : ℕ) → s.manager.total_pages ≤ i → get_page (pos i) s ≡ err out_of_range)
      × ((i : ℕ)
          → i < s.manager.total_pages
          → (a : Address) × (t : BufferPool) × (get_page (pos i) s ≡ ok (a, t)))
unfolding read_page
get_page-out_of_range s P = (
  λ i. elim (Option-cases (find (negsuc i) s.cache.nodes)) [
    | inl e ↦ get_page-absent (negsuc i) s e
    | inr (a, e) ↦ let (k, e', B) = P.backed (negsuc i) a e in absurd (negative i k e')
  ],
  λ i h. elim (Option-cases (find (pos i) s.cache.nodes)) [
    | inl e ↦
        get_page-absent (pos i) s e
        ∙ ap (λ r. r >>= λ p. load_page (pos i) p s) (read_page-out_of_range i s.manager h)
    | inr (a, e) ↦
        let (k, e', B) = P.backed (pos i) a e in
        absurd
          (beyond h (subst (λ (n : ℕ). n < s.manager.total_pages) (sym (pos_inj e')) (B.inside)))
  ],
  λ i h. let (a, t, e, F) = get_page-Fetched s i P h in (a, t, e),
)
  where
    negative : (i k : ℕ) → negsuc i ≡ pos k → ⊥
    negative i k h = ground arith

    beyond : {i n : ℕ} → n ≤ i → i < n → ⊥
    beyond p q = omega arith
