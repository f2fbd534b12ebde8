-- ===== src/Storage/BufferPool/Fetch.antt =====
-- `GetPage`: on a hit and on a miss, with or without an eviction, the caller gets the object that
-- stands for the page, and no page changes.
use akatsuki_db.Base.{
  ℕ, ◌≤◌, ◌<◌, ◌≡◌, refl, sym, ap, ◌∙◌, ◌≢◌, false, none, some, List, [], ◌∷◌, length, ℤ, pos,
  eqb_ℤ, eqb_ℤ_iff, eqb_ℤ_refl, arith, Bool-cases, Option-cases, inl, inr, leb, leb→le,
  leb_false→lt, ok,
}
use mathlib.Core.Path.{subst}
use akatsuki_db.Storage.PageManager.Laws.{disk}
use akatsuki_db.Storage.LruCache
use akatsuki_db.Storage.LruCache.{Address, Node, LruCache, find, remove, add_front, pop_last}
use akatsuki_db.Storage.LruCache.Laws.{IsLast, pop_last-IsLast, evict-some}
use akatsuki_db.Storage.BufferPool.{BufferPool, write_object, object_dirty}
use akatsuki_db.Storage.BufferPool.View.{
  view, SameView, Backs, IsPool, view-cached, view-uncached, view-nodes, write_object-Written,
}
use akatsuki_db.Storage.BufferPool.Write.{written-IsPool, written-SameView, same_bytes, pos_inj}

abbrev pub with_nodes : BufferPool → List Node → BufferPool
with_nodes s ns = record s { cache = record s.cache { nodes = ns } }

some≢none : {A : Type 0} {a : A} → some a ≡ none → ⊥
some≢none h = ground arith

-- The cache may drop a node whose page is up to date on disk.
module _ (s : BufferPool) (P : IsPool s) (last : Node) (rest : List Node)
    (L : IsLast s.cache.nodes last rest)
    (settled : (i : ℕ)
      → last.page_id ≡ pos i
      → (s.objects last.page).bytes ≡ disk i s.manager) where
  still : (j : ℤ) (a : Address) → find j rest ≡ some a → find j s.cache.nodes ≡ some a
  still j a f = elim (Bool-cases (eqb_ℤ last.page_id j)) [
    | inl e ↦ absurd (
        some≢none
          (sym f ∙ ap (λ k. find k rest) (sym ((eqb_ℤ_iff last.page_id j).0 e)) ∙ L.is_gone))
    | inr e ↦ sym (L.others j e) ∙ f
  ]

  drop_last-IsPool : IsPool (with_nodes s rest)
  drop_last-IsPool = record {
    cache = record { bounded = omega (arith, L.shorter, P.cache.bounded); distinct = L.distinct };
    room = P.room;
    whole = P.whole;
    backed = λ j a f.
        let (k, e, B) = P.backed j a (still j a f) in
        (
          k,
          e,
          record {
            id = B.id;
            inside = B.inside;
            size = B.size;
            clean = B.clean;
            allocated = B.allocated;
          },
        );
  }

  drop_last-SameView : SameView s (with_nodes s rest)
  drop_last-SameView i = elim (Bool-cases (eqb_ℤ last.page_id (pos i))) [
    | inl e ↦
        let same = (eqb_ℤ_iff last.page_id (pos i)).0 e in
        let gone : find (pos i) rest ≡ none = ap (λ k. find k rest) (sym same) ∙ L.is_gone in
        let here : find (pos i) s.cache.nodes ≡ some last.page =
          ap (λ k. find k s.cache.nodes) (sym same) ∙ L.is_there in
        view-uncached (with_nodes s rest) i gone ∙ sym (settled i same) ∙ sym (view-cached s i here)
    | inr e ↦ view-nodes s rest i (L.others (pos i) e)
  ]

abbrev pub fronted : BufferPool → ℕ → Address → BufferPool
fronted s i a = with_nodes s (add_front (pos i) a s.cache.nodes)

-- A new node at the front, whose object holds the page as it lies on disk.
module _ (s : BufferPool) (P : IsPool s) (i : ℕ) (a : Address)
    (miss : find (pos i) s.cache.nodes ≡ none) (space : length s.cache.nodes < s.cache.capacity)
    (B : Backs s a i) (loaded : (s.objects a).bytes ≡ disk i s.manager) where
  find-front :
      (j : ℤ)
      → eqb_ℤ (pos i) j ≡ false
      → find j (add_front (pos i) a s.cache.nodes) ≡ find j s.cache.nodes
  unfolding find
  find-front j h = rw h

  pub find-front_self : find (pos i) (add_front (pos i) a s.cache.nodes) ≡ some a
  unfolding find
  find-front_self = rw (eqb_ℤ_refl (pos i))

  front-Backs : {b : Address} {j : ℕ} → Backs s b j → Backs (fronted s i a) b j
  front-Backs C = record {
    id = C.id;
    inside = C.inside;
    size = C.size;
    clean = C.clean;
    allocated = C.allocated;
  }

  pub front-IsPool : IsPool (fronted s i a)
  front-IsPool = record {
    cache = record { bounded = space; distinct = (miss, P.cache.distinct) };
    room = P.room;
    whole = P.whole;
    backed = λ j b f. elim (Bool-cases (eqb_ℤ (pos i) j)) [
      | inl e ↦
          let same = (eqb_ℤ_iff (pos i) j).0 e in
          let is_a : some b ≡ some a =
            sym f
            ∙ ap (λ k. find k (add_front (pos i) a s.cache.nodes)) (sym same)
            ∙ find-front_self in
          (
            i,
            sym same,
            subst (λ k. Backs (fronted s i a) k i) (sym (some_inj is_a)) (front-Backs B),
          )
      | inr e ↦ let (k, e', C) = P.backed j b (sym (find-front j e) ∙ f) in (k, e', front-Backs C)
    ];
  }
    where
      some_inj : {x y : Address} → some x ≡ some y → x ≡ y
      some_inj h = ground arith

  pub front-SameView : SameView s (fronted s i a)
  front-SameView j = elim (Bool-cases (eqb_ℤ (pos i) (pos j))) [
    | inl e ↦
        let same = pos_inj ((eqb_ℤ_iff (pos i) (pos j)).0 e) in
        let at_i : view (fronted s i a) i ≡ view s i =
          view-cached (fronted s i a) i find-front_self ∙ loaded ∙ sym (view-uncached s i miss) in
        subst (λ k. view (fronted s i a) k ≡ view s k) same at_i
    | inr e ↦ view-nodes s (add_front (pos i) a s.cache.nodes) j (find-front (pos j) e)
  ]

-- What making room leaves: a pool with the same pages and space for a node, in which the object
-- `a` is as it was.
pub record Roomy (s : BufferPool) (a : Address) (t : BufferPool) : Type 0 where
  pub pool : IsPool t
  pub same : SameView s t
  pub space : length t.cache.nodes < t.cache.capacity
  pub missing : (i : ℕ) → find (pos i) s.cache.nodes ≡ none → find (pos i) t.cache.nodes ≡ none
  pub same_total : t.manager.total_pages ≡ s.manager.total_pages
  pub same_next : t.next_object ≡ s.next_object
  pub same_object : t.objects a ≡ s.objects a

module _ (s : BufferPool) (P : IsPool s) (a : Address)
    (unused : (j : ℤ) → find j s.cache.nodes ≢ some a) where
  drop_last-Roomy :
      (t : BufferPool) (last : Node) (rest : List Node)
      → IsPool t
      → SameView s t
      → t.cache ≡ s.cache
      → t.manager.total_pages ≡ s.manager.total_pages
      → t.next_object ≡ s.next_object
      → t.objects a ≡ s.objects a
      → IsLast s.cache.nodes last rest
      → ((i : ℕ) → last.page_id ≡ pos i → (t.objects last.page).bytes ≡ disk i t.manager)
      → Roomy s a (record t { cache = record s.cache { nodes = rest } })
  drop_last-Roomy t last rest Q same c total next obj L settled =
      subst (λ k. Roomy s a (record t { cache = record k { nodes = rest } })) c
        (record {
          pool = drop_last-IsPool t Q last rest L' settled;
          same = λ i. drop_last-SameView t Q last rest L' settled i ∙ same i;
          space = omega (arith, L'.shorter, Q.cache.bounded);
          missing = λ i h. elim (Option-cases (find (pos i) rest)) [
            | inl e ↦ e
            | inr (b, e) ↦ absurd (
                some≢none (
                  sym (still t Q last rest L' settled (pos i) b e)
                  ∙ ap (λ (k : LruCache). find (pos i) k.nodes) c
                  ∙ h))
          ];
          same_total = total;
          same_next = next;
          same_object = obj;
        })
    where
      L' : IsLast t.cache.nodes last rest
      L' = subst (λ (k : LruCache). IsLast k.nodes last rest) (sym c) L

  evict-Roomy :
      (n : Node) (ns : List Node)
      → s.cache.nodes ≡ n ∷ ns
      → (c : LruCache) × (t : BufferPool) × (LruCache.evict object_dirty write_object s.cache s
          ≡ ok (c, t))
        × Roomy s a (record t { cache = c })
  evict-Roomy n ns e =
      let (last, rest, popped, L₀) = pop_last-IsLast n ns (rw e at (P.cache.distinct)) in
      let popped' : pop_last s.cache.nodes ≡ some (last, rest) = rw e popped in
      let L : IsLast s.cache.nodes last rest = rw e L₀ in
      let (i, e_i, B) = P.backed last.page_id last.page L.is_there in
      let cached : find (pos i) s.cache.nodes ≡ some last.page =
        ap (λ k. find k s.cache.nodes) (sym e_i) ∙ L.is_there in
      let same_i = λ (j : ℕ) (h : last.page_id ≡ pos j). pos_inj (sym e_i ∙ h) in
      elim (Bool-cases (object_dirty s last.page)) [
        | inl d ↦
            let s' = write_object last.page s in
            let W = write_object-Written s last.page i P.whole B d in
            (
              record s.cache { nodes = rest },
              s',
              evict-some object_dirty write_object s.cache s last rest popped' ∙ rw d,
              drop_last-Roomy s' last rest (written-IsPool s last.page i P cached s' W)
                  (written-SameView s last.page i P cached s' W) W.same_cache W.same_total
                  W.same_next (W.kept a (λ eq. unused last.page_id (L.is_there ∙ ap some eq))) L
                  (λ j h.
                    subst (λ k. (s'.objects last.page).bytes ≡ disk k s'.manager) (same_i j h)
                      (same_bytes s last.page i P cached s' W last.page ∙ sym W.on_disk)),
            )
        | inr c ↦ (
          record s.cache { nodes = rest },
          s,
          evict-some object_dirty write_object s.cache s last rest popped' ∙ rw c,
          drop_last-Roomy s last rest P (λ j. refl) refl refl refl refl L
              (λ j h.
                subst (λ k. (s.objects last.page).bytes ≡ disk k s.manager) (same_i j h)
                  (B.clean c)),
        )
      ]

  pub make_room-Roomy :
      (c : LruCache) × (t : BufferPool) × (LruCache.make_room object_dirty write_object s.cache s
        ≡ ok (c, t))
      × Roomy s a (record t { cache = c })
  unfolding LruCache.make_room
  make_room-Roomy = elim (Bool-cases (leb s.cache.capacity (length s.cache.nodes))) [
    | inl full ↦ rw full (with_first s.cache.nodes refl (leb→le _ _ full))
    | inr space ↦ (
      s.cache,
      s,
      rw space,
      record {
        pool = P;
        same = λ i. refl;
        space = leb_false→lt _ _ space;
        missing = λ i h. h;
        same_total = refl;
        same_next = refl;
        same_object = refl;
      },
    )
  ]
    where
      with_first :
          (l : List Node)
          → s.cache.nodes ≡ l
          → s.cache.capacity ≤ length s.cache.nodes
          → (c : LruCache) × (t : BufferPool) × (LruCache.evict object_dirty write_object s.cache s
              ≡ ok (c, t))
            × Roomy s a (record t { cache = c })
      with_first [] e h = absurd (empty_full l_empty h P.room)
        where
          l_empty : length s.cache.nodes ≡ 0
          l_empty = ap length e

          empty_full : {n m : ℕ} → n ≡ 0 → m ≤ n → 0 < m → ⊥
          empty_full p q r = omega arith
      with_first (n ∷ ns) e h = evict-Roomy n ns e
