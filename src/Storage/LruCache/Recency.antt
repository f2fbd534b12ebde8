-- ===== src/Storage/LruCache/Recency.antt =====
-- `Put` keeps the entries in the order of their last use and drops the least recent one only.
use akatsuki_db.Base.{
  ℕ, zero, suc, ◌≤◌, ◌<◌, ◌≡◌, refl, sym, ap, ◌∙◌, Bool, Option, none, some, List, [], ◌∷◌, length,
  take, ℤ, arith, if◌then◌else◌, leb, ok, Option-cases, Bool-cases, inl, inr, leb→le, leb_false→lt,
}
use akatsuki_db.Storage.LruCache.{
  Address, Node, LruCache, find, remove, add_front, pop_last, put, make_room,
}
use akatsuki_db.Storage.LruCache.Laws.{IsCache, length-remove, evict-some, put-hit, put-miss}

take-all : (n : ℕ) (ns : List Node) → length ns ≤ n → take n ns ≡ ns
take-all zero [] h = refl
take-all zero (x ∷ ns) h = absurd (omega arith)
take-all (suc n) [] h = refl
take-all (suc n) (x ∷ ns) h = ap (◌∷◌ x) (take-all n ns (omega arith))

remove_absent : (i : ℤ) (ns : List Node) → find i ns ≡ none → remove i ns ≡ ns
unfolding find remove
remove_absent i [] h = refl
remove_absent i (n ∷ ns) h = ground (arith, remove_absent i ns)

pop_last-take :
    (n : Node) (ns : List Node)
    → (last : Node) × (pop_last (n ∷ ns) ≡ some (last, take (length ns) (n ∷ ns)))
unfolding pop_last
pop_last-take n [] = (n, refl)
pop_last-take n (m ∷ ns) = let (last, e) = pop_last-take m ns in (last, rw e)

module _ {ℓ} {S : Type ℓ} (is_dirty : S → Address → Bool) (on_evict : Address → S → S) where
  -- What the callback makes of the world for an entry that is displaced: it runs if that is dirty.
  unfoldable pub notify : Option (Node × List Node) → S → S
  notify none s = s
  notify (some (last, _)) s = if is_dirty s last.page then on_evict last.page s else s

  -- The world after a `Put` of `i`: an entry is displaced if `i` is new and the cache is full.
  unfoldable pub notified : ℤ → LruCache → S → S
  unfolding notify
  notified i c s = elim (find i c.nodes) [
    | some _ ↦ s
    | none ↦ if leb c.capacity (length c.nodes) then notify (pop_last c.nodes) s else s
  ]

  notified-hit :
      (i : ℤ) (b : Address) (c : LruCache) (s : S) → find i c.nodes ≡ some b → notified i c s ≡ s
  unfolding notified
  notified-hit i b c s h = rw (h, notified)

  notified-miss :
      (i : ℤ) (c : LruCache) (s : S)
      → find i c.nodes ≡ none
      → notified i c s
        ≡ (if leb c.capacity (length c.nodes) then notify (pop_last c.nodes) s else s)
  unfolding notified
  notified-miss i c s h = rw (h, notified)

  abbrev kept : ℤ → Address → LruCache → LruCache
  kept i a c = record c { nodes = take c.capacity (add_front i a (remove i c.nodes)) }

  full-cache :
      (i : ℤ) (a : Address) (c : LruCache) (s : S) (ns : List Node)
      → c.nodes ≡ ns
      → 0 < c.capacity
      → length ns ≡ c.capacity
      → (p : Node × List Node) × (pop_last c.nodes ≡ some p)
        × (take c.capacity (add_front i a c.nodes) ≡ add_front i a p.1)
  full-cache i a c s [] e h l = absurd (omega arith)
  full-cache i a c s (n ∷ ns) e h l =
      let (last, q) = pop_last-take n ns in
      ((last, take (length ns) (n ∷ ns)), ap pop_last e ∙ q, rw (e, sym l))

  put-kept_miss :
      (i : ℤ) (a : Address) (c : LruCache) (s : S)
      → IsCache c
      → 0 < c.capacity
      → find i c.nodes ≡ none
      → put is_dirty on_evict i a c s ≡ ok (kept i a c, notified i c s)
  unfolding make_room notify
  put-kept_miss i a c s C h e = elim (Bool-cases (leb c.capacity (length c.nodes))) [
    | inl full ↦
        let l : length c.nodes ≡ c.capacity = omega (arith, leb→le _ _ full, C.bounded) in
        let (p, q, t) = full-cache i a c s c.nodes refl h l in
        put-miss is_dirty on_evict i a c s e {c' = record c { nodes = p.1 }}
          {s' = if is_dirty s p.0.page then on_evict p.0.page s else s}
          (rw full (evict-some is_dirty on_evict c s p.0 p.1 q))
        ∙ rw (remove_absent i c.nodes e, t, notified-miss i c s e, full, q)
    | inr space ↦
        let l = leb_false→lt _ _ space in
        put-miss is_dirty on_evict i a c s e {c' = c} {s' = s} (rw space)
        ∙ rw (
          remove_absent i c.nodes e,
          take-all c.capacity (add_front i a c.nodes) l,
          notified-miss i c s e,
          space,
        )
  ]

  -- `Put` into a cache of positive capacity always succeeds. It leaves the new entry, followed by
  -- the other entries in their order, cut off at the capacity: what goes is the least recently
  -- used entry. The callback runs at most once, on that entry, if it is dirty and the put
  -- displaced it.
  pub put-kept :
      (i : ℤ) (a : Address) (c : LruCache) (s : S)
      → IsCache c
      → 0 < c.capacity
      → put is_dirty on_evict i a c s ≡ ok (kept i a c, notified i c s)
  put-kept i a c s C h = elim (Option-cases (find i c.nodes)) [
    | inl e ↦ put-kept_miss i a c s C h e
    | inr (b, e) ↦
        put-hit is_dirty on_evict i a b c s e
        ∙ rw (
          take-all c.capacity (add_front i a (remove i c.nodes))
              (omega (arith, length-remove i c.nodes e, C.bounded)),
          notified-hit i b c s e,
        )
  ]
