-- ===== src/Storage/LruCache/Laws.antt =====
-- What the cache's list operations do to a search, and the cache's own invariant.
use akatsuki_db.Base.{
  ◌+◌, ◌≤◌, ◌≡◌, refl, sym, ◌∙◌, Bool, false, none, some, List, [], ◌∷◌, length, ℤ, eqb_ℤ,
  eqb_ℤ_iff, eqb_ℤ_refl, arith, if◌then◌else◌, ok, Bool-cases, inl, inr,
}
use akatsuki_db.Storage.LruCache.{
  Address, Node, LruCache, find, remove, add_front, pop_last, put, evict, make_room,
}

-- No id stands twice in the list.
abbrev pub AreDistinct : List Node → Type 0
AreDistinct [] = Unit {0}
AreDistinct (n ∷ ns) = (find n.page_id ns ≡ none) × AreDistinct ns

pub record IsCache (c : LruCache) : Type 0 where
  pub bounded : length c.nodes ≤ c.capacity
  pub distinct : AreDistinct c.nodes

pub find-remove_self : (i : ℤ) (ns : List Node) → AreDistinct ns → find i (remove i ns) ≡ none
unfolding find remove
find-remove_self i [] d = refl
find-remove_self i (n ∷ ns) d =
    ground (arith, find-remove_self i ns d.1, eqb_ℤ_iff n.page_id i, d.0)

pub find-remove_ne :
    (i j : ℤ) (ns : List Node) → eqb_ℤ i j ≡ false → find j (remove i ns) ≡ find j ns
unfolding find remove
find-remove_ne i j [] h = refl
find-remove_ne i j (n ∷ ns) h =
    ground
      (arith, find-remove_ne i j ns h, eqb_ℤ_iff n.page_id i, eqb_ℤ_iff n.page_id j, eqb_ℤ_iff i j)

find-remove-none : (i j : ℤ) (ns : List Node) → find j ns ≡ none → find j (remove i ns) ≡ none
unfolding find remove
find-remove-none i j [] h = refl
find-remove-none i j (n ∷ ns) h = ground (arith, find-remove-none i j ns)

pub remove-AreDistinct : (i : ℤ) (ns : List Node) → AreDistinct ns → AreDistinct (remove i ns)
unfolding remove
remove-AreDistinct i [] d = tt
remove-AreDistinct i (n ∷ ns) d = elim (Bool-cases (eqb_ℤ n.page_id i)) [
  | inl e ↦ rw e (d.1)
  | inr e ↦ rw e (find-remove-none i n.page_id ns d.0, remove-AreDistinct i ns d.1)
]

pub length-remove :
    (i : ℤ) (ns : List Node) {a : Address}
    → find i ns ≡ some a
    → length (remove i ns) + 1 ≡ length ns
unfolding find remove
length-remove i [] h = absurd (ground arith)
length-remove i (n ∷ ns) {a} h = ground (arith, length-remove i ns {a = a})

-- The last node of a list that has one, and the rest.
pub record IsLast (ns : List Node) (last : Node) (rest : List Node) : Type 0 where
  pub shorter : length rest + 1 ≡ length ns
  pub is_there : find last.page_id ns ≡ some last.page
  pub is_gone : find last.page_id rest ≡ none
  pub others : (j : ℤ) → eqb_ℤ last.page_id j ≡ false → find j rest ≡ find j ns
  pub distinct : AreDistinct rest

find_self : (n : Node) (ns : List Node) → find n.page_id (n ∷ ns) ≡ some n.page
unfolding find
find_self n ns = rw (eqb_ℤ_refl n.page_id)

find-skip :
    (n : Node) (ns : List Node) (j : ℤ) → eqb_ℤ n.page_id j ≡ false → find j (n ∷ ns) ≡ find j ns
unfolding find
find-skip n ns j h = rw h

-- An id that is found behind `n` is not that of `n`.
differs :
    (n : Node) (ns : List Node) (j : ℤ) {a : Address}
    → find n.page_id ns ≡ none
    → find j ns ≡ some a
    → eqb_ℤ n.page_id j ≡ false
differs n ns j {a} h f = elim (Bool-cases (eqb_ℤ n.page_id j)) [
  | inl e ↦ absurd (none≢some (sym (rw ((eqb_ℤ_iff n.page_id j).0 e) at h) ∙ f))
  | inr e ↦ e
]
  where
    none≢some : {a : Address} → none ≡ some a → ⊥
    none≢some h = ground arith

find-skip_found :
    (n : Node) (ns : List Node) (j : ℤ) {a : Address}
    → find n.page_id ns ≡ none
    → find j ns ≡ some a
    → find j (n ∷ ns) ≡ find j ns
find-skip_found n ns j h f = find-skip n ns j (differs n ns j h f)

find-cons_none :
    (n : Node) (ns : List Node) (j : ℤ)
    → eqb_ℤ n.page_id j ≡ false
    → find j ns ≡ none
    → find j (n ∷ ns) ≡ none
find-cons_none n ns j h f = find-skip n ns j h ∙ f

find-cons_cong :
    (n : Node) (ms ns : List Node) (j : ℤ)
    → find j ms ≡ find j ns
    → find j (n ∷ ms) ≡ find j (n ∷ ns)
unfolding find
find-cons_cong n ms ns j h = rw h

kept :
    (n : Node) (ns rest : List Node) (last : Node)
    → find n.page_id ns ≡ none
    → find last.page_id ns ≡ some last.page
    → ((j : ℤ) → eqb_ℤ last.page_id j ≡ false → find j rest ≡ find j ns)
    → find n.page_id rest ≡ none
kept n ns rest last h f others =
    others n.page_id (eqb_sym n.page_id last.page_id (differs n ns last.page_id h f)) ∙ h
  where
    eqb_sym : (i j : ℤ) → eqb_ℤ i j ≡ false → eqb_ℤ j i ≡ false
    eqb_sym i j e = ground (arith, eqb_ℤ_iff i j, eqb_ℤ_iff j i)

-- A list that is not empty has a last node.
pub pop_last-IsLast :
    (n : Node) (ns : List Node)
    → AreDistinct (n ∷ ns)
    → (last : Node) × (rest : List Node) × (pop_last (n ∷ ns) ≡ some (last, rest))
      × IsLast (n ∷ ns) last rest
unfolding pop_last
pop_last-IsLast n [] d = (
  n,
  [],
  refl,
  record {
    shorter = omega arith;
    is_there = find_self n [];
    is_gone = d.0;
    others = λ j h. sym (find-skip n [] j h);
    distinct = tt;
  },
)
pop_last-IsLast n (m ∷ ns) d =
    let (last, rest, e, p) = pop_last-IsLast m ns d.1 in
    (
      last,
      n ∷ rest,
      rw e,
      record {
        shorter = omega (arith, p.shorter);
        is_there = find-skip_found n (m ∷ ns) last.page_id d.0 p.is_there ∙ p.is_there;
        is_gone =
            find-cons_none n rest last.page_id (differs n (m ∷ ns) last.page_id d.0 p.is_there)
              p.is_gone;
        others = λ j h. find-cons_cong n rest (m ∷ ns) j (p.others j h);
        distinct = (kept n (m ∷ ns) rest last d.0 p.is_there p.others, p.distinct);
      },
    )

-- Every node of the list is the one that its id finds in `ns`.
abbrev pub AllFound : List Node → List Node → Type 0
AllFound ns [] = Unit {0}
AllFound ns (m ∷ ms) = (find m.page_id ns ≡ some m.page) × AllFound ns ms

AllFound-cons :
    (n : Node) (ns ms : List Node)
    → find n.page_id ns ≡ none
    → AllFound ns ms
    → AllFound (n ∷ ns) ms
AllFound-cons n ns [] h all = tt
AllFound-cons n ns (m ∷ ms) h all =
    (find-skip_found n ns m.page_id h all.0 ∙ all.0, AllFound-cons n ns ms h all.1)

pub AllFound-self : (ns : List Node) → AreDistinct ns → AllFound ns ns
AllFound-self [] d = tt
AllFound-self (n ∷ ns) d = (find_self n ns, AllFound-cons n ns ns d.0 (AllFound-self ns d.1))

module _ {ℓ} {S : Type ℓ} (is_dirty : S → Address → Bool) (on_evict : Address → S → S) where
  pub evict-some :
      (c : LruCache) (s : S) (last : Node) (rest : List Node)
      → pop_last c.nodes ≡ some (last, rest)
      → evict is_dirty on_evict c s
        ≡ ok (record c { nodes = rest }, if is_dirty s last.page then on_evict last.page s else s)
  unfolding evict
  evict-some c s last rest h = rw (h, evict)

  pub put-hit :
      (i : ℤ) (a b : Address) (c : LruCache) (s : S)
      → find i c.nodes ≡ some b
      → put is_dirty on_evict i a c s
        ≡ ok (record c { nodes = add_front i a (remove i c.nodes) }, s)
  unfolding put
  put-hit i a b c s h = rw (h, put)

  pub put-miss :
      (i : ℤ) (a : Address) (c : LruCache) (s : S)
      → find i c.nodes ≡ none
      → {c' : LruCache} {s' : S} → make_room is_dirty on_evict c s ≡ ok (c', s')
      → put is_dirty on_evict i a c s ≡ ok (record c' { nodes = add_front i a c'.nodes }, s')
  unfolding put
  put-miss i a c s h m = rw (h, put) (rw (m, make_room))
