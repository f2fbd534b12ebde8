-- ===== src/Index/Tree/Descent.antt =====
-- `FindLeaf` over the pool is the descent over the pages, whatever the cache drops on the way.
use akatsuki_db.Base.{
  ℕ, zero, suc, ◌<◌, ◌≡◌, refl, sym, ap, ◌∙◌, ◌≢◌, true, false, Bool-cases, inl, inr, Bytes, pos,
  length, ◌==◌, ==_iff, ok, arith,
}
use akatsuki_db.Storage.Page.{new_page, read_int, read_short}
use akatsuki_db.Storage.LruCache.{Address}
use akatsuki_db.Storage.BufferPool.{BufferPool, total_pages}
use akatsuki_db.Storage.BufferPool.View.{view, SameView, IsPool}
use akatsuki_db.Storage.BufferPool.GetPage.{get_page-Fetched}
use akatsuki_db.Index.Key.{IndexKey}
use akatsuki_db.Index.Node.{
  Node, internal, get_type, get_key_count, get_key, key_offset, find_key_index, search_loop,
  get_child_page_id,
}
use akatsuki_db.Index.Tree.Child.{HasSeparators, IsChildFor, child_for-IsChildFor}
use akatsuki_db.Index.Tree.{BPlusTree, node_at, load_node, child_for, find_leaf_loop, find_leaf}

-- The node on a page, wherever its object lies.
abbrev pub node_on : (ℕ → Bytes) → ℕ → Node
node_on pages i = new_page (pos i) (pages i)

-- The pages from `i` on lead down in `depth` steps, each to the child that the key belongs to, to a page
-- that is not an internal node; all lie within `total` pages.
pub data LeadsTo (pages : ℕ → Bytes) (total : ℕ) (key : IndexKey) : ℕ → ℕ → ℕ → Type 0 where
  here :
      {i : ℕ} → i < total → get_type (node_on pages i) ≢ internal → LeadsTo pages total key zero i i
  down :
      {i j k c depth : ℕ}
      → i < total
      → get_type (node_on pages i) ≡ internal
      → HasSeparators (node_on pages i)
      → IsChildFor key (node_on pages i) c
      → get_child_page_id c (node_on pages i) ≡ pos j
      → LeadsTo pages total key depth j k
      → LeadsTo pages total key (suc depth) i k

-- A node is its bytes.
get_type-bytes : (m n : Node) → m.bytes ≡ n.bytes → get_type m ≡ get_type n
unfolding get_type
get_type-bytes m n e = rw e refl

child_for-new_page :
    (key : IndexKey) (n : Node) → child_for key n ≡ child_for key (new_page (pos 0) n.bytes)
unfolding child_for find_key_index search_loop get_key key_offset get_type get_key_count
    get_child_page_id read_short read_int
child_for-new_page key n = refl

child_for-bytes :
    (key : IndexKey) (m n : Node) → m.bytes ≡ n.bytes → child_for key m ≡ child_for key n
child_for-bytes key m n e =
    child_for-new_page key m
    ∙ ap (λ bs. child_for key (new_page (pos 0) bs)) e
    ∙ sym (child_for-new_page key n)

LeadsTo-inside :
    {pages : ℕ → Bytes} {total depth i k : ℕ} {key : IndexKey}
    → LeadsTo pages total key depth i k
    → i < total
LeadsTo-inside (here h e) = h
LeadsTo-inside (down h e S C c l) = h

-- What a walk over the pool `s` to the page `k` gives.
pub record Reached (s : BufferPool) (k : ℕ) (a : Address) (s' : BufferPool) : Type 0 where
  pub pool : IsPool s'
  pub same : SameView s s'
  pub bytes : (node_at a s').bytes ≡ view s k
  pub same_total : s'.manager.total_pages ≡ s.manager.total_pages

differ : (x : ℕ) → x ≢ internal → (x == internal) ≡ false
differ x h = elim (Bool-cases (x == internal)) [
  | inl e ↦ absurd (h ((==_iff x internal).0 e))
  | inr e ↦ e
]

module _ (s : BufferPool) (key : IndexKey) (sized : length key.bytes ≡ 128) where
  load_node-Reached :
      (now : BufferPool) (i : ℕ)
      → IsPool now
      → SameView s now
      → now.manager.total_pages ≡ s.manager.total_pages
      → i < s.manager.total_pages
      → (a : Address) × (s' : BufferPool) × (load_node (pos i) now ≡ ok (a, s')) × Reached s i a s'
  unfolding load_node
  load_node-Reached now i P same total h =
      let (a, s', e, F) = get_page-Fetched now i P (omega arith) in
      (
        a,
        s',
        rw e refl,
        record {
          pool = F.pool;
          same = λ j. F.same j ∙ same j;
          bytes = F.bytes ∙ same i;
          same_total = F.same_total ∙ total;
        },
      )

  find_leaf_loop-Reached :
      (fuel depth : ℕ) (i k : ℕ) (a : Address) (now : BufferPool)
      → Reached s i a now
      → LeadsTo (view s) s.manager.total_pages key depth i k
      → depth < fuel
      → (b : Address) × (s' : BufferPool) × (find_leaf_loop fuel key a now ≡ ok (b, s'))
        × Reached s k b s'
  unfolding find_leaf_loop
  find_leaf_loop-Reached zero depth i k a now R l h = absurd (omega arith)
  find_leaf_loop-Reached (suc fuel) depth i k a now R (here inside stop) h =
      let t = get_type-bytes (node_at a now) (node_on (view s) i) R.bytes in
      let stop' : get_type (node_at a now) ≢ internal = λ q. stop (sym t ∙ q) in
      let e : (get_type (node_at a now) == internal) ≡ false = differ _ stop' in
      (a, now, rw e refl, R)
  find_leaf_loop-Reached (suc fuel) depth i k a now R (down {j = j} inside go S C child l) h =
      let t = get_type-bytes (node_at a now) (node_on (view s) i) R.bytes in
      let c =
        child_for-bytes key (node_at a now) (node_on (view s) i) R.bytes
        ∙ child_for-IsChildFor key (node_on (view s) i) _ sized S C
        ∙ child in
      let (b, s', e, R') = load_node-Reached now j R.pool R.same R.same_total (LeadsTo-inside l) in
      let (b', s'', e', R'') = find_leaf_loop-Reached fuel _ j k b s' R' l (omega arith) in
      let q : (get_type (node_at a now) == internal) ≡ true =
        (==_iff (get_type (node_at a now)) internal).1 (t ∙ go) in
      (b', s'', rw (q, c, e) e', R'')

-- In a pool that keeps its invariant, where the pages from the root on lead down in fewer steps than
-- there are pages to a page that is not an internal node (from each internal node, whose separators
-- increase, to the child with no separator before it greater than the key, and all from it on greater),
-- `FindLeaf` of a key of 128 bytes returns the object of that page, with the page's bytes; the pool
-- keeps its invariant, and no page changes, whatever the cache drops.
pub find_leaf-Reached :
    (t : BPlusTree) (key : IndexKey) (root depth k : ℕ)
    → IsPool t.pool
    → length key.bytes ≡ 128
    → t.root_page_id ≡ pos root
    → LeadsTo (view t.pool) t.pool.manager.total_pages key depth root k
    → depth < t.pool.manager.total_pages
    → (a : Address) × (s : BufferPool) × (find_leaf key t ≡ ok (a, s)) × Reached t.pool k a s
unfolding find_leaf total_pages
find_leaf-Reached t key root depth k P sized r l h =
    let (a, s, e, R) =
      load_node-Reached t.pool key sized t.pool root P (λ i. refl) refl (LeadsTo-inside l) in
    let (b, s', e', R') =
      find_leaf_loop-Reached t.pool key sized t.pool.manager.total_pages depth root k a s R l h in
    (b, s', rw (r, e) e', R')
