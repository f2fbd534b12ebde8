-- ===== src/Storage/BufferPool/Write.antt =====
-- Writing a page out, and `FlushAll`: the invariant and the view stay, and the file catches up.
use akatsuki_db.Base.{ℕ, ◌≡◌, refl, sym, ap, ◌∙◌, ◌≢◌, false, none, some, pos, arith}
use native.Mathlib.Decide.{ℕ_discrete}
use mathlib.Core.Path.{subst}
use akatsuki_db.Storage.Page.{Page, clear_dirty}
use akatsuki_db.Storage.PageManager.Laws.{disk}
use akatsuki_db.Storage.LruCache.{Address, find}
use akatsuki_db.Storage.BufferPool.{BufferPool}
use akatsuki_db.Storage.BufferPool.View.{SameView, Backs, IsPool, view-cong, Written}

pub pos_inj : {i j : ℕ} → pos i ≡ pos j → i ≡ j
pos_inj h = ground arith

pub some_inj : {a b : ℕ} → some a ≡ some b → a ≡ b
some_inj h = ground arith

clear_dirty-bytes : (p : Page) → (clear_dirty p).bytes ≡ p.bytes
unfolding clear_dirty
clear_dirty-bytes p = refl

clear_dirty-id : (p : Page) → (clear_dirty p).page_id ≡ p.page_id
unfolding clear_dirty
clear_dirty-id p = refl

module _ (s : BufferPool) (a : Address) (i : ℕ) (P : IsPool s)
    (cached : find (pos i) s.cache.nodes ≡ some a) (s' : BufferPool) (W : Written s a i s') where
  pub same_bytes : (b : Address) → (s'.objects b).bytes ≡ (s.objects b).bytes
  same_bytes b = elim (ℕ_discrete a b) [
    | yes e ↦ rw (← e) (ap (λ (p : Page). p.bytes) W.cleared ∙ clear_dirty-bytes (s.objects a))
    | no ne ↦ ap (λ (p : Page). p.bytes) (W.kept b ne)
  ]

  same_id : (b : Address) → (s'.objects b).page_id ≡ (s.objects b).page_id
  same_id b = elim (ℕ_discrete a b) [
    | yes e ↦ rw (← e) (ap (λ (p : Page). p.page_id) W.cleared ∙ clear_dirty-id (s.objects a))
    | no ne ↦ ap (λ (p : Page). p.page_id) (W.kept b ne)
  ]

  clean_after :
      (b : Address) (j : ℕ)
      → find (pos j) s.cache.nodes ≡ some b
      → Backs s b j
      → (s'.objects b).is_dirty ≡ false
      → (s'.objects b).bytes ≡ disk j s'.manager
  clean_after b j f B c = elim (ℕ_discrete j i) [
    | yes e ↦
        let same : b ≡ a = some_inj (sym f ∙ ap (λ k. find (pos k) s.cache.nodes) e ∙ cached) in
        rw e (same_bytes b ∙ ap (λ k. (s.objects k).bytes) same ∙ sym W.on_disk)
    | no ne ↦
        let other : a ≢ b =
          λ e. ne (pos_inj (sym B.id ∙ ap (λ k. (s.objects k).page_id) (sym e) ∙ own.id)) in
        same_bytes b
        ∙ B.clean (sym (ap (λ (p : Page). p.is_dirty) (W.kept b other)) ∙ c)
        ∙ sym (W.off_disk j ne)
  ]
    where
      own : Backs s a i
      own = let (k, e, B') = P.backed (pos i) a cached in subst (Backs s a) (sym (pos_inj e)) B'

  written-Backs :
      (b : Address) (j : ℕ) → find (pos j) s.cache.nodes ≡ some b → Backs s b j → Backs s' b j
  written-Backs b j f B = record {
    id = same_id b ∙ B.id;
    inside = rw W.same_total (B.inside);
    size = rw (same_bytes b) (B.size);
    clean = clean_after b j f B;
    allocated = rw W.same_next (B.allocated);
  }

  pub written-IsPool : IsPool s'
  written-IsPool = record {
    cache = rw W.same_cache (P.cache);
    room = rw W.same_cache (P.room);
    whole = W.whole;
    backed = λ j b f.
        let f' = rw W.same_cache at f in
        let (k, e, B) = P.backed j b f' in (k, e, written-Backs b k (rw e at f') B);
  }

  pub written-SameView : SameView s s'
  written-SameView =
      view-cong s s' W.same_cache same_bytes λ j e.
        W.off_disk j λ eq. none≢some (sym e ∙ ap (λ k. find (pos k) s.cache.nodes) eq ∙ cached)
    where
      none≢some : {b : Address} → none ≡ some b → ⊥
      none≢some h = ground arith
