-- ===== src/Table/Manager/Writes.antt =====
-- `UpdateRow`, `DeleteRow` and `UndeleteRow` on a table in a pool: one row changes, and nothing else,
-- whatever the cache drops on the way.
use akatsuki_db.Base.{
  ℕ, ◌+◌, ◌-◌, ◌≤◌, ◌<◌, ◌≡◌, refl, sym, ap, ◌∙◌, ◌≢◌, true, false, Bytes, pos, arith, inl, inr,
  length, take, get_or, set, length-set, ltb, ltb→lt, ltb_false→le, Bool-cases, read_at, write_at,
  length-write_at, read_at-write_at_len, read_at-write_at_before, read_at-write_at_after,
  length-read_at, take_of_length-le, ok, ◌==◌,
}
use mathlib.Core.Path.{subst}
use akatsuki_db.Storage.Page.{Page, page_size, mark_dirty, get_slot, put_slot, slot_offset}
use akatsuki_db.Storage.BufferPool.{BufferPool, modify}
use akatsuki_db.Storage.BufferPool.View.{view, IsPool}
use akatsuki_db.Storage.BufferPool.GetPage.{get_page-Fetched}
use akatsuki_db.Storage.BufferPool.Change.{IsEdit, modify-view}
use akatsuki_db.Table.Manager.{
  TableManager, on_page, overwrite_row, flag_row, is_deleted, update_row, delete_row, undelete_row,
}
use akatsuki_db.Table.Manager.Slots.{mul_step}
use akatsuki_db.Table.Row.Bits.{get_or-set_self}

-- The bytes of the row in slot `k` of page `i`, cached or not.
abbrev pub row_at : ℕ → ℕ → TableManager → Bytes
row_at i k t = read_at (slot_offset k t.row_size_bytes) t.row_size_bytes (view t.pool i)

-- The slot lies in its page, which is a page of the file.
abbrev pub IsSlot : ℕ → ℕ → TableManager → Type 0
IsSlot i k t =
    (i < t.pool.manager.total_pages)
    × (slot_offset k t.row_size_bytes + t.row_size_bytes ≤ page_size)

-- `t'` is `t` with `row` in slot `k` of page `i`.
pub record RowWritten (t : TableManager) (i k : ℕ) (row : Bytes) (t' : TableManager) : Type 0 where
  pub pool : IsPool t'.pool
  pub same_size : t'.row_size_bytes ≡ t.row_size_bytes
  pub same_total : t'.pool.manager.total_pages ≡ t.pool.manager.total_pages
  pub written : row_at i k t' ≡ row
  pub other_slots : (l : ℕ) → l ≢ k → row_at i l t' ≡ row_at i l t
  pub other_pages : (j : ℕ) → j ≢ i → view t'.pool j ≡ view t.pool j

-- A slot of a page that is overwritten, and the others.
module _ (r k : ℕ) (row bytes : Bytes) (sized : length row ≡ r)
    (inside : slot_offset k r + r ≤ length bytes) where
  slot-write_at_self : read_at (slot_offset k r) r (write_at (slot_offset k r) row bytes) ≡ row
  slot-write_at_self = read_at-write_at_len (slot_offset k r) r row bytes sized inside

  slot-write_at_ne :
      (l : ℕ)
      → l ≢ k
      → read_at (slot_offset l r) r (write_at (slot_offset k r) row bytes)
        ≡ read_at (slot_offset l r) r bytes
  slot-write_at_ne l ne = elim (Bool-cases (ltb l k)) [
    | inl e ↦
        let h = mul_step l k r (ltb→lt l k e) in
        read_at-write_at_before (slot_offset l r) r (slot_offset k r) row bytes (omega arith)
    | inr e ↦
        let le = ltb_false→le l k e in
        let h = mul_step k l r (omega arith) in
        read_at-write_at_after (slot_offset l r) r (slot_offset k r) row bytes (omega arith)
  ]

length-view :
    (s : BufferPool) (i : ℕ) → IsPool s → i < s.manager.total_pages → length (view s i) ≡ page_size
length-view s i P h =
    let (a, s', e, F) = get_page-Fetched s i P h in
    let (j, same, B) = F.pool.backed (pos i) a F.cached in sym (ap length F.bytes) ∙ B.size

module _ (t : TableManager) (i k : ℕ) (P : IsPool t.pool) (S : IsSlot i k t) where
  abbrev slot_size : ℕ
  slot_size = t.row_size_bytes

  -- A change of a page that writes into slot `k` what `g` makes of its row.
  abbrev rewrite : (Bytes → Bytes) → Page → Page
  rewrite g p = mark_dirty (put_slot k slot_size (g (get_slot k slot_size p)) p)

  rewrite-IsEdit : (g : Bytes → Bytes) (p : Page) → IsEdit (rewrite g) p
  unfolding mark_dirty put_slot
  rewrite-IsEdit g p = record {
    dirty = refl;
    same_id = refl;
    same_size = length-write_at (slot_offset k slot_size) (g (get_slot k slot_size p)) p.bytes;
  }

  rewrite-bytes :
      (g : Bytes → Bytes) (p : Page)
      → (rewrite g p).bytes
        ≡ write_at
            (slot_offset k slot_size)
            (g (read_at (slot_offset k slot_size) slot_size p.bytes))
            p.bytes
  unfolding mark_dirty put_slot get_slot
  rewrite-bytes g p = refl

  on_page-RowWritten :
      (g : Bytes → Bytes)
      → length (g (row_at i k t)) ≡ slot_size
      → (t' : TableManager) × (on_page (pos i) (rewrite g) t ≡ ok t')
        × RowWritten t i k (g (row_at i k t)) t'
  on_page-RowWritten g sized =
      let (a, s, e, F) = get_page-Fetched t.pool i P S.0 in
      let (P', changed, others) =
        modify-view s i a (rewrite g) F.pool F.cached (rewrite-IsEdit g (s.objects a)) in
      let row = g (row_at i k t) in
      let now : view (modify a (rewrite g) s) i
          ≡ write_at (slot_offset k slot_size) row (view t.pool i) =
        changed
        ∙ rewrite-bytes g (s.objects a)
        ∙ ap
            (λ bs.
              write_at (slot_offset k slot_size)
                (g (read_at (slot_offset k slot_size) slot_size bs)) bs)
            F.bytes in
      let inside : slot_offset k slot_size + slot_size ≤ length (view t.pool i) =
        omega (arith, S.1, length-view t.pool i P S.0) in
      (
        record t { pool = modify a (rewrite g) s },
        rw e refl,
        record {
          pool = P';
          same_size = refl;
          same_total = unfold modify in F.same_total;
          written =
              ap (read_at (slot_offset k slot_size) slot_size) now
              ∙ slot-write_at_self slot_size k row (view t.pool i) sized inside;
          other_slots = λ l ne.
              ap (read_at (slot_offset l slot_size) slot_size) now
              ∙ slot-write_at_ne slot_size k row (view t.pool i) sized inside l ne;
          other_pages = λ j ne. others j ne ∙ F.same j;
        },
      )

  length-row_at : length (row_at i k t) ≡ slot_size
  length-row_at =
      length-read_at (slot_offset k slot_size) slot_size (view t.pool i)
        (omega (arith, S.1, length-view t.pool i P S.0))

-- On a table whose pool keeps the invariant, `UpdateRow` of a slot within a page of the file
-- succeeds with a row of the table's size: the slot then holds that row, all other slots and pages
-- hold what they did, and the invariant is kept, whatever is cached or has to be evicted.
pub update_row-RowWritten :
    (t : TableManager) (i k : ℕ) (row : Bytes)
    → IsPool t.pool
    → IsSlot i k t
    → length row ≡ t.row_size_bytes
    → (t' : TableManager) × (update_row (pos i) k row t ≡ ok t') × RowWritten t i k row t'
unfolding update_row overwrite_row
update_row-RowWritten t i k row P S sized =
    let cut = take_of_length-le t.row_size_bytes row (omega arith) in
    let (t', e, W) =
      on_page-RowWritten t i k P S (λ _. take t.row_size_bytes row) (ap length cut ∙ sized) in
    (t', e, subst (λ x. RowWritten t i k x t') cut W)

-- The row with its last byte, the deletion flag, set.
abbrev pub flagged : ℕ → ℕ → ℕ → TableManager → Bytes
flagged flag i k t = set (row_at i k t) (t.row_size_bytes - 1) flag

flag_row-RowWritten :
    (t : TableManager) (i k flag : ℕ)
    → IsPool t.pool
    → IsSlot i k t
    → 0 < t.row_size_bytes
    → (t' : TableManager) × (on_page (pos i) (flag_row flag k t.row_size_bytes) t ≡ ok t')
      × RowWritten t i k (flagged flag i k t) t'
      × (is_deleted t.row_size_bytes (row_at i k t') ≡ (flag == 1))
unfolding flag_row is_deleted
flag_row-RowWritten t i k flag P S some_size =
    let n = t.row_size_bytes in
    let l = length-row_at t i k P S in
    let (t', e, W) =
      on_page-RowWritten t i k P S (λ row. set row (n - 1) flag)
        (length-set (row_at i k t) (n - 1) flag ∙ l) in
    (
      t',
      e,
      W,
      ap (λ row. get_or row (n - 1) 0 == 1) W.written
          ∙ ap (λ b. b == 1) (get_or-set_self (row_at i k t) (n - 1) flag 0 (omega arith)),
    )

-- On a table whose pool keeps the invariant and whose rows have a size, `DeleteRow` and `UndeleteRow`
-- of a slot within a page of the file succeed, for any row that `UndeleteRow` is given: the row then is
-- one that the scan passes over, or one that it does not, and is as it was but for its last byte; all
-- other slots and pages hold what they did, and the invariant is kept.
pub delete_row-RowWritten :
    (t : TableManager) (i k : ℕ) (original : Bytes)
    → IsPool t.pool
    → IsSlot i k t
    → 0 < t.row_size_bytes
    → ((t' : TableManager) × (delete_row (pos i) k t ≡ ok t')
        × RowWritten t i k (flagged 1 i k t) t'
        × (is_deleted t.row_size_bytes (row_at i k t') ≡ true))
      × ((t' : TableManager) × (undelete_row (pos i) k original t ≡ ok t')
          × RowWritten t i k (flagged 0 i k t) t'
          × (is_deleted t.row_size_bytes (row_at i k t') ≡ false))
unfolding delete_row undelete_row
delete_row-RowWritten t i k original P S h =
    (flag_row-RowWritten t i k 1 P S h, flag_row-RowWritten t i k 0 P S h)
