-- ===== src/Table/Manager/Slots.antt =====
-- The rows of one page when `InsertRow` adds a row.
use akatsuki_db.Base.{
  ℕ, zero, suc, ◌+◌, ◌*◌, ◌^◌, ◌≤◌, ◌<◌, ◌≡◌, ap, ◌∙◌, Bytes, ℤ, pos, pos_part, inl, arith, length,
  take, le_bytes, bits_of, length-write_at, read_at-write_at_len, read_at-write_at_before,
  read_at-write_at_after, length-le_bytes, take_of_length-le,
}
use akatsuki_db.Storage.Page.{
  Page, page_size, mark_dirty, get_slot_count, set_slot_count, get_free_offset, set_free_offset,
  get_slot, put_slot, slot_offset, write_short, write_int, read_short,
}
use akatsuki_db.Storage.Page.Header.{short-int, read_short-write_short_self}
use akatsuki_db.Table.Manager.{add, append_row}

pub mul_step : (i j r : ℕ) → i < j → i * r + r ≤ j * r
mul_step i zero r h = absurd (omega arith)
mul_step zero (suc j) r h = omega arith
mul_step (suc i) (suc j) r h = omega (arith, mul_step i j r (omega arith))

module _ (r : ℕ) (p : Page) where
  get_slot-set_slot_count : (i : ℕ) (v : ℤ) → get_slot i r (set_slot_count v p) ≡ get_slot i r p
  unfolding get_slot set_slot_count write_short mark_dirty
  get_slot-set_slot_count i v =
      read_at-write_at_after (slot_offset i r) r 0 (le_bytes 2 (bits_of 16 v)) p.bytes
        (omega (arith, length-le_bytes 2 (bits_of 16 v)))

  get_slot-set_free_offset : (i : ℕ) (v : ℤ) → get_slot i r (set_free_offset v p) ≡ get_slot i r p
  unfolding get_slot set_free_offset write_int mark_dirty
  get_slot-set_free_offset i v =
      read_at-write_at_after (slot_offset i r) r 2 (le_bytes 4 (bits_of 32 v)) p.bytes
        (omega (arith, length-le_bytes 4 (bits_of 32 v)))

  module _ (j : ℕ) (row : Bytes) where
    get_slot-put_slot_self :
        length row ≡ r
        → slot_offset j r + r ≤ length p.bytes
        → get_slot j r (put_slot j r row p) ≡ row
    unfolding get_slot put_slot
    get_slot-put_slot_self e h = read_at-write_at_len (slot_offset j r) r row p.bytes e h

    get_slot-put_slot_before : (i : ℕ) → i < j → get_slot i r (put_slot j r row p) ≡ get_slot i r p
    unfolding get_slot put_slot
    get_slot-put_slot_before i h =
        read_at-write_at_before (slot_offset i r) r (slot_offset j r) row p.bytes
          (omega (arith, mul_step i j r h))

-- The row that is appended stands in the next slot, the rows before it are unchanged, and the count
-- of slots grows by one: for a whole page with room for a row of the given size, and a count that a
-- `short` holds.
pub append_row-slots :
    (r n : ℕ) (row : Bytes) (p : Page)
    → length p.bytes ≡ page_size
    → length row ≡ r
    → get_slot_count p ≡ pos n
    → n + 1 < 2 ^ 15
    → slot_offset n r + r ≤ page_size
    → (get_slot n r (append_row r row p) ≡ row)
      × ((i : ℕ) → i < n → get_slot i r (append_row r row p) ≡ get_slot i r p)
      × (get_slot_count (append_row r row p) ≡ pos (n + 1))
unfolding append_row get_slot get_slot_count set_slot_count set_free_offset mark_dirty put_slot
append_row-slots r n row p whole er en hn fits = (
  view n ∙ get_slot-put_slot_self r p n row er (omega arith),
  λ i h. view i ∙ get_slot-put_slot_before r p n row i h,
  counted,
)
  where
    place : put_slot (pos_part (get_slot_count p)) r (take r row) p ≡ put_slot n r row p
    place =
        ap (λ z. put_slot (pos_part z) r (take r row) p) en
        ∙ ap (λ w. put_slot n r w p) (take_of_length-le r row (omega arith))

    filled : Page
    filled = put_slot (pos_part (get_slot_count p)) r (take r row) p

    with_count : Page
    with_count = set_slot_count (add (get_slot_count p) 1) filled

    view : (i : ℕ) → get_slot i r (append_row r row p) ≡ get_slot i r (put_slot n r row p)
    view i =
        get_slot-set_free_offset r with_count i (add (get_free_offset with_count) r)
        ∙ get_slot-set_slot_count r filled i (add (get_slot_count p) 1)
        ∙ ap (get_slot i r) place

    length_filled : length filled.bytes ≡ page_size
    length_filled =
        length-write_at (slot_offset (pos_part (get_slot_count p)) r) (take r row) p.bytes ∙ whole

    counted : get_slot_count (append_row r row p) ≡ pos (n + 1)
    counted =
        short-int with_count (add (get_free_offset with_count) r) 0 2 (inl (omega arith))
        ∙ ap (λ z. read_short 0 (write_short 0 (add z 1) filled)) en
        ∙ read_short-write_short_self filled (pos (n + 1)) 0 (omega (arith, length_filled))
            (ground arith)
