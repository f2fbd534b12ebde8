-- ===== src/Storage/Page.antt =====
pub mod Header
-- `Page` (include/AkatsukiDB/Storage/Page.hpp, src/Storage/Page.cpp): 4096 bytes with a 16-byte
-- header, a dirty flag and the id kept beside the bytes. `short` and `int` are little-endian.
use akatsuki_db.Base.{
  ℕ, ◌+◌, ◌*◌, Bool, true, false, Bytes, read_at, write_at, le_bytes, of_le, ℤ, pos, bits_of,
  signed,
}

abbrev pub page_size : ℕ
page_size = 4096

abbrev pub page_header : ℕ
page_header = 16

pub record Page : Type 0 where
  pub bytes : Bytes
  pub is_dirty : Bool
  pub page_id : ℤ

-- `Page(pageId, data)`
abbrev pub new_page : ℤ → Bytes → Page
new_page id bytes = record { bytes = bytes; is_dirty = false; page_id = id }

unfoldable pub mark_dirty : Page → Page
mark_dirty p = record p { is_dirty = true }

unfoldable pub clear_dirty : Page → Page
clear_dirty p = record p { is_dirty = false }

-- `Read<short>` and `Read<int>`
unfoldable pub read_short : ℕ → Page → ℤ
read_short off p = signed 16 (of_le (read_at off 2 p.bytes))

unfoldable pub read_int : ℕ → Page → ℤ
read_int off p = signed 32 (of_le (read_at off 4 p.bytes))

-- `Write<short>` and `Write<int>`
unfoldable pub write_short : ℕ → ℤ → Page → Page
unfolding mark_dirty
write_short off v p =
    mark_dirty (record p { bytes = write_at off (le_bytes 2 (bits_of 16 v)) p.bytes })

unfoldable pub write_int : ℕ → ℤ → Page → Page
unfolding mark_dirty
write_int off v p =
    mark_dirty (record p { bytes = write_at off (le_bytes 4 (bits_of 32 v)) p.bytes })

unfoldable pub get_page_id : Page → ℤ
get_page_id p = p.page_id

unfoldable pub set_page_id : ℤ → Page → Page
unfolding write_int
set_page_id id p = record (write_int 10 id p) { page_id = id }

unfoldable pub get_slot_count : Page → ℤ
unfolding read_short
get_slot_count p = read_short 0 p

unfoldable pub set_slot_count : ℤ → Page → Page
unfolding write_short
set_slot_count n p = write_short 0 n p

unfoldable pub get_free_offset : Page → ℤ
unfolding read_int
get_free_offset p = read_int 2 p

unfoldable pub set_free_offset : ℤ → Page → Page
unfolding write_int
set_free_offset n p = write_int 2 n p

unfoldable pub get_next_page_id : Page → ℤ
unfolding read_int
get_next_page_id p = read_int 6 p

unfoldable pub set_next_page_id : ℤ → Page → Page
unfolding write_int
set_next_page_id id p = write_int 6 id p

-- `GetSlot(slotIndex, rowSize)` is a view of the bytes: what is read through it, and what writing
-- through it leaves. Writing through the view does not set the dirty flag.
abbrev pub slot_offset : ℕ → ℕ → ℕ
slot_offset index row_size = page_header + index * row_size

unfoldable pub get_slot : ℕ → ℕ → Page → Bytes
get_slot index row_size p = read_at (slot_offset index row_size) row_size p.bytes

unfoldable pub put_slot : ℕ → ℕ → Bytes → Page → Page
put_slot index row_size row p = record p {
  bytes = write_at (slot_offset index row_size) row p.bytes;
}
