-- ===== src/Storage/PageManager.antt =====
-- `PageManager` (include/AkatsukiDB/Storage/PageManager.hpp, src/Storage/PageManager.cpp): a file
-- read and written 4096 bytes at a time. The file is its bytes; the stream's error flags are left
-- out, so a seek to a negative position is taken to write nothing.
pub mod Laws
use akatsuki_db.Base.{
  ℕ, ◌+◌, ◌-◌, ◌*◌, ◌/◌, Bool, true, false, ◌∷◌, [], ◌++◌, Bytes, length, take, drop, replicate,
  read_at, ℤ, pos, negsuc, pos_part, signed, eqb_ℤ, leb, ltb, ◌%◌, ◌^◌, ◌==◌, if◌then◌else◌, Result,
  ok, err,
}
use akatsuki_db.Storage.Page.{Page, new_page, page_size, clear_dirty}

-- `std::out_of_range` of `ReadPage`, and the null pointer that a cache of capacity 0 runs into.
pub data StorageError : Type 0 where
  out_of_range null_pointer : StorageError

pub record PageManager : Type 0 where
  pub file : Bytes
  pub total_pages : ℕ

-- `seekp(off); write(vs)`: the file grows if needed, a gap is filled with zeros.
unfoldable pub stream_write : ℕ → Bytes → Bytes → Bytes
stream_write off vs file =
    take off file ++ (replicate (off - length file) 0 ++ (vs ++ drop (off + length vs) file))

-- 'A', 'K', 'T', 'S' and zeros
abbrev pub header_page : Bytes
header_page = 65 ∷ 75 ∷ 84 ∷ 83 ∷ replicate (page_size - 4) 0

unfoldable pub initialize_new_file : PageManager → PageManager
unfolding stream_write
initialize_new_file m = record { file = stream_write 0 header_page m.file; total_pages = 1 }

-- A number divided by `PAGE_SIZE`, toward 0.
unfoldable pub pages_in : ℤ → ℤ
pages_in (pos n) = pos (n / page_size)
pages_in (negsuc n) = if ltb (n + 1) page_size then pos 0 else negsuc ((n + 1) / page_size - 1)

-- `static_cast<int>(length) / PAGE_SIZE`: the cast keeps the low 32 bits, as a signed number.
unfoldable pub page_count : ℕ → ℤ
unfolding pages_in
page_count length = pages_in (signed 32 (length % 2 ^ 32))

-- The constructor: `file` is what lies on disk, empty if the file was just created. A negative page
-- count, which a file of 2 to 4 GiB is given, stands as 0: no page can be read.
unfoldable pub open_file : Bytes → PageManager
unfolding initialize_new_file page_count eqb_ℤ
open_file file =
    let count = page_count (length file) in
    let m : PageManager = record { file = file; total_pages = pos_part count } in
    if eqb_ℤ count (pos 0) then initialize_new_file m else m

unfoldable pub allocate_page : PageManager → ℕ × PageManager
allocate_page m = (
  m.total_pages,
  record { file = m.file ++ replicate page_size 0; total_pages = m.total_pages + 1 },
)

-- `data` is 4096 zeros before the read; a short read leaves its end as it was.
unfoldable pub read_page : ℤ → PageManager → Result StorageError Page
read_page (negsuc _) m = err out_of_range
read_page (pos id) m =
    if leb m.total_pages id
    then err out_of_range
    else let got = read_at (id * page_size) page_size m.file in
      ok (new_page (pos id) (got ++ replicate (page_size - length got) 0))

-- `seekp(pageId * PAGE_SIZE); write(vs)`
unfoldable pub write_at_page : ℤ → Bytes → Bytes → Bytes
unfolding stream_write
write_at_page (pos id) vs file = stream_write (id * page_size) vs file
write_at_page (negsuc _) vs file = file

-- The page with its dirty flag cleared, and the file with its bytes. A clean page is not written.
unfoldable pub write_page : Page → PageManager → Page × PageManager
unfolding write_at_page
write_page p m =
    if p.is_dirty
    then (clear_dirty p, record m { file = write_at_page p.page_id p.bytes m.file })
    else (p, m)
