-- ===== src/Storage/Page/Header.antt =====
-- The header fields of a page do not overlap: each reads back what was last written to it.
use akatsuki_db.Base.{
  ℕ, ◌+◌, ◌≤◌, ◌≡◌, refl, ◌⊎◌, inl, inr, Bool, true, false, Bytes, length, read_at, le_bytes, ℤ,
  bits_of, IsShort, IsInt, arith, if◌then◌else◌, read_at-write_at_len, read_at-write_at_before,
  read_at-write_at_after, length-le_bytes, of_le-le_bytes2, of_le-le_bytes4, bits_of16-lt,
  bits_of32-lt, signed-bits_of16, signed-bits_of32, write_at,
}
use akatsuki_db.Storage.Page.{
  Page, page_size, read_short, read_int, write_short, write_int, get_page_id, set_page_id,
  get_slot_count, set_slot_count, get_free_offset, set_free_offset, get_next_page_id,
  set_next_page_id,
}

pub data Field : Type 0 where
  slot_count free_offset next_page_id page_id : Field

unfoldable pub get_field : Field → Page → ℤ
get_field slot_count p = get_slot_count p
get_field free_offset p = get_free_offset p
get_field next_page_id p = get_next_page_id p
get_field page_id p = get_page_id p

unfoldable pub set_field : Field → ℤ → Page → Page
set_field slot_count v p = set_slot_count v p
set_field free_offset v p = set_free_offset v p
set_field next_page_id v p = set_next_page_id v p
set_field page_id v p = set_page_id v p

abbrev same : Field → Field → Bool
same slot_count slot_count = true
same free_offset free_offset = true
same next_page_id next_page_id = true
same page_id page_id = true
same _ _ = false

-- What the C++ type of a field holds.
abbrev pub Holds : Field → ℤ → Type 0
Holds slot_count v = IsShort v
Holds _ v = IsInt v

module _ (p : Page) (v : ℤ) where
  pub read_short-write_short_self :
      (off : ℕ) → off + 2 ≤ length p.bytes → IsShort v → read_short off (write_short off v p) ≡ v
  unfolding read_short write_short
  read_short-write_short_self off h r =
      rw
        (
          read_at-write_at_len off 2 (le_bytes 2 (bits_of 16 v)) p.bytes
              (length-le_bytes 2 (bits_of 16 v)) h,
          of_le-le_bytes2 (bits_of 16 v) (bits_of16-lt v),
        )
        (signed-bits_of16 v r)

  pub read_int-write_int_self :
      (off : ℕ) → off + 4 ≤ length p.bytes → IsInt v → read_int off (write_int off v p) ≡ v
  unfolding read_int write_int
  read_int-write_int_self off h r =
      rw
        (
          read_at-write_at_len off 4 (le_bytes 4 (bits_of 32 v)) p.bytes
              (length-le_bytes 4 (bits_of 32 v)) h,
          of_le-le_bytes4 (bits_of 32 v) (bits_of32-lt v),
        )
        (signed-bits_of32 v r)

-- Reads of `n` bytes at `o` do not see a write of `k` bytes at `off` that lies apart.
abbrev pub Apart : ℕ → ℕ → ℕ → ℕ → Type 0
Apart o n off k = (o + n ≤ off) ⊎ (off + k ≤ o)

pub Apart-read :
    (o n off : ℕ) (vs buf : Bytes)
    → Apart o n off (length vs)
    → read_at o n (write_at off vs buf) ≡ read_at o n buf
Apart-read o n off vs buf (inl h) = read_at-write_at_before o n off vs buf h
Apart-read o n off vs buf (inr h) = read_at-write_at_after o n off vs buf h

module _ (p : Page) (v : ℤ) (o off : ℕ) where
  short-short : Apart o 2 off 2 → read_short o (write_short off v p) ≡ read_short o p
  unfolding read_short write_short
  short-short h =
      let e = length-le_bytes 2 (bits_of 16 v) in
      rw (Apart-read o 2 off (le_bytes 2 (bits_of 16 v)) p.bytes (rw e h))

  pub short-int : Apart o 2 off 4 → read_short o (write_int off v p) ≡ read_short o p
  unfolding read_short write_int
  short-int h =
      let e = length-le_bytes 4 (bits_of 32 v) in
      rw (Apart-read o 2 off (le_bytes 4 (bits_of 32 v)) p.bytes (rw e h))

  int-short : Apart o 4 off 2 → read_int o (write_short off v p) ≡ read_int o p
  unfolding read_int write_short
  int-short h =
      let e = length-le_bytes 2 (bits_of 16 v) in
      rw (Apart-read o 4 off (le_bytes 2 (bits_of 16 v)) p.bytes (rw e h))

  int-int : Apart o 4 off 4 → read_int o (write_int off v p) ≡ read_int o p
  unfolding read_int write_int
  int-int h =
      let e = length-le_bytes 4 (bits_of 32 v) in
      rw (Apart-read o 4 off (le_bytes 4 (bits_of 32 v)) p.bytes (rw e h))

-- Setting a header field of a whole page, to a value that the field's C++ type holds, makes that
-- field read back the value and leaves the three other fields as they were.
pub get_field-set_field :
    (p : Page) (f g : Field) (v : ℤ)
    → length p.bytes ≡ page_size
    → Holds f v
    → get_field g (set_field f v p) ≡ (if same f g then v else get_field g p)
unfolding get_field set_field get_slot_count set_slot_count get_free_offset set_free_offset
    get_next_page_id set_next_page_id get_page_id set_page_id
get_field-set_field p slot_count slot_count v e r =
    read_short-write_short_self p v 0 (omega arith) r
get_field-set_field p slot_count free_offset v e r = int-short p v 2 0 (omega arith)
get_field-set_field p slot_count next_page_id v e r = int-short p v 6 0 (omega arith)
get_field-set_field p slot_count page_id v e r = refl
get_field-set_field p free_offset slot_count v e r = short-int p v 0 2 (omega arith)
get_field-set_field p free_offset free_offset v e r = read_int-write_int_self p v 2 (omega arith) r
get_field-set_field p free_offset next_page_id v e r = int-int p v 6 2 (omega arith)
get_field-set_field p free_offset page_id v e r = refl
get_field-set_field p next_page_id slot_count v e r = short-int p v 0 6 (omega arith)
get_field-set_field p next_page_id free_offset v e r = int-int p v 2 6 (omega arith)
get_field-set_field p next_page_id next_page_id v e r =
    read_int-write_int_self p v 6 (omega arith) r
get_field-set_field p next_page_id page_id v e r = refl
get_field-set_field p page_id slot_count v e r = short-int p v 0 10 (omega arith)
get_field-set_field p page_id free_offset v e r = int-int p v 2 10 (omega arith)
get_field-set_field p page_id next_page_id v e r = int-int p v 6 10 (omega arith)
get_field-set_field p page_id page_id v e r = refl
