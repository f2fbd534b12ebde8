-- ===== src/Storage/PageManager/Laws.antt =====
-- What a page of the file holds after a write and after the file has grown.
use akatsuki_db.Base.{
  ℕ, zero, suc, ◌+◌, ◌-◌, ◌*◌, ◌≤◌, ◌<◌, ◌≡◌, refl, ap, ◌∙◌, ◌≢◌, true, false, [], ◌∷◌, ◌++◌, Bytes,
  length, take, drop, replicate, read_at, write_at, pos, leb, ok, err, arith, read_at-write_at_len,
  read_at-write_at_before, read_at-write_at_after, length-write_at, length-append, length-replicate,
  length-read_at, ◌⊎◌, inl, inr, append-nil,
}
use native.Mathlib.Nat.{zero-add, suc-add}
use akatsuki_db.Storage.Page.{new_page, page_size}
use akatsuki_db.Storage.PageManager.{
  PageManager, out_of_range, stream_write, write_at_page, read_page, allocate_page,
}

-- The bytes of page `i` on disk.
unfoldable pub disk : ℕ → PageManager → Bytes
disk i m = read_at (i * page_size) page_size m.file

-- The file holds `total_pages` whole pages.
abbrev pub IsWhole : PageManager → Type 0
IsWhole m = length m.file ≡ m.total_pages * page_size

splice :
    (off : ℕ) (vs file : Bytes)
    → off + length vs ≤ length file
    → take off file ++ (vs ++ drop (off + length vs) file) ≡ write_at off vs file
unfolding write_at
splice zero [] file h = refl
splice zero (v ∷ vs) [] h = absurd (omega arith)
splice zero (v ∷ vs) (b ∷ file) h =
    rw zero-add (ap (◌∷◌ v) (rw zero-add at (splice zero vs file (omega arith))))
splice (suc off) vs [] h = absurd (omega arith)
splice (suc off) vs (b ∷ file) h = rw suc-add (ap (◌∷◌ b) (splice off vs file (omega arith)))

-- Inside the file a stream write is a memcpy.
stream_write-eq-write_at :
    (off : ℕ) (vs file : Bytes)
    → off + length vs ≤ length file
    → stream_write off vs file ≡ write_at off vs file
unfolding stream_write
stream_write-eq-write_at off vs file h =
    let e : off - length file ≡ 0 = omega arith in rw e (splice off vs file h)

apart :
    (i k : ℕ)
    → i ≢ k
    → (i * page_size + page_size ≤ k * page_size) ⊎ (k * page_size + page_size ≤ i * page_size)
apart i k h = omega arith

module _ (m : PageManager) (k : ℕ) (vs : Bytes) (whole : IsWhole m) (inside : k < m.total_pages)
    (size : length vs ≡ page_size) where
  abbrev after : PageManager
  after = record m { file = write_at_page (pos k) vs m.file }

  file-after : write_at_page (pos k) vs m.file ≡ write_at (k * page_size) vs m.file
  unfolding write_at_page
  file-after = stream_write-eq-write_at (k * page_size) vs m.file (omega arith)

  pub write_at_page-IsWhole : IsWhole after
  write_at_page-IsWhole = rw file-after (length-write_at (k * page_size) vs m.file ∙ whole)

  pub disk-write_self : disk k after ≡ vs
  unfolding disk
  disk-write_self =
      rw file-after (read_at-write_at_len (k * page_size) page_size vs m.file size (omega arith))

  pub disk-write_ne : (i : ℕ) → i ≢ k → disk i after ≡ disk i m
  unfolding disk
  disk-write_ne i ne = rw file-after (elim (apart i k ne) [
    | inl h ↦ read_at-write_at_before (i * page_size) page_size (k * page_size) vs m.file h
    | inr h ↦
        read_at-write_at_after (i * page_size) page_size (k * page_size) vs m.file (omega arith)
  ])

pub length-disk :
    (i : ℕ) (m : PageManager) → IsWhole m → i < m.total_pages → length (disk i m) ≡ page_size
unfolding disk
length-disk i m w h = length-read_at (i * page_size) page_size m.file (omega arith)

-- A page of the file reads as it lies on disk; any other id throws.
pub read_page-disk :
    (i : ℕ) (m : PageManager)
    → IsWhole m
    → i < m.total_pages
    → read_page (pos i) m ≡ ok (new_page (pos i) (disk i m))
unfolding read_page
read_page-disk i m w h =
    let e = length-disk i m w h in
    let t : leb m.total_pages i ≡ false = ground arith in
    let g : length (read_at (i * page_size) page_size m.file) ≡ page_size = unfold disk in e in
    rw (t, g, append-nil) (unfold disk in refl)

pub read_page-out_of_range :
    (i : ℕ) (m : PageManager) → m.total_pages ≤ i → read_page (pos i) m ≡ err out_of_range
unfolding read_page
read_page-out_of_range i m h = let t : leb m.total_pages i ≡ true = ground arith in rw t

read_at-append :
    (o n : ℕ) (xs ys : Bytes) → o + n ≤ length xs → read_at o n (xs ++ ys) ≡ read_at o n xs
unfolding read_at
read_at-append zero zero xs ys h = refl
read_at-append zero (suc n) [] ys h = absurd (omega arith)
read_at-append zero (suc n) (x ∷ xs) ys h = ap (◌∷◌ x) (read_at-append zero n xs ys (omega arith))
read_at-append (suc o) zero [] ys h = absurd (omega arith)
read_at-append (suc o) (suc n) [] ys h = absurd (omega arith)
read_at-append (suc o) n (x ∷ xs) ys h = read_at-append o n xs ys (omega arith)

-- Growing the file leaves its pages alone.
pub disk-allocate_page :
    (i : ℕ) (m : PageManager)
    → IsWhole m
    → i < m.total_pages
    → disk i (allocate_page m).1 ≡ disk i m
unfolding disk allocate_page
disk-allocate_page i m w h =
    read_at-append (i * page_size) page_size m.file (replicate page_size 0) (omega arith)

read_at-append_length : (n : ℕ) (xs ys : Bytes) → read_at (length xs) n (xs ++ ys) ≡ take n ys
unfolding read_at
read_at-append_length n [] ys = refl
read_at-append_length n (x ∷ xs) ys = read_at-append_length n xs ys

read_at-append_right :
    (o n : ℕ) (xs ys : Bytes) → length xs ≡ o → read_at o n (xs ++ ys) ≡ take n ys
read_at-append_right o n xs ys e = rw (← e) (read_at-append_length n xs ys)

take-replicate : (n : ℕ) (a : ℕ) → take n (replicate n a) ≡ replicate n a
take-replicate zero a = refl
take-replicate (suc n) a = ap (◌∷◌ a) (take-replicate n a)

-- The new page is zeros.
pub disk-allocate_page_new :
    (m : PageManager) → IsWhole m → disk m.total_pages (allocate_page m).1 ≡ replicate page_size 0
unfolding disk allocate_page
disk-allocate_page_new m w =
    read_at-append_right (m.total_pages * page_size) page_size m.file (replicate page_size 0) w
    ∙ take-replicate page_size 0

pub allocate_page-IsWhole : (m : PageManager) → IsWhole m → IsWhole (allocate_page m).1
unfolding allocate_page
allocate_page-IsWhole m w =
    omega (
      arith,
      length-append m.file (replicate page_size 0),
      length-replicate {0} {A = ℕ} page_size 0,
    )
