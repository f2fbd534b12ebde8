-- ===== src/Wal/Manager/RoundTrip.antt =====
-- A log reads back as the records that were written, up to a record that was cut short.
use akatsuki_db.Base.{
  ℕ, zero, suc, ◌+◌, ◌-◌, ◌≤◌, ◌<◌, ◌≡◌, ◌≢◌, refl, sym, ap, ◌∙◌, Bool, true, false, not, ◌&&◌,
  Option, some, List, [], ◌∷◌, ◌++◌, Bytes, length, take, drop, ltb, ◌==◌, ==_iff, if◌then◌else◌,
  arith, length-append, length-take, take-length, drop-length, Bool-cases, inl, inr, ltb→lt, lt→ltb,
  ltb_false→le, append_assoc, append-nil,
}
use mathlib.Core.Option
use akatsuki_db.Wal.Record.{
  WalRecord, wal_magic, header_size, header_bytes, header_of, Fits, length-header_bytes,
  header_of-header_bytes,
}
use akatsuki_db.Wal.Manager.{read_loop, read_all, record_bytes}

pub record FitsRecord (r : WalRecord) : Type 0 where
  pub header : Fits r.header
  pub row_data : length r.row_data ≡ r.header.row_data_size

abbrev pub AllFit : List WalRecord → Type 0
AllFit [] = Unit {0}
AllFit (r ∷ rs) = FitsRecord r × AllFit rs

-- The file that holds the records.
abbrev pub log_bytes : List WalRecord → Bytes
log_bytes [] = []
log_bytes (r ∷ rs) = record_bytes r ++ log_bytes rs

drop-by : (n : ℕ) (xs ys : Bytes) → length xs ≡ n → drop n (xs ++ ys) ≡ ys
drop-by n xs ys e = rw (← e) (drop-length xs ys)

take-by : (n : ℕ) (xs ys : Bytes) → length xs ≡ n → take n (xs ++ ys) ≡ xs
take-by n xs ys e = rw (← e) (take-length xs ys)

module _ (f : ℕ) (r : WalRecord) (rest : Bytes) (F : FitsRecord r) where
  abbrev whole : Bytes
  whole = header_bytes r.header ++ (r.row_data ++ rest)

  whole_header : header_of whole ≡ r.header
  whole_header = header_of-header_bytes r.header (r.row_data ++ rest) F.header

  whole_rest : drop header_size whole ≡ r.row_data ++ rest
  whole_rest = drop-by header_size (header_bytes r.header) _ (length-header_bytes r.header F.header)

  long_enough : ltb (length whole) header_size ≡ false
  long_enough = not_lt (
      omega (
        arith,
        length-append (header_bytes r.header) (r.row_data ++ rest),
        length-header_bytes r.header F.header,
      ))
    where
      not_lt : {a b : ℕ} → b ≤ a → ltb a b ≡ false
      not_lt h = ground arith

  data_long_enough : ltb (length (r.row_data ++ rest)) r.header.row_data_size ≡ false
  data_long_enough = not_lt (omega (arith, length-append r.row_data rest, F.row_data))
    where
      not_lt : {a b : ℕ} → b ≤ a → ltb a b ≡ false
      not_lt h = ground arith

  and_false : (b : Bool) → (b && false) ≡ false
  and_false b = ground arith

  -- One round of the loop over a whole record.
  read_loop-record : read_loop (suc f) whole ≡ Option.map (◌∷◌ r) (read_loop f rest)
  unfolding read_loop
  read_loop-record = rw (
    long_enough,
    whole_header,
    whole_rest,
    (==_iff r.header.magic wal_magic).1 F.header.magic,
    data_long_enough,
    and_false (not (r.header.row_data_size == 0)),
    take-by r.header.row_data_size r.row_data rest F.row_data,
    drop-by r.header.row_data_size r.row_data rest F.row_data,
  )

-- A record cut short: what a crash leaves of one whose write was not finished.
pub record IsTorn (tail : Bytes) : Type 0 where
  pub torn : WalRecord
  pub fits : FitsRecord torn
  pub kept : ℕ
  pub short : kept < length (record_bytes torn)
  pub cut : tail ≡ take kept (record_bytes torn)

take-append :
    (k : ℕ) (xs ys : Bytes) → length xs ≤ k → take k (xs ++ ys) ≡ xs ++ take (k - length xs) ys
take-append k [] ys h = ap (λ n. take n ys) (omega arith)
take-append zero (x ∷ xs) ys h = absurd (omega arith)
take-append (suc k) (x ∷ xs) ys h =
    ap (◌∷◌ x) (take-append k xs ys (omega arith) ∙ ap (λ n. xs ++ take n ys) (omega arith))

short_header : (f : ℕ) (bs : Bytes) → length bs < header_size → read_loop (suc f) bs ≡ some []
unfolding read_loop
short_header f bs h = rw (lt→ltb (length bs) header_size h)

module _ (f : ℕ) (r : WalRecord) (part : Bytes) (F : FitsRecord r)
    (short : length part < length r.row_data) where
  abbrev cut_off : Bytes
  cut_off = header_bytes r.header ++ part

  nonempty : (r.header.row_data_size == 0) ≡ false
  nonempty = ne (omega (arith, F.row_data))
    where
      ne : {n : ℕ} → 0 < n → (n == 0) ≡ false
      ne h = ground arith

  short_data : read_loop (suc f) cut_off ≡ some []
  unfolding read_loop
  short_data =
      rw
        (
          header_of-header_bytes r.header part F.header,
          (==_iff r.header.magic wal_magic).1 F.header.magic,
          drop-by header_size (header_bytes r.header) part (length-header_bytes r.header F.header),
          lt→ltb (length part) r.header.row_data_size (omega (arith, F.row_data)),
          nonempty,
        )
        (either (ltb (length cut_off) header_size))
    where
      either :
          (b : Bool) → ◌≡◌ {A = Option (List WalRecord)} (if b then some [] else some []) (some [])
      either true = refl
      either false = refl

read_loop-torn : (f : ℕ) (tail : Bytes) → IsTorn tail → read_loop (suc f) tail ≡ some []
read_loop-torn f tail T = elim (Bool-cases (ltb T.kept header_size)) [
  | inl h ↦
      short_header f tail
        (rw T.cut (omega (arith, ltb→lt _ _ h, length-take T.kept (record_bytes T.torn))))
  | inr h ↦
      let l = length-header_bytes T.torn.header T.fits.header in
      let le = ltb_false→le _ _ h in
      let k = T.kept - length (header_bytes T.torn.header) in
      let e : tail ≡ header_bytes T.torn.header ++ take k T.torn.row_data =
        T.cut ∙ take-append T.kept (header_bytes T.torn.header) T.torn.row_data (omega arith) in
      rw e (
        short_data f T.torn (take k T.torn.row_data) T.fits (
          omega (
            arith,
            T.short,
            length-take k T.torn.row_data,
            length-append (header_bytes T.torn.header) T.torn.row_data,
          )))
]

length-record_pos : (r : WalRecord) → FitsRecord r → 0 < length (record_bytes r)
length-record_pos r F =
    omega (
      arith,
      length-append (header_bytes r.header) r.row_data,
      length-header_bytes r.header F.header,
    )

-- What follows the whole records, and ends the loop wherever it stands.
abbrev Stops : Bytes → Type 0
Stops tail = (f : ℕ) → read_loop (suc f) tail ≡ some []

read_loop-log :
    (f : ℕ) (rs : List WalRecord) (tail : Bytes)
    → AllFit rs
    → Stops tail
    → length (log_bytes rs ++ tail) < f
    → read_loop f (log_bytes rs ++ tail) ≡ some rs
read_loop-log zero rs tail A T h = absurd (omega arith)
read_loop-log (suc f) [] tail A T h = T f
read_loop-log (suc f) (r ∷ rs) tail A T h =
    let e : log_bytes (r ∷ rs) ++ tail
        ≡ header_bytes r.header ++ (r.row_data ++ (log_bytes rs ++ tail)) =
      simp append_assoc in
    let shorter : length (log_bytes rs ++ tail) < f = omega (
      arith,
      length-append (record_bytes r ++ log_bytes rs) tail,
      length-append (record_bytes r) (log_bytes rs),
      length-append (log_bytes rs) tail,
      length-record_pos r A.0,
    ) in
    rw e (
      read_loop-record f r (log_bytes rs ++ tail) A.0
      ∙ ap (Option.map (◌∷◌ r)) (read_loop-log f rs tail A.1 T shorter))

-- `ReadAll` of a file that holds whole records, and behind them a part of one more, is exactly the
-- whole records: a record that a crash cut short is left out, and nothing before it is lost. The
-- fuel of the loop is enough.
pub read_all-log :
    (rs : List WalRecord) (tail : Bytes)
    → AllFit rs
    → IsTorn tail
    → read_all (log_bytes rs ++ tail) ≡ some rs
unfolding read_all
read_all-log rs tail A T = read_loop-log _ rs tail A (λ f. read_loop-torn f tail T) (omega arith)

-- A file that ends in no part of a record.
pub read_all-whole : (rs : List WalRecord) → AllFit rs → read_all (log_bytes rs) ≡ some rs
unfolding read_all
read_all-whole rs A =
    ap (λ bs. read_loop (length bs + 1) bs) (sym (append-nil (log_bytes rs)))
    ∙ read_loop-log _ rs [] A (λ f. short_header f [] (omega arith)) (omega arith)

wrong_magic :
    (f : ℕ) (bs : Bytes) → (header_of bs).magic ≢ wal_magic → read_loop (suc f) bs ≡ some []
unfolding read_loop
wrong_magic f bs h = rw (test (header_of bs).magic h) (either (ltb (length bs) header_size))
  where
    test : (m : ℕ) → m ≢ wal_magic → (m == wal_magic) ≡ false
    test m h = ground arith

    either :
        (b : Bool) → ◌≡◌ {A = Option (List WalRecord)} (if b then some [] else some []) (some [])
    either true = refl
    either false = refl

-- One to three bytes of a record, and a whole record behind them: the magic does not show.
misaligned :
    (torn r : WalRecord) (k : ℕ) (rest : Bytes)
    → FitsRecord torn
    → FitsRecord r
    → 0 < k
    → k < 4
    → (header_of (take k (record_bytes torn) ++ (record_bytes r ++ rest))).magic ≢ wal_magic
unfolding header_of header_bytes
misaligned torn r zero rest F G lo hi = absurd (omega arith)
misaligned torn r (suc zero) rest F G lo hi = omega (arith, F.header.magic, G.header.magic)
misaligned torn r (suc (suc zero)) rest F G lo hi = omega (arith, F.header.magic, G.header.magic)
misaligned torn r (suc (suc (suc zero))) rest F G lo hi =
    omega (arith, F.header.magic, G.header.magic)
misaligned torn r (suc (suc (suc (suc k)))) rest F G lo hi = absurd (omega arith)

-- The torn bytes stay in the file, since opening does not cut them off and writing appends. After
-- one to three of them, whatever whole records are appended later, `ReadAll` finds none of those.
pub read_all-after_torn :
    (rs : List WalRecord) (torn : WalRecord) (k : ℕ) (r : WalRecord) (more : List WalRecord)
    → AllFit rs
    → FitsRecord torn
    → 0 < k
    → k < 4
    → AllFit (r ∷ more)
    → read_all (log_bytes rs ++ (take k (record_bytes torn) ++ log_bytes (r ∷ more))) ≡ some rs
unfolding read_all
read_all-after_torn rs torn k r more A F lo hi B =
    read_loop-log _ rs _ A (λ f. wrong_magic f _ (misaligned torn r k (log_bytes more) F B.0 lo hi))
      (omega arith)
