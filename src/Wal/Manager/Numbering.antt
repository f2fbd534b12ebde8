-- ===== src/Wal/Manager/Numbering.antt =====
-- Log sequence numbers: consecutive from 1, across closing and opening the log.
use akatsuki_db.Base.{
  ℕ, suc, ◌+◌, ◌%◌, ◌^◌, ◌<◌, ◌≡◌, refl, sym, ap, ◌∙◌, some, List, [], ◌∷◌, ◌++◌, Bytes, length,
  take, ℤ, IsInt, arith, length-append, append_assoc, append-nil,
}
use akatsuki_db.Wal.Record.{
  WalType, begin, type_code, WalRecord, wal_magic, c_str, length-name_field, c_str-name_field,
}
use akatsuki_db.Wal.Manager.{
  WalManager, read_all, make_record, record_bytes, write, open_wal, lsn_after,
}
use akatsuki_db.Wal.Manager.RoundTrip.{
  FitsRecord, AllFit, log_bytes, read_all-whole, read_all-log, IsTorn,
}

abbrev pub AreNumbered : ℕ → List WalRecord → Type 0
AreNumbered n [] = Unit {0}
AreNumbered n (r ∷ rs) = (r.header.lsn ≡ n) × AreNumbered (suc n) rs

-- The manager's file holds the records `rs`, numbered from 1, and the next number follows.
pub record IsLog (w : WalManager) (rs : List WalRecord) : Type 0 where
  pub file : w.file ≡ log_bytes rs
  pub fit : AllFit rs
  pub numbered : AreNumbered 1 rs
  pub next : w.next_lsn ≡ length rs + 1
  pub room : length rs + 1 < 2 ^ 32

log_bytes-append : (rs ss : List WalRecord) → log_bytes (rs ++ ss) ≡ log_bytes rs ++ log_bytes ss
log_bytes-append [] ss = refl
log_bytes-append (r ∷ rs) ss =
    ap (λ bs. record_bytes r ++ bs) (log_bytes-append rs ss)
    ∙ sym (append_assoc (record_bytes r) (log_bytes rs) (log_bytes ss))

AllFit-append :
    (rs : List WalRecord) (r : WalRecord) → AllFit rs → FitsRecord r → AllFit (rs ++ r ∷ [])
AllFit-append [] r A F = (F, tt)
AllFit-append (s ∷ rs) r A F = (A.0, AllFit-append rs r A.1 F)

AreNumbered-append :
    (n : ℕ) (rs : List WalRecord) (r : WalRecord)
    → AreNumbered n rs
    → r.header.lsn ≡ length rs + n
    → AreNumbered n (rs ++ r ∷ [])
AreNumbered-append n [] r A e = (omega arith, tt)
AreNumbered-append n (s ∷ rs) r A e = (A.0, AreNumbered-append (suc n) rs r A.1 (omega arith))

type_code-lt : (type : WalType) → type_code type < 256
type_code-lt begin = omega arith
type_code-lt _ = omega arith

-- The arguments of a call of `Write` fit their C++ types.
pub record Arguments (txn : ℕ) (page slot : ℤ) (row : Bytes) : Type 0 where
  pub txn_id : txn < 2 ^ 32
  pub page_id : IsInt page
  pub slot_index : IsInt slot
  pub row_size : length row < 2 ^ 32

pub make_record-FitsRecord :
    (type : WalType) (txn_id : ℕ) (table : Bytes) (page_id slot_index : ℤ) (row : Bytes) (lsn : ℕ)
    → Arguments txn_id page_id slot_index row
    → lsn < 2 ^ 32
    → FitsRecord (make_record type txn_id table page_id slot_index row lsn)
unfolding make_record
make_record-FitsRecord type txn_id table page_id slot_index row lsn a l = record {
  header = record {
    magic = refl;
    lsn = l;
    txn_id = a.txn_id;
    type = type_code-lt type;
    pad = refl;
    page_id = a.page_id;
    slot_index = a.slot_index;
    row_data_size = omega arith;
    table_name = length-name_field table;
  };
  row_data = fits (a.row_size);
}
  where
    fits : {n : ℕ} → n < 2 ^ 32 → n ≡ n % 2 ^ 32
    fits h = omega arith

-- The record `r` says what a call of `Write` was given; it keeps 31 bytes of the table's name, up to
-- its first zero byte, and fills them up with zeros.
pub record IsRecordOf (kind : WalType) (txn : ℕ) (table : Bytes) (page slot : ℤ) (contents : Bytes)
    (number : ℕ) (r : WalRecord) : Type 0 where
  pub magic : r.header.magic ≡ wal_magic
  pub lsn : r.header.lsn ≡ number
  pub txn_id : r.header.txn_id ≡ txn
  pub type : r.header.type ≡ type_code kind
  pub page_id : r.header.page_id ≡ page
  pub slot_index : r.header.slot_index ≡ slot
  pub row_data_size : r.header.row_data_size ≡ length contents
  pub row_data : r.row_data ≡ contents
  pub table_name : c_str r.header.table_name ≡ take 31 (c_str table)
  pub name_size : length r.header.table_name ≡ 32

pub make_record-IsRecordOf :
    (type : WalType) (txn_id : ℕ) (table : Bytes) (page_id slot_index : ℤ) (row : Bytes) (lsn : ℕ)
    → Arguments txn_id page_id slot_index row
    → IsRecordOf type txn_id table page_id slot_index row lsn
        (make_record type txn_id table page_id slot_index row lsn)
unfolding make_record
make_record-IsRecordOf type txn_id table page_id slot_index row lsn a = record {
  magic = refl;
  lsn = refl;
  txn_id = refl;
  type = refl;
  page_id = refl;
  slot_index = refl;
  row_data_size = fits (a.row_size);
  row_data = refl;
  table_name = c_str-name_field table;
  name_size = length-name_field table;
}
  where
    fits : {n : ℕ} → n < 2 ^ 32 → n % 2 ^ 32 ≡ n
    fits h = omega arith

pub write-IsLog_made :
    (type : WalType) (txn_id : ℕ) (table : Bytes) (page_id slot_index : ℤ) (row : Bytes)
    (w : WalManager) (rs : List WalRecord)
    → IsLog w rs
    → Arguments txn_id page_id slot_index row
    → length rs + 2 < 2 ^ 32
    → let rs' = rs ++ make_record type txn_id table page_id slot_index row w.next_lsn ∷ [] in
      let (lsn, w') = write type txn_id table page_id slot_index row w in
      (lsn ≡ length rs + 1) × IsLog w' rs' × (read_all w'.file ≡ some rs')
unfolding write
write-IsLog_made type txn_id table page_id slot_index row w rs L a space =
    let r = make_record type txn_id table page_id slot_index row w.next_lsn in
    let rs' = rs ++ r ∷ [] in
    let F =
      make_record-FitsRecord type txn_id table page_id slot_index row w.next_lsn a
        (omega (arith, L.next)) in
    let fit = AllFit-append rs r L.fit F in
    let file : w.file ++ record_bytes r ≡ log_bytes rs' =
      ap (λ bs. bs ++ record_bytes r) L.file
      ∙ sym (
          log_bytes-append rs (r ∷ [])
          ∙ ap (λ bs. log_bytes rs ++ bs) (append-nil (record_bytes r))) in
    (
      L.next,
      record {
        file = file;
        fit = fit;
        numbered = AreNumbered-append 1 rs r L.numbered (lsn_r);
        next = omega (arith, L.next, length-append rs (r ∷ []));
        room = omega (arith, length-append rs (r ∷ []));
      },
      ap read_all file ∙ read_all-whole rs' fit,
    )
  where
    lsn_r :
        (make_record type txn_id table page_id slot_index row w.next_lsn).header.lsn ≡ length rs + 1
    lsn_r = unfold make_record in L.next

-- `Write` returns the next number, and leaves a log that holds the same records and, last, one with
-- that number and with the transaction, type, page, slot, row and table that were asked for (31 bytes
-- of the table's name, up to its first zero byte); `ReadAll` then reads exactly these.
pub write-IsLog :
    (type : WalType) (txn_id : ℕ) (table : Bytes) (page_id slot_index : ℤ) (row : Bytes)
    (w : WalManager) (rs : List WalRecord)
    → IsLog w rs
    → Arguments txn_id page_id slot_index row
    → length rs + 2 < 2 ^ 32
    → let (lsn, w') = write type txn_id table page_id slot_index row w in
      (lsn ≡ length rs + 1)
      × ((r : WalRecord) × IsRecordOf type txn_id table page_id slot_index row lsn r
          × IsLog w' (rs ++ r ∷ [])
          × (read_all w'.file ≡ some (rs ++ r ∷ [])))
write-IsLog type txn_id table page_id slot_index row w rs L a space =
    let (number, log, found) =
      write-IsLog_made type txn_id table page_id slot_index row w rs L a space in
    let r = make_record type txn_id table page_id slot_index row w.next_lsn in
    (
      number,
      (
        r,
        unfold write in
            make_record-IsRecordOf type txn_id table page_id slot_index row w.next_lsn a,
        log,
        found,
      ),
    )

lsn_after-numbered :
    (n : ℕ) (r : WalRecord) (rs : List WalRecord)
    → AreNumbered n (r ∷ rs)
    → n + length (r ∷ rs) < 2 ^ 32
    → lsn_after (r ∷ rs) ≡ n + length (r ∷ rs)
unfolding lsn_after
lsn_after-numbered n r [] A h = omega (arith, A.0)
lsn_after-numbered n r (s ∷ rs) A h =
    lsn_after-numbered (suc n) s rs A.1 (omega arith) ∙ shift n (length rs)
  where
    shift : (a b : ℕ) → suc a + suc b ≡ a + suc (suc b)
    shift a b = omega arith

lsn_after-log :
    (rs : List WalRecord) → AreNumbered 1 rs → length rs + 1 < 2 ^ 32 → lsn_after rs ≡ length rs + 1
lsn_after-log [] A h = unfold lsn_after in refl
lsn_after-log (r ∷ rs) A h = lsn_after-numbered 1 r rs A (omega arith) ∙ swap (length rs)
  where
    swap : (n : ℕ) → 1 + suc n ≡ suc n + 1
    swap n = omega arith

-- Opening the file again, whole or with a torn record at its end, finds the records and goes on
-- numbering where the log had stopped.
pub open_wal-next_lsn :
    (w : WalManager) (rs : List WalRecord) (tail : Bytes)
    → IsLog w rs
    → IsTorn tail
    → open_wal (w.file ++ tail)
      ≡ some (record { file = w.file ++ tail; durable = w.file ++ tail; next_lsn = w.next_lsn })
unfolding open_wal
open_wal-next_lsn w rs tail L T =
    let e : read_all (w.file ++ tail) ≡ some rs =
      ap (λ bs. read_all (bs ++ tail)) L.file ∙ read_all-log rs tail L.fit T in
    rw (e, lsn_after-log rs L.numbered L.room, L.next)
