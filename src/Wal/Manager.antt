-- ===== src/Wal/Manager.antt =====
-- `WalManager` (include/AkatsukiDB/WAL/WalManager.hpp, src/WAL/WalManager.cpp). `file` is what has
-- been written through the C stream; `durable` is the part of it that `Flush` has forced to disk.
pub mod RoundTrip
pub mod Numbering
use akatsuki_db.Base.{
  ℕ, zero, suc, ◌+◌, ◌%◌, ◌^◌, Bool, not, ◌&&◌, Option, none, some, List, [], ◌∷◌, ◌++◌, Bytes,
  length, take, drop, ℤ, negsuc, ltb, ◌==◌, if◌then◌else◌,
}
use mathlib.Core.Option
use akatsuki_db.Wal.Record.{
  WalType, begin, insert, update, delete, commit, rollback, type_code, WalHeader, WalRecord,
  wal_magic, header_size, header_bytes, header_of, name_field,
}

pub record WalManager : Type 0 where
  pub file : Bytes
  pub durable : Bytes
  pub next_lsn : ℕ

-- The loop of `ReadAll` from where the stream stands; each round reads 60 bytes at least. `none`
-- means that the fuel ran out.
unfoldable pub read_loop : ℕ → Bytes → Option (List WalRecord)
read_loop zero bs = none
read_loop (suc f) bs =
    let hdr = header_of bs in
    let rest = drop header_size bs in
    let size = hdr.row_data_size in
    let more = read_loop f (drop size rest) in
    if ltb (length bs) header_size
    then some []
    else if not (hdr.magic == wal_magic)
    then some []
    else if not (size == 0) && ltb (length rest) size
    then some []
    else Option.map (◌∷◌ (record { header = hdr; row_data = take size rest })) more

unfoldable pub read_all : Bytes → Option (List WalRecord)
unfolding read_loop
read_all file = read_loop (length file + 1) file

-- `existing.back().Header.Lsn + 1`, or 1 for an empty log
unfoldable pub lsn_after : List WalRecord → ℕ
lsn_after [] = 1
lsn_after (r ∷ []) = (r.header.lsn + 1) % 2 ^ 32
lsn_after (r ∷ r' ∷ rs) = lsn_after (r' ∷ rs)

-- The constructor, on a file that could be opened.
unfoldable pub open_wal : Bytes → Option WalManager
unfolding read_all lsn_after
open_wal file =
    Option.map (λ rs. record { file = file; durable = file; next_lsn = lsn_after rs })
      (read_all file)

unfoldable pub flush : WalManager → WalManager
flush w = record w { durable = w.file }

-- The record that `Write` makes.
unfoldable pub make_record : WalType → ℕ → Bytes → ℤ → ℤ → Bytes → ℕ → WalRecord
unfolding name_field
make_record type txn_id table page_id slot_index row lsn = record {
  header = record {
    magic = wal_magic;
    lsn = lsn;
    txn_id = txn_id;
    type = type_code type;
    pad = 0;
    page_id = page_id;
    slot_index = slot_index;
    row_data_size = length row % 2 ^ 32;
    table_name = name_field table;
  };
  row_data = row;
}

-- What a record adds to the file.
abbrev pub record_bytes : WalRecord → Bytes
record_bytes r = header_bytes r.header ++ r.row_data

-- `Write` appends at the end of the file and returns the log sequence number.
unfoldable pub write : WalType → ℕ → Bytes → ℤ → ℤ → Bytes → WalManager → ℕ × WalManager
unfolding make_record
write type txn_id table page_id slot_index row w =
    let r = make_record type txn_id table page_id slot_index row w.next_lsn in
    (w.next_lsn, record w { file = w.file ++ record_bytes r; next_lsn = (w.next_lsn + 1) % 2 ^ 32 })

abbrev minus_one : ℤ
minus_one = negsuc 0

unfoldable pub log_begin : ℕ → WalManager → ℕ × WalManager
unfolding write
log_begin txn_id w = write begin txn_id [] minus_one minus_one [] w

unfoldable pub log_insert : ℕ → Bytes → ℤ → ℤ → WalManager → ℕ × WalManager
unfolding write
log_insert txn_id table page_id slot_index w = write insert txn_id table page_id slot_index [] w

unfoldable pub log_update : ℕ → Bytes → ℤ → ℤ → Bytes → WalManager → ℕ × WalManager
unfolding write
log_update txn_id table page_id slot_index before w =
    write update txn_id table page_id slot_index before w

unfoldable pub log_delete : ℕ → Bytes → ℤ → ℤ → Bytes → WalManager → ℕ × WalManager
unfolding write
log_delete txn_id table page_id slot_index before w =
    write delete txn_id table page_id slot_index before w

unfoldable pub log_commit : ℕ → WalManager → ℕ × WalManager
unfolding write flush
log_commit txn_id w =
    let (lsn, w') = write commit txn_id [] minus_one minus_one [] w in (lsn, flush w')

unfoldable pub log_rollback : ℕ → WalManager → ℕ × WalManager
unfolding write flush
log_rollback txn_id w =
    let (lsn, w') = write rollback txn_id [] minus_one minus_one [] w in (lsn, flush w')
