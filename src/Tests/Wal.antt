-- ===== src/Tests/Wal.antt =====
-- The log, the transactions and recovery, on a log of one or two records.
use akatsuki_db.Base.{
  ℕ, ◌+◌, ◌≡◌, refl, true, some, List, [], ◌∷◌, ◌++◌, Bytes, pos, length-append, map, take, arith,
  if◌then◌else◌, ok,
}
use mathlib.Core.List.{reverse}
use akatsuki_db.Wal.Record.{insert, update, WalRecord, header_bytes, length-header_bytes, IsName}
use akatsuki_db.Wal.Manager.{
  WalManager, read_all, open_wal, make_record, record_bytes, write, log_begin, log_insert,
}
use akatsuki_db.Wal.Manager.RoundTrip.{
  FitsRecord, IsTorn, log_bytes, read_all-log, read_all-after_torn,
}
use akatsuki_db.Wal.Manager.Numbering.{
  IsLog, IsRecordOf, Arguments, make_record-FitsRecord, write-IsLog, open_wal-next_lsn,
}
use akatsuki_db.Wal.Recovery.{Tables, is_committed, undo_all, recover}
use akatsuki_db.Wal.Recovery.Undone.{of_txn, changes_of, recover-undone}
use akatsuki_db.Wal.Transactions.{
  TransactionManager, new_manager, begin_txn, started, record_insert, record_update, push_change,
  entry, assign,
}
use akatsuki_db.Wal.Transactions.Mirror.{HasRoom, logged, remembered, changes_in_memory}
use akatsuki_db.Wal.Transactions.Steps.{
  Step, empty_wal, begins, inserts, updates, here, next, Reach-read_all,
}

abbrev table : Bytes
table = b't' ∷ []

insert_1 : Arguments 1 (pos 1) (pos 0) []
insert_1 = record {
  txn_id = omega arith;
  page_id = (omega arith, omega arith);
  slot_index = (omega arith, omega arith);
  row_size = omega arith;
}

update_1 : Arguments 1 (pos 1) (pos 0) (7 ∷ [])
update_1 = record {
  txn_id = omega arith;
  page_id = (omega arith, omega arith);
  slot_index = (omega arith, omega arith);
  row_size = omega arith;
}

-- The records of an insert by transaction 1, with the numbers 1 and 2.
abbrev first : WalRecord
first = make_record insert 1 table (pos 1) (pos 0) [] 1

abbrev second : WalRecord
second = make_record insert 1 table (pos 1) (pos 0) [] 2

first-FitsRecord : FitsRecord first
first-FitsRecord = make_record-FitsRecord insert 1 table (pos 1) (pos 0) [] 1 insert_1 (omega arith)

second-FitsRecord : FitsRecord second
second-FitsRecord =
    make_record-FitsRecord insert 1 table (pos 1) (pos 0) [] 2 insert_1 (omega arith)

second-IsTorn : IsTorn (take 7 (record_bytes second))
second-IsTorn = record {
  torn = second;
  fits = second-FitsRecord;
  kept = 7;
  short = omega (
    arith,
    length-append (header_bytes second.header) second.row_data,
    length-header_bytes second.header second-FitsRecord.header,
  );
  cut = refl;
}

read_all-log_example :
    read_all (log_bytes (first ∷ []) ++ take 7 (record_bytes second)) ≡ some (first ∷ [])
read_all-log_example =
    read_all-log (first ∷ []) (take 7 (record_bytes second)) (first-FitsRecord, tt) second-IsTorn

read_all-after_torn_example :
    read_all (log_bytes (first ∷ []) ++ (take 3 (record_bytes second) ++ log_bytes (second ∷ [])))
    ≡ some (first ∷ [])
read_all-after_torn_example =
    read_all-after_torn (first ∷ []) second 3 second [] (first-FitsRecord, tt) second-FitsRecord
      (omega arith) (omega arith) (second-FitsRecord, tt)

abbrev wal : WalManager
wal = record { file = log_bytes (first ∷ []); durable = []; next_lsn = 2 }

wal-IsLog : IsLog wal (first ∷ [])
unfolding make_record
wal-IsLog = record {
  file = refl;
  fit = (first-FitsRecord, tt);
  numbered = (refl, tt);
  next = refl;
  room = omega arith;
}

write-IsLog_example :
    let (lsn, w') = write update 1 table (pos 1) (pos 0) (7 ∷ []) wal in
    (lsn ≡ 2)
    × ((r : WalRecord) × IsRecordOf update 1 table (pos 1) (pos 0) (7 ∷ []) lsn r
        × IsLog w' (first ∷ r ∷ [])
        × (read_all w'.file ≡ some (first ∷ r ∷ [])))
write-IsLog_example =
    write-IsLog update 1 table (pos 1) (pos 0) (7 ∷ []) wal (first ∷ []) wal-IsLog update_1
      (omega arith)

open_wal-next_lsn_example :
    open_wal (wal.file ++ take 7 (record_bytes second))
    ≡ some (record {
      file = wal.file ++ take 7 (record_bytes second);
      durable = wal.file ++ take 7 (record_bytes second);
      next_lsn = 2;
    })
open_wal-next_lsn_example =
    open_wal-next_lsn wal (first ∷ []) (take 7 (record_bytes second)) wal-IsLog second-IsTorn

abbrev active : TransactionManager
active = started 1 (new_manager empty_wal)

begun : begin_txn (new_manager empty_wal) ≡ ok (1, active)
unfolding begin_txn new_manager
begun = refl

-- An insert, and an update of the row that it made.
abbrev inserted : TransactionManager
inserted = record_insert 1 table (pos 1) (pos 0) active

abbrev updated : TransactionManager
updated = record_update 1 table (pos 1) (pos 0) (7 ∷ []) inserted

table-IsName : IsName table
table-IsName = (omega arith, (omega arith, tt))

active-HasRoom : HasRoom active
unfolding new_manager started log_begin write
active-HasRoom = (omega arith, omega arith)

inserted-HasRoom : HasRoom inserted
unfolding new_manager started log_begin write record_insert push_change log_insert
inserted-HasRoom = (omega arith, omega arith)

insert-Step : Step active inserted
unfolding started
insert-Step = inserts {m = active} table (pos 1) (pos 0) active-HasRoom table-IsName insert_1

update-Step : Step inserted updated
unfolding started record_insert push_change
update-Step =
    updates {m = inserted} table (pos 1) (pos 0) (7 ∷ []) inserted-HasRoom table-IsName update_1

Reach-read_all_example :
    (rs : List WalRecord) × (read_all updated.wal.file ≡ some rs)
    × ((id : ℕ) → map logged (changes_of id rs) ≡ map remembered (changes_in_memory id updated))
unfolding new_manager
Reach-read_all_example =
    Reach-read_all
      (next (next (next here (begins (omega arith, omega arith) begun)) insert-Step) update-Step)

two_changes :
    map remembered (changes_in_memory 1 updated)
    ≡ record { type = 2; table_name = table; page_id = pos 1; slot_index = pos 0; before_data = [] }
      ∷ record {
        type = 3;
        table_name = table;
        page_id = pos 1;
        slot_index = pos 0;
        before_data = 7 ∷ [];
      }
      ∷ []
unfolding record_insert record_update push_change entry assign started
two_changes = refl

-- Tables that count the calls.
abbrev counting : Tables ℕ
counting = record {
  has_table = λ t s. true;
  delete_row = λ t p i s. ok (s + 1);
  update_row = λ t p i b s. ok (s + 1);
  undelete_row = λ t p i b s. ok (s + 1);
}

recover-undone_example :
    (rs : List WalRecord) × ((s : ℕ)
      → recover counting (λ gs. gs) (first ∷ second ∷ []) s ≡ undo_all counting rs s)
    × ((id : ℕ)
        → of_txn id rs ≡ (
            if is_committed id (first ∷ second ∷ [])
            then []
            else reverse (changes_of id (first ∷ second ∷ []))))
recover-undone_example =
    recover-undone counting (λ gs. gs) (first ∷ second ∷ [])
      (record { is_map = λ gs h. h; same_groups = λ gs id h. refl })
