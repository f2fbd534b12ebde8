-- ===== src/Wal/Transactions/Steps.antt =====
-- Each operation of the transaction manager keeps the log and the memory alike, so every
-- reachable state has them alike.
use akatsuki_db.Base.{
  ℕ, ◌+◌, ◌^◌, ◌≤◌, ◌<◌, ◌≡◌, refl, sym, ap, ◌∙◌, Bool, true, false, some, List, [], ◌∷◌, ◌++◌,
  Bytes, map, length, ℤ, negsuc, ◌==◌, ==_iff, if◌then◌else◌, ok, arith,
}
use mathlib.Core.List.{map-append}
use mathlib.Core.Path.{subst}
use akatsuki_db.Wal.Record.{
  WalType, begin, insert, update, delete, commit, WalRecord, type_code, IsName,
  c_str-name_field_whole,
}
use akatsuki_db.Wal.Manager.{
  WalManager, read_all, make_record, log_begin, log_insert, log_update, log_delete, log_commit,
  flush,
}
use akatsuki_db.Wal.Manager.RoundTrip.{read_all-whole}
use akatsuki_db.Wal.Manager.Numbering.{Arguments, write-IsLog_made}
use akatsuki_db.Wal.Recovery.{is_marker}
use akatsuki_db.Wal.Recovery.Undone.{changes_of}
use akatsuki_db.Wal.Transactions.{
  TransactionManager, TxnChange, new_manager, begin_txn, started, end_txn, commit_txn, push_change,
  record_insert, record_update, record_delete,
}
use akatsuki_db.Wal.Transactions.Mirror.{
  IsMirror, HasRoom, changes_in_memory, remembered, logged, recorded, changes_of-marker,
  changes_of-change, memory-push_change, memory-started, memory-end_txn,
}

abbrev is_change : WalType → Bool
is_change insert = true
is_change update = true
is_change delete = true
is_change _ = false

module _ (m : TransactionManager) (rs : List WalRecord) (M : IsMirror m rs) (room : HasRoom m) where
  space : length rs + 2 < 2 ^ 32
  space = omega (arith, M.log.next, room.0)

  module _ (id : ℕ) (c : TxnChange) (known : id < m.next_txn_id) (kind : is_change c.type ≡ true)
      (name : IsName c.table_name) (a : Arguments id c.page_id c.slot_index c.before_data) where
    abbrev new_record : WalRecord
    new_record =
        make_record c.type id c.table_name c.page_id c.slot_index c.before_data m.wal.next_lsn

    not_marker :
        (t : WalType)
        → is_change t ≡ true
        → is_marker
            (make_record t id c.table_name c.page_id c.slot_index c.before_data m.wal.next_lsn)
          ≡ false
    unfolding make_record
    not_marker insert h = refl
    not_marker update h = refl
    not_marker delete h = refl
    not_marker _ h = absurd (ground arith)

    new_changes :
        (k : ℕ)
        → changes_of k (rs ++ new_record ∷ [])
          ≡ (if id == k then changes_of k rs ++ new_record ∷ [] else changes_of k rs)
    new_changes k = unfold make_record in changes_of-change k rs new_record (not_marker c.type kind)

    same_change : remembered c ≡ logged new_record
    unfolding make_record
    same_change = λ i. record {
      type = type_code c.type;
      table_name = sym (c_str-name_field_whole c.table_name name) i;
      page_id = c.page_id;
      slot_index = c.slot_index;
      before_data = c.before_data;
    }

    new_mirror :
        (k : ℕ)
        → map remembered (changes_in_memory k (recorded id c m))
          ≡ map logged (changes_of k (rs ++ new_record ∷ []))
    new_mirror k =
        ap (map remembered) (memory-push_change id k c _)
        ∙ both (id == k)
        ∙ ap (map logged) (sym (new_changes k))
      where
        both :
            (b : Bool)
            → map remembered (if b then changes_in_memory k m ++ c ∷ [] else changes_in_memory k m)
              ≡ map logged (if b then changes_of k rs ++ new_record ∷ [] else changes_of k rs)
        both true =
            map-append remembered (changes_in_memory k m) (c ∷ [])
            ∙ ap (λ l. l ++ remembered c ∷ []) (M.mirror k)
            ∙ ap (λ x. map logged (changes_of k rs) ++ x ∷ []) same_change
            ∙ sym (map-append logged (changes_of k rs) (new_record ∷ []))
        both false = M.mirror k

    recorded-IsMirror : IsMirror (recorded id c m) (rs ++ new_record ∷ [])
    unfolding push_change
    recorded-IsMirror =
        let (lsn, L, e) =
          write-IsLog_made c.type id c.table_name c.page_id c.slot_index c.before_data m.wal rs
            M.log a space in
        record {
          log = L;
          active = M.active;
          next = M.next;
          fresh = λ k h. new_changes k ∙ rw (differs k h) (M.fresh k h);
          mirror = new_mirror;
        }
      where
        differs : (k : ℕ) → m.next_txn_id ≤ k → (id == k) ≡ false
        differs k h = ground arith

  marked : WalType → ℕ → WalRecord
  marked t id = make_record t id [] (negsuc 0) (negsuc 0) [] m.wal.next_lsn

  minus_one-Arguments : (id : ℕ) → id < 2 ^ 32 → Arguments id (negsuc 0) (negsuc 0) []
  minus_one-Arguments id h = omega arith

  begin-marker : is_marker (marked begin m.next_txn_id) ≡ true
  unfolding make_record marked
  begin-marker = refl

  started-IsMirror : IsMirror (started m.next_txn_id m) (rs ++ marked begin m.next_txn_id ∷ [])
  unfolding started log_begin marked
  started-IsMirror =
      let id = m.next_txn_id in
      let (lsn, L, e) =
        write-IsLog_made begin id [] (negsuc 0) (negsuc 0) [] m.wal rs M.log
          (minus_one-Arguments id M.next) space in
      record {
        log = L;
        active = omega arith;
        next = omega arith;
        fresh = λ k h. changes_of-marker k rs _ begin-marker ∙ M.fresh k (omega arith);
        mirror = λ k.
            ap (map remembered) (memory-started id k m)
            ∙ memory k (id == k) refl
            ∙ ap (map logged) (sym (changes_of-marker k rs _ begin-marker));
      }
    where
      memory :
          (k : ℕ) (b : Bool)
          → (m.next_txn_id == k) ≡ b
          → map remembered (if b then [] else changes_in_memory k m) ≡ map logged (changes_of k rs)
      memory k true e = ap (map logged) (sym (M.fresh k (reach ((==_iff m.next_txn_id k).0 e))))
        where
          reach : m.next_txn_id ≡ k → m.next_txn_id ≤ k
          reach h = omega arith
      memory k false e = M.mirror k

  commit-marker : (id : ℕ) → is_marker (marked commit id) ≡ true
  unfolding make_record marked
  commit-marker id = refl

  committed-IsMirror :
      (id : ℕ) → id < m.next_txn_id → IsMirror (commit_txn id m) (rs ++ marked commit id ∷ [])
  unfolding commit_txn end_txn log_commit flush marked
  committed-IsMirror id h =
      let (lsn, L, e) =
        write-IsLog_made commit id [] (negsuc 0) (negsuc 0) [] m.wal rs M.log
          (minus_one-Arguments id (omega (arith, M.next))) space in
      record {
        log = record {
          file = L.file;
          fit = L.fit;
          numbered = L.numbered;
          next = L.next;
          room = L.room;
        };
        active = omega arith;
        next = M.next;
        fresh = λ k l. changes_of-marker k rs _ (commit-marker id) ∙ M.fresh k l;
        mirror = λ k.
            ap (map remembered) (memory-end_txn id k (record m { wal = (log_commit id m.wal).1 }))
            ∙ M.mirror k
            ∙ ap (map logged) (sym (changes_of-marker k rs _ (commit-marker id)));
      }

-- The calls that the executor makes, each while the counters have room. Changes are recorded for,
-- and a commit ends, the active transaction; the tables' names have at most 31 bytes, none of them
-- zero, so that a record of the log holds them whole.
pub data Step : TransactionManager → TransactionManager → Type 0 where
  begins : {m m' : TransactionManager} {id : ℕ} → HasRoom m → begin_txn m ≡ ok (id, m') → Step m m'
  inserts :
      {m : TransactionManager} (t : Bytes) (p s : ℤ)
      → HasRoom m
      → IsName t
      → Arguments m.active_txn_id p s []
      → Step m (record_insert m.active_txn_id t p s m)
  updates :
      {m : TransactionManager} (t : Bytes) (p s : ℤ) (before : Bytes)
      → HasRoom m
      → IsName t
      → Arguments m.active_txn_id p s before
      → Step m (record_update m.active_txn_id t p s before m)
  deletes :
      {m : TransactionManager} (t : Bytes) (p s : ℤ) (before : Bytes)
      → HasRoom m
      → IsName t
      → Arguments m.active_txn_id p s before
      → Step m (record_delete m.active_txn_id t p s before m)
  commits : {m : TransactionManager} → HasRoom m → Step m (commit_txn m.active_txn_id m)

pub data Reach (m : TransactionManager) : TransactionManager → Type 0 where
  here : Reach m m
  next : {t u : TransactionManager} → Reach m t → Step t u → Reach m u

abbrev Mirrored : TransactionManager → Type 0
Mirrored m = (rs : List WalRecord) × IsMirror m rs

begin_txn-started :
    (m m' : TransactionManager) (id : ℕ) → begin_txn m ≡ ok (id, m') → m' ≡ started m.next_txn_id m
unfolding begin_txn
begin_txn-started m m' id h = ground arith

Step-Mirrored : {m m' : TransactionManager} → Step m m' → Mirrored m → Mirrored m'
unfolding record_insert record_update record_delete log_insert log_update log_delete
Step-Mirrored (begins {m} {m'} {id} room e) (rs, M) = (
  rs ++ marked m rs M room begin m.next_txn_id ∷ [],
  subst (λ x. IsMirror x (rs ++ marked m rs M room begin m.next_txn_id ∷ []))
      (sym (begin_txn-started m m' id e)) (started-IsMirror m rs M room),
)
Step-Mirrored (inserts {m} t p s room name a) (rs, M) =
    let c : TxnChange = record {
      type = insert;
      table_name = t;
      page_id = p;
      slot_index = s;
      before_data = [];
    } in
    (_, recorded-IsMirror m rs M room m.active_txn_id c M.active refl name a)
Step-Mirrored (updates {m} t p s before room name a) (rs, M) =
    let c : TxnChange = record {
      type = update;
      table_name = t;
      page_id = p;
      slot_index = s;
      before_data = before;
    } in
    (_, recorded-IsMirror m rs M room m.active_txn_id c M.active refl name a)
Step-Mirrored (deletes {m} t p s before room name a) (rs, M) =
    let c : TxnChange = record {
      type = delete;
      table_name = t;
      page_id = p;
      slot_index = s;
      before_data = before;
    } in
    (_, recorded-IsMirror m rs M room m.active_txn_id c M.active refl name a)
Step-Mirrored (commits {m} room) (rs, M) =
    (_, committed-IsMirror m rs M room m.active_txn_id M.active)

Reach-Mirrored : {m m' : TransactionManager} → Mirrored m → Reach m m' → Mirrored m'
Reach-Mirrored h here = h
Reach-Mirrored h (next r s) = Step-Mirrored s (Reach-Mirrored h r)

abbrev pub empty_wal : WalManager
empty_wal = record { file = []; durable = []; next_lsn = 1 }

new_manager-IsMirror : IsMirror (new_manager empty_wal) []
unfolding new_manager changes_of
new_manager-IsMirror = record {
  log = record { file = refl; fit = tt; numbered = tt; next = omega arith; room = omega arith };
  active = omega arith;
  next = omega arith;
  fresh = λ k h. refl;
  mirror = λ k. refl;
}

-- Whatever begins, changes and commits follow the start on an empty log, with names of tables that
-- have at most 31 bytes and no zero byte: `ReadAll` succeeds, and for every transaction the changes
-- that it finds are, in the same order, those that the manager keeps in memory for a rollback, with the
-- same type, table name, page, slot and row.
pub Reach-read_all :
    {m : TransactionManager}
    → Reach (new_manager empty_wal) m
    → (rs : List WalRecord) × (read_all m.wal.file ≡ some rs)
      × ((id : ℕ) → map logged (changes_of id rs) ≡ map remembered (changes_in_memory id m))
Reach-read_all {m} r =
    let (rs, M) = Reach-Mirrored ([], new_manager-IsMirror) r in
    (rs, ap read_all M.log.file ∙ read_all-whole rs M.log.fit, λ id. sym (M.mirror id))
