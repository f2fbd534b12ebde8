-- ===== src/Wal/Transactions/Mirror.antt =====
-- The changes that the transaction manager keeps in memory are those that the log holds.
use akatsuki_db.Base.{
  ℕ, ◌+◌, ◌^◌, ◌≤◌, ◌<◌, ◌≡◌, refl, ap, ◌∙◌, Bool, true, false, not, ◌&&◌, none, some, List, [],
  ◌∷◌, ◌++◌, Bytes, map, ℤ, ◌==◌, if◌then◌else◌, arith, Bool-cases, inl, inr, append-nil,
}
use akatsuki_db.Wal.Record.{type_code, WalRecord, c_str}
use akatsuki_db.Wal.Manager.{write}
use akatsuki_db.Wal.Manager.Numbering.{IsLog}
use akatsuki_db.Wal.Recovery.{is_marker}
use akatsuki_db.Wal.Recovery.Undone.{changes_of}
use akatsuki_db.Wal.Transactions.{
  TransactionManager, TxnChange, started, end_txn, push_change, assign, entry,
}

-- What a change says, by a record of the log, its table's name read as a C string, and by an entry in
-- memory.
pub record Change : Type 0 where
  pub type : ℕ
  pub table_name : Bytes
  pub page_id : ℤ
  pub slot_index : ℤ
  pub before_data : Bytes

abbrev pub logged : WalRecord → Change
logged r = record {
  type = r.header.type;
  table_name = c_str r.header.table_name;
  page_id = r.header.page_id;
  slot_index = r.header.slot_index;
  before_data = r.row_data;
}

abbrev pub remembered : TxnChange → Change
remembered c = record {
  type = type_code c.type;
  table_name = c.table_name;
  page_id = c.page_id;
  slot_index = c.slot_index;
  before_data = c.before_data;
}

abbrev pub changes_in_memory : ℕ → TransactionManager → List TxnChange
changes_in_memory id m = elim (m.txns id) [ none ↦ [] | some e ↦ e.changes ]

-- The log of `m` holds the records `rs`, and their changes are those in memory.
pub record IsMirror (m : TransactionManager) (rs : List WalRecord) : Type 0 where
  pub log : IsLog m.wal rs
  pub active : m.active_txn_id < m.next_txn_id
  pub next : m.next_txn_id < 2 ^ 32
  pub fresh : (id : ℕ) → m.next_txn_id ≤ id → changes_of id rs ≡ []
  pub mirror : (id : ℕ) → map remembered (changes_in_memory id m) ≡ map logged (changes_of id rs)

changes_of-append :
    (id : ℕ) (rs ss : List WalRecord)
    → changes_of id (rs ++ ss) ≡ changes_of id rs ++ changes_of id ss
unfolding changes_of
changes_of-append id [] ss = refl
changes_of-append id (r ∷ rs) ss = elim (Bool-cases (not (is_marker r) && r.header.txn_id == id)) [
  | inl e ↦ rw e (ap (◌∷◌ r) (changes_of-append id rs ss))
  | inr e ↦ rw e (changes_of-append id rs ss)
]

-- A record that begins or ends a transaction is no change.
pub changes_of-marker :
    (id : ℕ) (rs : List WalRecord) (r : WalRecord)
    → is_marker r ≡ true
    → changes_of id (rs ++ r ∷ []) ≡ changes_of id rs
changes_of-marker id rs r h =
    changes_of-append id rs (r ∷ [])
    ∙ ap (λ l. changes_of id rs ++ l) (alone h)
    ∙ append-nil (changes_of id rs)
  where
    alone : is_marker r ≡ true → changes_of id (r ∷ []) ≡ []
    alone h = unfold changes_of in rw h

pub changes_of-change :
    (id : ℕ) (rs : List WalRecord) (r : WalRecord)
    → is_marker r ≡ false
    → changes_of id (rs ++ r ∷ [])
      ≡ (if r.header.txn_id == id then changes_of id rs ++ r ∷ [] else changes_of id rs)
changes_of-change id rs r h = changes_of-append id rs (r ∷ []) ∙ alone (r.header.txn_id == id) refl
  where
    alone :
        (b : Bool)
        → r.header.txn_id == id ≡ b
        → changes_of id rs ++ changes_of id (r ∷ [])
          ≡ (if b then changes_of id rs ++ r ∷ [] else changes_of id rs)
    alone true e = unfold changes_of in rw (h, e)
    alone false e = unfold changes_of in rw (h, e) (append-nil (changes_of id rs))

-- The log counters have room for one more.
abbrev pub HasRoom : TransactionManager → Type 0
HasRoom m = (m.wal.next_lsn + 1 < 2 ^ 32) × (m.next_txn_id + 1 < 2 ^ 32)

-- Recording a change, of any of the three kinds, to the transaction `id`.
abbrev pub recorded : ℕ → TxnChange → TransactionManager → TransactionManager
recorded id c m =
    push_change id c (record m {
      wal = (write c.type id c.table_name c.page_id c.slot_index c.before_data m.wal).1;
    })

pub memory-push_change :
    (id k : ℕ) (c : TxnChange) (m : TransactionManager)
    → changes_in_memory k (push_change id c m)
      ≡ (if id == k then changes_in_memory k m ++ c ∷ [] else changes_in_memory k m)
unfolding push_change assign entry
memory-push_change id k c m = ground (arith, ap m.txns {x = id} {y = k})

pub memory-started :
    (id k : ℕ) (m : TransactionManager)
    → changes_in_memory k (started id m) ≡ (if id == k then [] else changes_in_memory k m)
unfolding started assign
memory-started id k m = ground arith

pub memory-end_txn :
    (id k : ℕ) (m : TransactionManager) → changes_in_memory k (end_txn id m) ≡ changes_in_memory k m
unfolding end_txn assign
memory-end_txn id k m = ground (arith, ap m.txns {x = id} {y = k})
