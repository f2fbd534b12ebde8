-- ===== src/Wal/Transactions.antt =====
-- `TransactionManager` (include/AkatsukiDB/WAL/TransactionManager.hpp) and the executor's use of it
-- (src/AQL/Executor/ExecuteTransactions.cpp, but for the undoing of rows in `ExecuteRollback`).
pub mod Mirror
pub mod Steps
use akatsuki_db.Base.{
  ℕ, ◌+◌, ◌%◌, ◌^◌, Bool, true, false, Option, none, some, List, [], ◌∷◌, ◌++◌, Bytes, ℤ, ◌==◌,
  if◌then◌else◌, Result, ok, err, ◌>>=◌,
}
use akatsuki_db.Wal.Record.{WalType, insert, update, delete}
use akatsuki_db.Wal.Manager.{WalManager, log_begin, log_insert, log_update, log_delete, log_commit}

pub record TxnChange : Type 0 where
  pub type : WalType
  pub table_name : Bytes
  pub page_id : ℤ
  pub slot_index : ℤ
  pub before_data : Bytes

pub record TxnEntry : Type 0 where
  pub txn_id : ℕ
  pub active : Bool
  pub changes : List TxnChange

-- `active_txn_id` is 0 where no transaction is active.
pub record TransactionManager : Type 0 where
  pub wal : WalManager
  pub next_txn_id : ℕ
  pub active_txn_id : ℕ
  pub txns : ℕ → Option TxnEntry

pub data TxnError : Type 0 where
  nested_transaction no_active_transaction : TxnError

unfoldable pub new_manager : WalManager → TransactionManager
new_manager wal = record { wal = wal; next_txn_id = 1; active_txn_id = 0; txns = λ _. none }

unfoldable pub assign : ℕ → TxnEntry → (ℕ → Option TxnEntry) → ℕ → Option TxnEntry
assign id e txns k = if id == k then some e else txns k

-- `_txns[txnId]`: a missing entry is made with its default values.
unfoldable pub entry : ℕ → (ℕ → Option TxnEntry) → TxnEntry
entry id txns = elim (txns id) [
  | some e ↦ e
  | none ↦ record { txn_id = 0; active = true; changes = [] }
]

unfoldable pub started : ℕ → TransactionManager → TransactionManager
unfolding assign
started id m = record {
  wal = (log_begin id m.wal).1;
  next_txn_id = (id + 1) % 2 ^ 32;
  active_txn_id = id;
  txns = assign id (record { txn_id = id; active = true; changes = [] }) m.txns;
}

unfoldable pub begin_txn : TransactionManager → Result TxnError (ℕ × TransactionManager)
unfolding started
begin_txn m =
    if m.active_txn_id == 0
    then ok (m.next_txn_id, started m.next_txn_id m)
    else err nested_transaction

-- `End`
unfoldable pub end_txn : ℕ → TransactionManager → TransactionManager
unfolding assign
end_txn id m = record m {
  active_txn_id = 0;
  txns = elim (m.txns id) [
    | none ↦ m.txns
    | some e ↦ assign id (record e { active = false }) m.txns
  ];
}

unfoldable pub commit_txn : ℕ → TransactionManager → TransactionManager
unfolding end_txn
commit_txn id m = end_txn id (record m { wal = (log_commit id m.wal).1 })

-- `_txns[txnId].Changes.push_back(change)`
unfoldable pub push_change : ℕ → TxnChange → TransactionManager → TransactionManager
unfolding entry assign
push_change id c m =
    let e = entry id m.txns in
    record m { txns = assign id (record e { changes = e.changes ++ c ∷ [] }) m.txns }

unfoldable pub record_insert : ℕ → Bytes → ℤ → ℤ → TransactionManager → TransactionManager
unfolding push_change
record_insert id t p s m =
    push_change id
      (record { type = insert; table_name = t; page_id = p; slot_index = s; before_data = [] })
      (record m { wal = (log_insert id t p s m.wal).1 })

unfoldable pub record_update : ℕ → Bytes → ℤ → ℤ → Bytes → TransactionManager → TransactionManager
unfolding push_change
record_update id t p s before m =
    push_change id
      (record { type = update; table_name = t; page_id = p; slot_index = s; before_data = before })
      (record m { wal = (log_update id t p s before m.wal).1 })

unfoldable pub record_delete : ℕ → Bytes → ℤ → ℤ → Bytes → TransactionManager → TransactionManager
unfolding push_change
record_delete id t p s before m =
    push_change id
      (record { type = delete; table_name = t; page_id = p; slot_index = s; before_data = before })
      (record m { wal = (log_delete id t p s before m.wal).1 })

unfoldable pub current_txn_id : TransactionManager → ℕ
current_txn_id m = m.active_txn_id

-- `Executor::GetOrBeginTxn`
unfoldable pub get_or_begin_txn : TransactionManager → Result TxnError (ℕ × TransactionManager)
unfolding begin_txn current_txn_id
get_or_begin_txn m = if current_txn_id m == 0 then begin_txn m else ok (current_txn_id m, m)

-- `Executor::AutoCommit`
unfoldable pub auto_commit : ℕ → Bool → TransactionManager → TransactionManager
unfolding commit_txn
auto_commit id was_auto m = if was_auto then commit_txn id m else m

-- `Executor::ExecuteBegin` and `ExecuteCommit`, with the error that the result carries.
unfoldable pub execute_begin : TransactionManager → Result TxnError TransactionManager
unfolding begin_txn
execute_begin m = begin_txn m >>= λ (_, m'). ok m'

unfoldable pub execute_commit : TransactionManager → Result TxnError TransactionManager
unfolding commit_txn current_txn_id
execute_commit m =
    let id = current_txn_id m in if id == 0 then err no_active_transaction else ok (commit_txn id m)
