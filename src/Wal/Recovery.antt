-- ===== src/Wal/Recovery.antt =====
-- `AkatsukiEngine::Recover` (src/Engine/AkatsukiEngine.cpp): at startup the changes of every
-- transaction that has no Commit record in the log are undone. The tables are what the engine's
-- table managers offer; the order in which the hash map of transactions is walked is a parameter.
pub mod Undone
use akatsuki_db.Base.{
  ℕ, Bool, true, false, ◌&&◌, ◌||◌, List, [], ◌∷◌, ◌++◌, Bytes, ℤ, ◌==◌, if◌then◌else◌, Result, ok,
  err, ◌>>=◌,
}
use mathlib.Core.List.{reverse}
use akatsuki_db.Wal.Record.{
  WalType, begin, insert, update, delete, commit, rollback, type_code, WalHeader, WalRecord, c_str,
}
use akatsuki_db.Storage.PageManager.{StorageError}

abbrev pub is_type : WalType → WalRecord → Bool
is_type t r = r.header.type == type_code t

-- Whether `committed` holds the transaction, after the first loop.
unfoldable pub is_committed : ℕ → List WalRecord → Bool
is_committed id [] = false
is_committed id (r ∷ rs) = (is_type commit r && r.header.txn_id == id) || is_committed id rs

abbrev pub is_marker : WalRecord → Bool
is_marker r = is_type begin r || (is_type commit r || is_type rollback r)

abbrev pub Groups : Type 0
Groups = List (ℕ × List WalRecord)

-- `uncommitted[id].push_back(rec)`
unfoldable pub push_back : ℕ → WalRecord → Groups → Groups
push_back id r [] = (id, r ∷ []) ∷ []
push_back id r ((k, rs) ∷ gs) =
    if k == id then (k, rs ++ r ∷ []) ∷ gs else (k, rs) ∷ push_back id r gs

-- The second loop, over the records `rs` of the log `all`.
unfoldable pub uncommitted : List WalRecord → List WalRecord → Groups → Groups
unfolding push_back is_committed
uncommitted all [] gs = gs
uncommitted all (r ∷ rs) gs = uncommitted all rs (
    if is_marker r
    then gs
    else if is_committed r.header.txn_id all
    then gs
    else push_back r.header.txn_id r gs)

-- What the engine's tables offer: `_tables.count`, and the three calls of `TableManager`.
pub record Tables {ℓ} (S : Type ℓ) : Type ℓ where
  pub has_table : Bytes → S → Bool
  pub delete_row : Bytes → ℤ → ℤ → S → Result StorageError S
  pub update_row : Bytes → ℤ → ℤ → Bytes → S → Result StorageError S
  pub undelete_row : Bytes → ℤ → ℤ → Bytes → S → Result StorageError S

module _ {ℓ} {S : Type ℓ} (tables : Tables S) where
  -- The body of the inner loop. (For an Insert the row is also read, and not used.)
  unfoldable pub undo_record : WalRecord → S → Result StorageError S
  undo_record r s =
      let h = r.header in
      let table = c_str h.table_name in
      if tables.has_table table s
      then if is_type insert r
        then tables.delete_row table h.page_id h.slot_index s
        else if is_type update r
        then tables.update_row table h.page_id h.slot_index r.row_data s
        else if is_type delete r
        then tables.undelete_row table h.page_id h.slot_index r.row_data s
        else ok s
      else ok s

  unfoldable pub undo_all : List WalRecord → S → Result StorageError S
  undo_all [] s = ok s
  undo_all (r ∷ rs) s = undo_record r s >>= undo_all rs

  -- The outer loop; each transaction's changes are walked from the last to the first.
  unfoldable pub undo_groups : Groups → S → Result StorageError S
  unfolding undo_all undo_record
  undo_groups [] s = ok s
  undo_groups ((id, rs) ∷ gs) s = undo_all (reverse rs) s >>= undo_groups gs

  unfoldable pub recover : (Groups → Groups) → List WalRecord → S → Result StorageError S
  unfolding uncommitted undo_groups
  recover order log s = undo_groups (order (uncommitted log log [])) s
