-- ===== src/Storage/Layout.antt =====
-- `StorageLayout` (include/AkatsukiDB/Storage/StorageLayout.hpp, src/Storage/StorageLayout.cpp): the
-- paths under the root folder, joined as `std::filesystem::path` joins them.
use akatsuki_db.Base.{Bytes, List, [], ◌∷◌, ◌++◌, ◌==◌, if◌then◌else◌}

-- `path / name` for a relative, non-empty `name`: a separator goes between, unless there is one.
unfoldable pub join_path : Bytes → Bytes → Bytes
join_path [] name = name
join_path (c ∷ []) name = if c == b'/' then c ∷ name else c ∷ b'/' ∷ name
join_path (c ∷ d ∷ path) name = c ∷ join_path (d ∷ path) name

abbrev tables_name : Bytes
tables_name = b't' ∷ b'a' ∷ b'b' ∷ b'l' ∷ b'e' ∷ b's' ∷ []

abbrev index_name : Bytes
index_name = b'i' ∷ b'n' ∷ b'd' ∷ b'e' ∷ b'x' ∷ []

abbrev pub schema_name : Bytes
schema_name = b's' ∷ b'c' ∷ b'h' ∷ b'e' ∷ b'm' ∷ b'a' ∷ []

abbrev wal_name : Bytes
wal_name = b'w' ∷ b'a' ∷ b'l' ∷ []

abbrev table_suffix : Bytes
table_suffix = b'.' ∷ b't' ∷ b'b' ∷ b'l' ∷ []

abbrev index_suffix : Bytes
index_suffix = b'.' ∷ b'i' ∷ b'd' ∷ b'x' ∷ []

abbrev pub schema_suffix : Bytes
schema_suffix = b'.' ∷ schema_name ++ b'.' ∷ b'j' ∷ b's' ∷ b'o' ∷ b'n' ∷ []

abbrev log_name : Bytes
log_name =
    wal_name
    ++ b'_' ∷ b'c' ∷ b'u' ∷ b'r' ∷ b'r' ∷ b'e' ∷ b'n' ∷ b't' ∷ b'.' ∷ b'l' ∷ b'o' ∷ b'g' ∷ []

pub record StorageLayout : Type 0 where
  pub root : Bytes

module _ (l : StorageLayout) where
  unfoldable pub tables_folder : Bytes
  unfolding join_path
  tables_folder = join_path l.root tables_name

  unfoldable pub index_folder : Bytes
  unfolding join_path
  index_folder = join_path l.root index_name

  unfoldable pub schema_folder : Bytes
  unfolding join_path
  schema_folder = join_path l.root schema_name

  unfoldable pub wal_folder : Bytes
  unfolding join_path
  wal_folder = join_path l.root wal_name

  unfoldable pub table_file : Bytes → Bytes
  unfolding join_path
  table_file table = join_path (join_path l.root tables_name) (table ++ table_suffix)

  unfoldable pub index_file : Bytes → Bytes
  unfolding join_path
  index_file index = join_path (join_path l.root index_name) (index ++ index_suffix)

  unfoldable pub schema_file : Bytes → Bytes
  unfolding join_path
  schema_file table = join_path (join_path l.root schema_name) (table ++ schema_suffix)

  unfoldable pub wal_file : Bytes
  unfolding join_path
  wal_file = join_path (join_path l.root wal_name) log_name

  -- The folders that `CreateFolders` makes.
  unfoldable pub created_folders : List Bytes
  unfolding tables_folder index_folder schema_folder wal_folder
  created_folders = tables_folder ∷ index_folder ∷ schema_folder ∷ wal_folder ∷ []
