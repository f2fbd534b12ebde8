-- ===== src/Table/Registry.antt =====
-- `TableRegistry` (include/AkatsukiDB/Table/TableRegistry.hpp, src/Table/TableRegistry.cpp). The files
-- of the schema folder are pairs of a path and a text. The order in which a folder is listed is that of the pairs.
pub mod Layout
pub mod Reload
use akatsuki_db.Base.{
  ℕ, ◌+◌, Bool, true, false, not, ◌&&◌, ◌||◌, Option, none, some, List, [], ◌∷◌, ◌++◌, ◌==◌, map,
  Bytes, ℤ, pos, if◌then◌else◌, Result, ok, err, ◌>>=◌,
}
use akatsuki_db.Query.Text.{eq_text, lower}
use akatsuki_db.Query.Word
use akatsuki_db.Query.Schema.{
  ColumnDefinition, ForeignKeyDef, IndexDefinition, TableDefinition, find_entry, get_table,
}
use akatsuki_db.Storage.Layout.{StorageLayout, schema_file}
use akatsuki_db.Table.Json.{JsonLibrary, write_definition, read_definition}

pub data RegistryError : Type 0 where
  duplicate_column : Bytes → RegistryError
  unsupported_type : Bytes → RegistryError
  bad_schema_file : Bytes → RegistryError

abbrev pub Schemas : Type 0 → Type 0
Schemas D = List (Bytes × TableDefinition D)

pub record TableRegistry (D : Type 0) : Type 0 where
  pub layout : StorageLayout
  pub files : List (Bytes × Bytes)
  pub schemas : Schemas D

-- `map[k] = a`: an entry that there is keeps its place.
unfoldable pub put_entry : {A : Type 0} → Bytes → A → List (Bytes × A) → List (Bytes × A)
put_entry k a [] = (k, a) ∷ []
put_entry k a ((k', b) ∷ es) =
    let rest = put_entry k a es in if eq_text k k' then (k', a) ∷ es else (k', b) ∷ rest

unfoldable pub erase_entry : {A : Type 0} → Bytes → List (Bytes × A) → List (Bytes × A)
erase_entry k [] = []
erase_entry k ((k', b) ∷ es) =
    let rest = erase_entry k es in if eq_text k k' then rest else (k', b) ∷ rest

-- `GetTypeSize`
unfoldable pub type_size : Bytes → Result RegistryError ℕ
type_size type =
    let t = lower type in
    if eq_text t Word.int
    then ok 4
    else if eq_text t Word.float
    then ok 8
    else if eq_text t Word.bool
    then ok 1
    else if eq_text t Word.str
    then ok 104
    else err (unsupported_type type)

unfoldable pub has_name : Bytes → List Bytes → Bool
has_name n [] = false
has_name n (m ∷ ms) = eq_text m n || has_name n ms

abbrev pub pk_prefix : Bytes
pk_prefix = b'p' ∷ b'k' ∷ b'_' ∷ []

abbrev pub uq_prefix : Bytes
uq_prefix = b'u' ∷ b'q' ∷ b'_' ∷ []

unfoldable pub primary_index : Bytes → List Bytes → List IndexDefinition
primary_index table [] = []
primary_index table (k ∷ ks) =
    record { name = pk_prefix ++ table; columns = k ∷ ks; is_unique = true; is_primary = true } ∷ []

abbrev pub is_some : {A : Type 0} → Option A → Bool
is_some none = false
is_some (some a) = true

abbrev pub json_extension : Bytes
json_extension = b'.' ∷ b'j' ∷ b's' ∷ b'o' ∷ b'n' ∷ []

-- `extension() == ".json"`: a file's name has something before the extension.
unfoldable pub has_json_extension : Bytes → Bool
has_json_extension [] = false
has_json_extension (c ∷ path) =
    not (c == b'/') && eq_text path json_extension || has_json_extension path

module _ {D : Type 0} where
  -- The first loop of `CreateTable`; `seen` is `colSet`.
  unfoldable pub check_names :
      List Bytes → List (ColumnDefinition D) → Result RegistryError (List Bytes)
  unfolding has_name
  check_names seen [] = ok seen
  check_names seen (c ∷ cs) =
      let rest = check_names (c.name ∷ seen) cs in
      if has_name c.name seen then err (duplicate_column c.name) else rest

  -- The second loop: the columns with their offsets and sizes, and the offset behind the last.
  unfoldable pub place_columns :
      ℕ → List (ColumnDefinition D) → Result RegistryError (List (ColumnDefinition D) × ℕ)
  unfolding type_size
  place_columns off [] = ok ([], off)
  place_columns off (c ∷ cs) = type_size c.column_type >>= λ n.
      place_columns (off + n) cs >>= λ (placed, end).
      ok (record c { offset = pos off; size = pos n } ∷ placed, end)

  -- The third loop: an index for every unique column outside the primary key.
  unfoldable pub unique_indexes :
      Bytes → List Bytes → List (ColumnDefinition D) → List IndexDefinition
  unfolding has_name
  unique_indexes table key [] = []
  unique_indexes table key (c ∷ cs) =
      let rest = unique_indexes table key cs in
      if c.is_unique && not (has_name c.name key)
      then record {
        name = uq_prefix ++ table ++ b'_' ∷ c.name;
        columns = c.name ∷ [];
        is_unique = true;
        is_primary = false;
      }
        ∷ rest
      else rest

  unfoldable pub save_table : JsonLibrary D → TableDefinition D → TableRegistry D → TableRegistry D
  unfolding put_entry schema_file write_definition
  save_table json def r = record r {
    files = put_entry (schema_file r.layout def.name) (write_definition json def) r.files;
    schemas = put_entry def.name def r.schemas;
  }

  -- The definition that `CreateTable` makes.
  unfoldable pub table_definition :
      Bytes
      → List (ColumnDefinition D)
      → List Bytes
      → Bool
      → List ForeignKeyDef
      → Result RegistryError (TableDefinition D)
  unfolding check_names place_columns primary_index unique_indexes
  table_definition table columns key auto_increment foreign_keys = check_names [] columns >>= λ _.
      place_columns 0 columns >>= λ (placed, end). ok (record {
        name = lower table;
        row_size_bytes = pos (end + 10);
        columns = placed;
        primary_key = key;
        auto_increment = auto_increment;
        next_auto_value = pos 1;
        foreign_keys = foreign_keys;
        indexes = primary_index (lower table) key ++ unique_indexes (lower table) key placed;
      })

  unfoldable pub create_table :
      JsonLibrary D
      → Bytes
      → List (ColumnDefinition D)
      → List Bytes
      → Bool
      → List ForeignKeyDef
      → TableRegistry D
      → Result RegistryError (TableDefinition D × TableRegistry D)
  unfolding table_definition save_table
  create_table json table columns key auto_increment foreign_keys r =
      table_definition table columns key auto_increment foreign_keys >>= λ def.
      ok (def, save_table json def r)

  unfoldable pub table_exists : Bytes → TableRegistry D → Bool
  unfolding find_entry
  table_exists table r = is_some (get_table table r.schemas)

  -- Only what is in memory: the executor removes the files.
  unfoldable pub drop_table : Bytes → TableRegistry D → TableRegistry D
  unfolding erase_entry
  drop_table table r = record r { schemas = erase_entry (lower table) r.schemas }

  unfoldable pub all_table_names : TableRegistry D → List Bytes
  all_table_names r = map (λ e. e.0) r.schemas

  -- `LoadAllSchemas`: the files are read in turn, each into `_schemas`.
  unfoldable pub load_all :
      JsonLibrary D → List (Bytes × Bytes) → Schemas D → Result RegistryError (Schemas D)
  unfolding has_json_extension put_entry read_definition
  load_all json [] schemas = ok schemas
  load_all json ((path, content) ∷ files) schemas =
      if has_json_extension path
      then elim (read_definition json content) [
        | some def ↦ load_all json files (put_entry def.name def schemas)
        | none ↦ err (bad_schema_file path)
      ]
      else load_all json files schemas

  unfoldable pub open_registry :
      JsonLibrary D → StorageLayout → List (Bytes × Bytes) → Result RegistryError (TableRegistry D)
  unfolding load_all
  open_registry json layout files = load_all json files [] >>= λ schemas.
      ok (record { layout = layout; files = files; schemas = schemas })
