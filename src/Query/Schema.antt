-- ===== src/Query/Schema.antt =====
-- Columns and tables (include/AkatsukiDB/Table/ColumnDefinition.hpp, TableDefinition.hpp), and
-- `TableRegistry::GetTable` with `Unify` (src/Table/TableRegistry.cpp).
use akatsuki_db.Base.{Bool, Option, none, some, List, [], ◌∷◌, Bytes, ℤ, if◌then◌else◌}
use akatsuki_db.Query.Text.{eq_text, lower}
use akatsuki_db.Query.Expression.{Value}

pub record ColumnDefinition (D : Type 0) : Type 0 where
  pub name : Bytes
  pub column_type : Bytes
  pub offset : ℤ
  pub size : ℤ
  pub nullable : Bool
  pub is_unique : Bool
  pub default : Option (Value D)

pub data OnDelete : Type 0 where
  restrict : OnDelete
  cascade : OnDelete

pub record ForeignKeyDef : Type 0 where
  pub column : Bytes
  pub ref_table : Bytes
  pub ref_column : Bytes
  pub on_delete_action : OnDelete

pub record IndexDefinition : Type 0 where
  pub name : Bytes
  pub columns : List Bytes
  pub is_unique : Bool
  pub is_primary : Bool

pub record TableDefinition (D : Type 0) : Type 0 where
  pub name : Bytes
  pub row_size_bytes : ℤ
  pub columns : List (ColumnDefinition D)
  pub primary_key : List Bytes
  pub auto_increment : Bool
  pub next_auto_value : ℤ
  pub foreign_keys : List ForeignKeyDef
  pub indexes : List IndexDefinition

-- The entry of a key in a hash map.
unfoldable pub find_entry : {A : Type 0} → Bytes → List (Bytes × A) → Option A
find_entry k [] = none
find_entry k ((k', a) ∷ es) = let rest = find_entry k es in if eq_text k k' then some a else rest

-- `none` where the source throws that the table does not exist.
abbrev pub get_table :
    {D : Type 0} → Bytes → List (Bytes × TableDefinition D) → Option (TableDefinition D)
get_table name schemas = find_entry (lower name) schemas
