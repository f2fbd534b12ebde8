-- ===== src/Tests/Table.antt =====
-- Rows and tables: a row of a number, a text and a NULL; a registry with one table.
use akatsuki_db.Base.{
  ℕ, Bool, Option, ◌+◌, ◌≡◌, refl, true, false, none, some, List, [], ◌∷◌, Bytes, ℤ, pos, negsuc,
  arith, ok, if◌then◌else◌,
}
use akatsuki_db.Query.Text.{eq_text}
use akatsuki_db.Query.Word
use akatsuki_db.Query.Expression.{Value, int, text}
use akatsuki_db.Query.Schema.{ColumnDefinition, TableDefinition, cascade}
use akatsuki_db.Query.Eval.{Row, or_null}
use akatsuki_db.Storage.Layout.{StorageLayout, schema_file}
use akatsuki_db.Table.Json.{
  Json, json_bool, json_int, json_float, json_text, JsonLibrary, IsJsonLibrary, of_table,
  write_definition,
}
use akatsuki_db.Table.Json.RoundTrip.{HasNoNullDefault}
use akatsuki_db.Table.Registry.{
  TableRegistry, create_table, open_registry, table_definition, type_size, check_names,
  place_columns, has_name, save_table, put_entry, primary_index, unique_indexes,
}
use akatsuki_db.Table.Registry.Layout.{
  AreLaidOut, AreDistinctNames, ArePlaced, table_definition-layout,
}
use akatsuki_db.Table.Registry.Reload.{nothing, created, HasCreated-open_registry}
use akatsuki_db.Table.Row.{serialize, deserialize, int_of}
use akatsuki_db.Table.Row.Fields.{as_int, as_str}
use akatsuki_db.Table.Row.Frame.{AreAccepted, as_null, as_value}
use akatsuki_db.Table.Row.RoundTrip.{kept_value, deserialize-serialize}
use akatsuki_db.Tests.Numbers.{numbers}

abbrev column_of : Bytes → Bytes → ℤ → ℤ → ColumnDefinition ℤ
column_of name type offset size = record {
  name = name;
  column_type = type;
  offset = offset;
  size = size;
  nullable = true;
  is_unique = false;
  default = none;
}

abbrev id : Bytes
id = b'i' ∷ []

abbrev nick : Bytes
nick = b'n' ∷ []

abbrev active : Bytes
active = b'a' ∷ []

abbrev asked : List (ColumnDefinition ℤ)
asked =
    column_of id Word.int (pos 0) (pos 0)
    ∷ column_of nick Word.str (pos 0) (pos 0)
    ∷ column_of active Word.bool (pos 0) (pos 0)
    ∷ []

abbrev columns : List (ColumnDefinition ℤ)
columns =
    column_of id Word.int (pos 0) (pos 4)
    ∷ column_of nick Word.str (pos 4) (pos 104)
    ∷ column_of active Word.bool (pos 108) (pos 1)
    ∷ []

-- No value for `active`.
abbrev row : Row ℤ
row name =
    if eq_text name id
    then some (int (negsuc 6))
    else if eq_text name nick
    then some (text nick)
    else none

abbrev people : TableDefinition ℤ
people = record {
  name = nick;
  row_size_bytes = pos 119;
  columns = columns;
  primary_key = [];
  auto_increment = false;
  next_auto_value = pos 1;
  foreign_keys = [];
  indexes = [];
}

defined : table_definition nick asked [] false [] ≡ ok people
unfolding table_definition check_names place_columns has_name type_size eq_text primary_index
    unique_indexes
defined = refl

table_definition-layout_example :
    AreDistinctNames asked
    × ArePlaced asked columns
    × ((end : ℕ) × AreLaidOut 0 columns end × (pos 119 ≡ pos (end + 10)))
table_definition-layout_example = table_definition-layout nick asked [] false [] people defined

laid : AreLaidOut 0 columns 109
unfolding type_size eq_text
laid = (4, refl, refl, refl, (104, refl, refl, refl, (1, refl, refl, refl, refl)))

accepted : AreAccepted numbers row columns
unfolding eq_text int_of
accepted = (
  as_value (λ e. ground arith) (as_int (omega arith, omega arith)),
  (as_value (λ e. ground arith) (as_str (omega arith)), (as_null, tt)),
)

again : table_definition nick columns [] false [] ≡ ok people
unfolding table_definition check_names place_columns has_name type_size eq_text primary_index
    unique_indexes
again = refl

distinct : AreDistinctNames columns
distinct = (table_definition-layout nick columns [] false [] people again).0

deserialize-serialize_example :
    deserialize numbers (serialize numbers row columns (109 + 10)) columns nick
    ≡ some (kept_value numbers Word.str (or_null (row nick)))
deserialize-serialize_example =
    deserialize-serialize numbers columns row 109 laid (omega arith) distinct accepted 1
      (column_of nick Word.str (pos 4) (pos 104)) refl

-- A folder, and a JSON library that reads one text.
abbrev layout : StorageLayout
layout = record { root = b'd' ∷ [] }

-- `nick` has a default.
abbrev with_default : Option (Value ℤ) → List (ColumnDefinition ℤ)
with_default d =
    column_of id Word.int (pos 0) (pos 4)
    ∷ record (column_of nick Word.str (pos 4) (pos 104)) { default = d }
    ∷ []

abbrev members : TableDefinition ℤ
members = record people {
  row_size_bytes = pos 118;
  columns = with_default (some (text nick));
  foreign_keys =
      record { column = id; ref_table = nick; ref_column = id; on_delete_action = cascade } ∷ [];
}

abbrev bool_of : Json ℤ → Option Bool
bool_of (json_bool b) = some b
bool_of _ = none

abbrev number_of : Json ℤ → Option ℤ
number_of (json_int n) = some n
number_of (json_float d) = some d
number_of _ = none

abbrev text_of : Json ℤ → Option Bytes
text_of (json_text s) = some s
text_of _ = none

abbrev json : JsonLibrary ℤ
json = record {
  dump = λ j. nick;
  parse = λ s. some (of_table members);
  get_bool = bool_of;
  get_int = number_of;
  get_double = number_of;
  get_text = text_of;
}

json-IsJsonLibrary : IsJsonLibrary json
json-IsJsonLibrary = record {
  bool = λ b. refl;
  int = λ n. refl;
  double = λ d. refl;
  text = λ s. refl;
}

abbrev empty : TableRegistry ℤ
empty = record { layout = layout; files = []; schemas = [] }

abbrev one_table : TableRegistry ℤ
one_table = record {
  layout = layout;
  files = (schema_file layout nick, nick) ∷ [];
  schemas = (nick, members) ∷ [];
}

made :
    create_table json nick (with_default (some (text nick))) [] false members.foreign_keys empty
    ≡ ok (members, one_table)
unfolding create_table table_definition check_names place_columns has_name type_size eq_text
    primary_index unique_indexes save_table put_entry write_definition
made = refl

no_null : HasNoNullDefault members.columns
no_null = ((λ e. ground arith), ((λ e. ground arith), tt))

HasCreated-open_registry_example : open_registry json layout one_table.files ≡ ok one_table
HasCreated-open_registry_example =
    HasCreated-open_registry json layout json-IsJsonLibrary one_table (
      created nick (with_default (some (text nick))) [] false members.foreign_keys members nothing
        no_null refl made)
