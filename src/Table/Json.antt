-- ===== src/Table/Json.antt =====
-- How `TableRegistry` (src/Table/TableRegistry.cpp) writes a definition as a JSON value and reads it
-- back: `to_json` and `from_json` of `DbObject`, its optional serializer, the names of `OnDelete`, and
-- the fields that the four macros list. A value's type, the members of an object and the elements of an
-- array are the JSON library's; its texts and its conversions to C++ types are a parameter. An object's
-- members are in the order of their keys, as the library keeps them; `none` is an exception.
pub mod RoundTrip
use akatsuki_db.Base.{
  ◌≡◌, refl, Bool, true, false, Option, none, some, List, [], ◌∷◌, Bytes, ℤ, pos, if◌then◌else◌,
}
use akatsuki_db.Query.Text.{eq_text}
use akatsuki_db.Query.Expression.{Value, null, int, double, text, boolean}
use akatsuki_db.Query.Schema.{
  ColumnDefinition, OnDelete, restrict, cascade, ForeignKeyDef, IndexDefinition, TableDefinition,
}

mutual
  pub data Json (D : Type 0) : Type 0 where
    json_null : Json D
    json_bool : Bool → Json D
    json_int : ℤ → Json D
    json_float : D → Json D
    json_text : Bytes → Json D
    json_array : Elements D → Json D
    json_object : Members D → Json D

  pub data Elements (D : Type 0) : Type 0 where
    nil : Elements D
    cons : Json D → Elements D → Elements D

  pub data Members (D : Type 0) : Type 0 where
    done : Members D
    member : Bytes → Json D → Members D → Members D

-- `dump`, `parse` and `get<T>()` of the library.
pub record JsonLibrary (D : Type 0) : Type 0 where
  pub dump : Json D → Bytes
  pub parse : Bytes → Option (Json D)
  pub get_bool : Json D → Option Bool
  pub get_int : Json D → Option ℤ
  pub get_double : Json D → Option D
  pub get_text : Json D → Option Bytes

-- `get<T>()` of a value of that type gives the value.
pub record IsJsonLibrary {D : Type 0} (lib : JsonLibrary D) : Type 0 where
  pub bool : (b : Bool) → lib.get_bool (json_bool b) ≡ some b
  pub int : (n : ℤ) → lib.get_int (json_int n) ≡ some n
  pub double : (d : D) → lib.get_double (json_float d) ≡ some d
  pub text : (s : Bytes) → lib.get_text (json_text s) ≡ some s

abbrev key_name : Bytes
key_name = b'N' ∷ b'a' ∷ b'm' ∷ b'e' ∷ []

abbrev key_type : Bytes
key_type = b'T' ∷ b'y' ∷ b'p' ∷ b'e' ∷ []

abbrev key_offset : Bytes
key_offset = b'O' ∷ b'f' ∷ b'f' ∷ b's' ∷ b'e' ∷ b't' ∷ []

abbrev key_size : Bytes
key_size = b'S' ∷ b'i' ∷ b'z' ∷ b'e' ∷ []

abbrev key_nullable : Bytes
key_nullable = b'N' ∷ b'u' ∷ b'l' ∷ b'l' ∷ b'a' ∷ b'b' ∷ b'l' ∷ b'e' ∷ []

abbrev key_is_unique : Bytes
key_is_unique = b'I' ∷ b's' ∷ b'U' ∷ b'n' ∷ b'i' ∷ b'q' ∷ b'u' ∷ b'e' ∷ []

abbrev key_default : Bytes
key_default = b'D' ∷ b'e' ∷ b'f' ∷ b'a' ∷ b'u' ∷ b'l' ∷ b't' ∷ []

abbrev key_column : Bytes
key_column = b'C' ∷ b'o' ∷ b'l' ∷ b'u' ∷ b'm' ∷ b'n' ∷ []

abbrev key_ref_table : Bytes
key_ref_table = b'R' ∷ b'e' ∷ b'f' ∷ b'T' ∷ b'a' ∷ b'b' ∷ b'l' ∷ b'e' ∷ []

abbrev key_ref_column : Bytes
key_ref_column = b'R' ∷ b'e' ∷ b'f' ∷ b'C' ∷ b'o' ∷ b'l' ∷ b'u' ∷ b'm' ∷ b'n' ∷ []

abbrev key_on_delete_action : Bytes
key_on_delete_action =
    b'O' ∷ b'n' ∷ b'D' ∷ b'e' ∷ b'l' ∷ b'e' ∷ b't' ∷ b'e' ∷ b'A' ∷ b'c' ∷ b't' ∷ b'i' ∷ b'o' ∷ b'n'
    ∷ []

abbrev key_columns : Bytes
key_columns = b'C' ∷ b'o' ∷ b'l' ∷ b'u' ∷ b'm' ∷ b'n' ∷ b's' ∷ []

abbrev key_is_primary : Bytes
key_is_primary = b'I' ∷ b's' ∷ b'P' ∷ b'r' ∷ b'i' ∷ b'm' ∷ b'a' ∷ b'r' ∷ b'y' ∷ []

abbrev key_row_size_bytes : Bytes
key_row_size_bytes =
    b'R' ∷ b'o' ∷ b'w' ∷ b'S' ∷ b'i' ∷ b'z' ∷ b'e' ∷ b'B' ∷ b'y' ∷ b't' ∷ b'e' ∷ b's' ∷ []

abbrev key_primary_key : Bytes
key_primary_key = b'P' ∷ b'r' ∷ b'i' ∷ b'm' ∷ b'a' ∷ b'r' ∷ b'y' ∷ b'K' ∷ b'e' ∷ b'y' ∷ []

abbrev key_auto_increment : Bytes
key_auto_increment =
    b'A' ∷ b'u' ∷ b't' ∷ b'o' ∷ b'I' ∷ b'n' ∷ b'c' ∷ b'r' ∷ b'e' ∷ b'm' ∷ b'e' ∷ b'n' ∷ b't' ∷ []

abbrev key_next_auto_value : Bytes
key_next_auto_value =
    b'N' ∷ b'e' ∷ b'x' ∷ b't' ∷ b'A' ∷ b'u' ∷ b't' ∷ b'o' ∷ b'V' ∷ b'a' ∷ b'l' ∷ b'u' ∷ b'e' ∷ []

abbrev key_foreign_keys : Bytes
key_foreign_keys = b'F' ∷ b'o' ∷ b'r' ∷ b'e' ∷ b'i' ∷ b'g' ∷ b'n' ∷ b'K' ∷ b'e' ∷ b'y' ∷ b's' ∷ []

abbrev key_indexes : Bytes
key_indexes = b'I' ∷ b'n' ∷ b'd' ∷ b'e' ∷ b'x' ∷ b'e' ∷ b's' ∷ []

abbrev restrict_name : Bytes
restrict_name = b'R' ∷ b'E' ∷ b'S' ∷ b'T' ∷ b'R' ∷ b'I' ∷ b'C' ∷ b'T' ∷ []

abbrev cascade_name : Bytes
cascade_name = b'C' ∷ b'A' ∷ b'S' ∷ b'C' ∷ b'A' ∷ b'D' ∷ b'E' ∷ []

abbrev pub and_then : {A B : Type 0} → Option A → (A → Option B) → Option B
and_then none next = none
and_then (some a) next = next a

module _ {D : Type 0} where
  -- `to_json` of a `DbObject`; a NULL leaves the value null.
  unfoldable pub of_value : Value D → Json D
  of_value null = json_null
  of_value (int n) = json_int n
  of_value (double d) = json_float d
  of_value (text s) = json_text s
  of_value (boolean b) = json_bool b

  unfoldable pub of_default : Option (Value D) → Json D
  unfolding of_value
  of_default none = json_null
  of_default (some v) = of_value v

  unfoldable pub of_on_delete : OnDelete → Json D
  of_on_delete restrict = json_text restrict_name
  of_on_delete cascade = json_text cascade_name

  unfoldable pub elements : {A : Type 0} → (A → Json D) → List A → Elements D
  elements of [] = nil
  elements of (a ∷ xs) = cons (of a) (elements of xs)

  unfoldable pub of_texts : List Bytes → Json D
  unfolding elements
  of_texts ss = json_array (elements json_text ss)

  unfoldable pub of_column : ColumnDefinition D → Json D
  unfolding of_default
  of_column c = json_object (
      member key_default (of_default c.default) (
        member key_is_unique (json_bool c.is_unique) (
          member key_name (json_text c.name) (
            member key_nullable (json_bool c.nullable) (
              member key_offset (json_int c.offset) (
                member key_size (json_int c.size)
                  (member key_type (json_text c.column_type) done)))))))

  unfoldable pub of_foreign_key : ForeignKeyDef → Json D
  unfolding of_on_delete
  of_foreign_key f = json_object (
      member key_column (json_text f.column) (
        member key_on_delete_action (of_on_delete f.on_delete_action) (
          member key_ref_column (json_text f.ref_column)
            (member key_ref_table (json_text f.ref_table) done))))

  unfoldable pub of_index : IndexDefinition → Json D
  unfolding of_texts
  of_index x = json_object (
      member key_columns (of_texts x.columns) (
        member key_is_primary (json_bool x.is_primary)
          (member key_is_unique (json_bool x.is_unique) (member key_name (json_text x.name) done))))

  unfoldable pub of_table : TableDefinition D → Json D
  unfolding of_column of_foreign_key of_index of_texts elements
  of_table d = json_object (
      member key_auto_increment (json_bool d.auto_increment) (
        member key_columns (json_array (elements of_column d.columns)) (
          member key_foreign_keys (json_array (elements of_foreign_key d.foreign_keys)) (
            member key_indexes (json_array (elements of_index d.indexes)) (
              member key_name (json_text d.name) (
                member key_next_auto_value (json_int d.next_auto_value) (
                  member key_primary_key (of_texts d.primary_key)
                    (member key_row_size_bytes (json_int d.row_size_bytes) done))))))))

  unfoldable pub find_member : Bytes → Members D → Option (Json D)
  find_member k done = none
  find_member k (member k' j ms) =
      let rest = find_member k ms in if eq_text k k' then some j else rest

  -- `j.value(key, default)`
  unfoldable pub field : {A : Type 0} → Bytes → (Json D → Option A) → A → Json D → Option A
  unfolding find_member
  field k get default (json_object ms) = elim (find_member k ms) [
    | none ↦ some default
    | some j ↦ get j
  ]
  field k get default _ = none

  unfoldable pub collect : {A : Type 0} → (Json D → Option A) → Elements D → Option (List A)
  collect get nil = some []
  collect get (cons j js) =
      let rest = collect get js in and_then (get j) (λ a. and_then rest (λ xs. some (a ∷ xs)))

  unfoldable pub get_list : {A : Type 0} → (Json D → Option A) → Json D → Option (List A)
  unfolding collect
  get_list get (json_array js) = collect get js
  get_list get _ = none

  -- A value that is none of the names is read as the first, `RESTRICT`.
  unfoldable pub to_on_delete : Json D → Option OnDelete
  to_on_delete (json_text s) = some (if eq_text s cascade_name then cascade else restrict)
  to_on_delete _ = some restrict

  module _ (lib : JsonLibrary D) where
    -- `from_json` of a `DbObject`.
    unfoldable pub to_value : Json D → Option (Value D)
    to_value (json_bool b) = and_then (lib.get_bool (json_bool b)) (λ v. some (boolean v))
    to_value (json_int n) = and_then (lib.get_int (json_int n)) (λ v. some (int v))
    to_value (json_float d) = and_then (lib.get_double (json_float d)) (λ v. some (double v))
    to_value (json_text s) = and_then (lib.get_text (json_text s)) (λ v. some (text v))
    to_value _ = none

    unfoldable pub to_default : Json D → Option (Option (Value D))
    unfolding to_value
    to_default json_null = some none
    to_default j = and_then (to_value j) (λ v. some (some v))

    unfoldable pub to_column : Json D → Option (ColumnDefinition D)
    unfolding field to_default
    to_column j = and_then (field key_name lib.get_text [] j) (λ n.
        and_then (field key_type lib.get_text [] j) (λ t.
          and_then (field key_offset lib.get_int (pos 0) j) (λ o.
            and_then (field key_size lib.get_int (pos 0) j) (λ z.
              and_then (field key_nullable lib.get_bool true j) (λ l.
                and_then (field key_is_unique lib.get_bool false j) (λ u.
                  and_then (field key_default to_default none j) (λ d. some (record {
                    name = n;
                    column_type = t;
                    offset = o;
                    size = z;
                    nullable = l;
                    is_unique = u;
                    default = d;
                  }))))))))

    unfoldable pub to_foreign_key : Json D → Option ForeignKeyDef
    unfolding field to_on_delete
    to_foreign_key j = and_then (field key_column lib.get_text [] j) (λ c.
        and_then (field key_ref_table lib.get_text [] j) (λ t.
          and_then (field key_ref_column lib.get_text [] j) (λ r.
            and_then (field key_on_delete_action to_on_delete restrict j) (λ a.
              some (record { column = c; ref_table = t; ref_column = r; on_delete_action = a })))))

    unfoldable pub to_index : Json D → Option IndexDefinition
    unfolding field get_list
    to_index j = and_then (field key_name lib.get_text [] j) (λ n.
        and_then (field key_columns (get_list lib.get_text) [] j) (λ c.
          and_then (field key_is_unique lib.get_bool false j) (λ u.
            and_then (field key_is_primary lib.get_bool false j)
              (λ p. some (record { name = n; columns = c; is_unique = u; is_primary = p })))))

    unfoldable pub to_table : Json D → Option (TableDefinition D)
    unfolding field get_list to_column to_foreign_key to_index
    to_table j = and_then (field key_name lib.get_text [] j) (λ n.
        and_then (field key_row_size_bytes lib.get_int (pos 0) j) (λ r.
          and_then (field key_columns (get_list to_column) [] j) (λ c.
            and_then (field key_primary_key (get_list lib.get_text) [] j) (λ k.
              and_then (field key_auto_increment lib.get_bool false j) (λ a.
                and_then (field key_next_auto_value lib.get_int (pos 1) j) (λ v.
                  and_then (field key_foreign_keys (get_list to_foreign_key) [] j) (λ f.
                    and_then (field key_indexes (get_list to_index) [] j) (λ x. some (record {
                      name = n;
                      row_size_bytes = r;
                      columns = c;
                      primary_key = k;
                      auto_increment = a;
                      next_auto_value = v;
                      foreign_keys = f;
                      indexes = x;
                    })))))))))

    -- What `SaveTable` writes and what `LoadAllSchemas` reads.
    unfoldable pub write_definition : TableDefinition D → Bytes
    unfolding of_table
    write_definition d = lib.dump (of_table d)

    unfoldable pub read_definition : Bytes → Option (TableDefinition D)
    unfolding to_table
    read_definition s = and_then (lib.parse s) to_table
