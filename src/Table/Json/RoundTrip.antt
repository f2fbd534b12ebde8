-- ===== src/Table/Json/RoundTrip.antt =====
-- A definition is read back from the JSON value that it is written as.
use akatsuki_db.Base.{◌≡◌, ◌≢◌, refl, Option, none, some, List, [], ◌∷◌, Bytes}
use akatsuki_db.Query.Text.{eq_text}
use akatsuki_db.Query.Expression.{Value, null, int, double, text, boolean}
use akatsuki_db.Query.Schema.{
  ColumnDefinition, OnDelete, restrict, cascade, ForeignKeyDef, IndexDefinition, TableDefinition,
}
use akatsuki_db.Table.Json.{
  Json, json_text, json_array, JsonLibrary, IsJsonLibrary, of_value, of_default, of_on_delete,
  elements, of_texts, of_column, of_foreign_key, of_index, of_table, find_member, field, collect,
  get_list, to_on_delete, to_value, to_default, to_column, to_foreign_key, to_index, to_table,
  write_definition, read_definition,
}

module _ {D : Type 0} where
  -- No column has the default NULL, which is written as no default is.
  abbrev pub HasNoNullDefault : List (ColumnDefinition D) → Type 0
  HasNoNullDefault [] = Unit {0}
  HasNoNullDefault (c ∷ cs) = (c.default ≢ some null) × HasNoNullDefault cs

module _ {D : Type 0} (lib : JsonLibrary D) (L : IsJsonLibrary lib) where
  module _ {A : Type 0} (get : Json D → Option A) (of : A → Json D) where
    abbrev AreRead : List A → Type 0
    AreRead [] = Unit {0}
    AreRead (a ∷ xs) = (get (of a) ≡ some a) × AreRead xs

    collect-elements : (xs : List A) → AreRead xs → collect get (elements of xs) ≡ some xs
    unfolding collect elements
    collect-elements [] h = refl
    collect-elements (a ∷ xs) (h, hs) = rw (h, collect-elements xs hs) refl

    all_read : (xs : List A) → ((a : A) → get (of a) ≡ some a) → AreRead xs
    all_read [] h = tt
    all_read (a ∷ xs) h = (h a, all_read xs h)

  to_default-of_default :
      (c : ColumnDefinition D)
      → c.default ≢ some null
      → to_default lib (of_default c.default) ≡ some c.default
  unfolding to_default of_default to_value of_value
  to_default-of_default c h = by_cases c.default h
    where
      by_cases : (d : Option (Value D)) → d ≢ some null → to_default lib (of_default d) ≡ some d
      by_cases none h = refl
      by_cases (some null) h = absurd (h refl)
      by_cases (some (int n)) h = rw (L.int n) refl
      by_cases (some (double x)) h = rw (L.double x) refl
      by_cases (some (text s)) h = rw (L.text s) refl
      by_cases (some (boolean b)) h = rw (L.bool b) refl

  texts-read : (ss : List Bytes) → get_list lib.get_text (of_texts ss) ≡ some ss
  unfolding get_list of_texts
  texts-read ss =
      collect-elements lib.get_text json_text ss (all_read lib.get_text json_text ss L.text)

  to_column-of_column :
      (c : ColumnDefinition D) → c.default ≢ some null → to_column lib (of_column c) ≡ some c
  unfolding to_column of_column field find_member eq_text
  to_column-of_column c h =
      rw
        (
          L.text c.name,
          L.text c.column_type,
          L.int c.offset,
          L.int c.size,
          L.bool c.nullable,
          L.bool c.is_unique,
          to_default-of_default c h,
        )
        refl

  to_on_delete-of_on_delete : (a : OnDelete) → to_on_delete (of_on_delete {D = D} a) ≡ some a
  unfolding to_on_delete of_on_delete eq_text
  to_on_delete-of_on_delete restrict = refl
  to_on_delete-of_on_delete cascade = refl

  to_foreign_key-of_foreign_key :
      (f : ForeignKeyDef) → to_foreign_key lib (of_foreign_key f) ≡ some f
  unfolding to_foreign_key of_foreign_key field find_member eq_text
  to_foreign_key-of_foreign_key f =
      rw
        (
          L.text f.column,
          L.text f.ref_table,
          L.text f.ref_column,
          to_on_delete-of_on_delete f.on_delete_action,
        )
        refl

  to_index-of_index : (x : IndexDefinition) → to_index lib (of_index x) ≡ some x
  unfolding to_index of_index field find_member eq_text
  to_index-of_index x =
      rw (L.text x.name, texts-read x.columns, L.bool x.is_unique, L.bool x.is_primary) refl

  columns_read :
      (cs : List (ColumnDefinition D)) → HasNoNullDefault cs → AreRead (to_column lib) of_column cs
  columns_read [] h = tt
  columns_read (c ∷ cs) (h, hs) = (to_column-of_column c h, columns_read cs hs)

  list-read :
      {A : Type 0} (get : Json D → Option A) (of : A → Json D) (xs : List A)
      → AreRead get of xs
      → get_list get (json_array (elements of xs)) ≡ some xs
  unfolding get_list
  list-read get of xs h = collect-elements get of xs h

  to_table-of_table :
      (d : TableDefinition D) → HasNoNullDefault d.columns → to_table lib (of_table d) ≡ some d
  unfolding to_table of_table field find_member eq_text
  to_table-of_table d h =
      rw
        (
          L.text d.name,
          L.int d.row_size_bytes,
          list-read (to_column lib) of_column d.columns (columns_read d.columns h),
          texts-read d.primary_key,
          L.bool d.auto_increment,
          L.int d.next_auto_value,
          list-read (to_foreign_key lib) of_foreign_key d.foreign_keys (
              all_read (to_foreign_key lib) of_foreign_key d.foreign_keys
                to_foreign_key-of_foreign_key),
          list-read (to_index lib) of_index d.indexes
              (all_read (to_index lib) of_index d.indexes to_index-of_index),
        )
        refl

  pub read_definition-write_definition :
      (d : TableDefinition D)
      → HasNoNullDefault d.columns
      → lib.parse (lib.dump (of_table d)) ≡ some (of_table d)
      → read_definition lib (write_definition lib d) ≡ some d
  unfolding read_definition write_definition
  read_definition-write_definition d h e = rw e (to_table-of_table d h)
