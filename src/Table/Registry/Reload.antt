-- ===== src/Table/Registry/Reload.antt =====
-- The schema files give back the tables when the registry is made anew.
use akatsuki_db.Base.{
  not_both, ◌≡◌, refl, sym, ap, ◌∙◌, ◌≢◌, ◌⊎◌, inl, inr, Bool, true, false, Bool-cases, none, some,
  List, [], ◌∷◌, ◌++◌, Bytes, length, length-append, ok, >>=-ok, ok-inj, arith,
}
use mathlib.Core.Path.{subst}
use mathlib.Core.List.{append-nil, append_assoc}
use akatsuki_db.Query.Text.{eq_text, eq_text_iff}
use akatsuki_db.Query.Schema.{ColumnDefinition, ForeignKeyDef, TableDefinition, find_entry}
use akatsuki_db.Storage.Layout.{StorageLayout, join_path, schema_file, schema_name, schema_suffix}
use akatsuki_db.Table.Json.{JsonLibrary, IsJsonLibrary, of_table, write_definition, read_definition}
use akatsuki_db.Table.Json.RoundTrip.{HasNoNullDefault, read_definition-write_definition}
use akatsuki_db.Table.Registry.{
  TableRegistry, Schemas, put_entry, has_json_extension, save_table, create_table, load_all,
  open_registry, table_definition,
}

-- Names that differ have files that differ.
append_cancel : (x y s : Bytes) → x ++ s ≡ y ++ s → x ≡ y
append_cancel [] [] s e = refl
append_cancel [] (d ∷ y) s e = absurd (omega (arith, ap length e, length-append y s))
append_cancel (c ∷ x) [] s e = absurd (omega (arith, ap length e, length-append x s))
append_cancel (c ∷ x) (d ∷ y) s e = let (h, t) = split e in rw (h, append_cancel x y s t) refl
  where
    split : ◌≡◌ {A = Bytes} (c ∷ x ++ s) (d ∷ y ++ s) → (c ≡ d) × (x ++ s ≡ y ++ s)
    split e = ground arith

join_path-inj : (path m n : Bytes) → join_path path m ≡ join_path path n → m ≡ n
unfolding join_path
join_path-inj [] m n e = e
join_path-inj (c ∷ []) m n e = ground arith
join_path-inj (c ∷ d ∷ path) m n e = join_path-inj (d ∷ path) m n (ground arith)

schema_file-inj : (l : StorageLayout) (m n : Bytes) → schema_file l m ≡ schema_file l n → m ≡ n
unfolding schema_file
schema_file-inj l m n e =
    append_cancel m n schema_suffix
      (join_path-inj (join_path l.root schema_name) (m ++ schema_suffix) (n ++ schema_suffix) e)

has_json_extension-append :
    (x s : Bytes) → has_json_extension s ≡ true → has_json_extension (x ++ s) ≡ true
unfolding has_json_extension
has_json_extension-append [] s h = h
has_json_extension-append (c ∷ x) s h = ground (arith, has_json_extension-append x s h)

has_json_extension-join_path :
    (path n : Bytes) → has_json_extension n ≡ true → has_json_extension (join_path path n) ≡ true
unfolding join_path has_json_extension
has_json_extension-join_path [] n h = h
has_json_extension-join_path (c ∷ []) n h = ground arith
has_json_extension-join_path (c ∷ d ∷ path) n h =
    ground (arith, has_json_extension-join_path (d ∷ path) n h)

has_json_extension-suffix : has_json_extension schema_suffix ≡ true
unfolding has_json_extension eq_text
has_json_extension-suffix = refl

has_json_extension-schema_file :
    (l : StorageLayout) (n : Bytes) → has_json_extension (schema_file l n) ≡ true
unfolding schema_file
has_json_extension-schema_file l n =
    has_json_extension-join_path (join_path l.root schema_name) (n ++ schema_suffix)
      (has_json_extension-append n schema_suffix has_json_extension-suffix)

eq_text_self : (s : Bytes) → eq_text s s ≡ true
eq_text_self s = (eq_text_iff s s).1 refl

eq_text_ne : (s t : Bytes) → s ≢ t → eq_text s t ≡ false
eq_text_ne s t h = elim (Bool-cases (eq_text s t)) [
  | inl e ↦ absurd (h ((eq_text_iff s t).0 e))
  | inr e ↦ e
]

module _ {A : Type 0} where
  find_entry-put_entry_ne :
      (n k : Bytes) (a : A) (es : List (Bytes × A))
      → n ≢ k
      → find_entry n (put_entry k a es) ≡ find_entry n es
  unfolding find_entry put_entry
  find_entry-put_entry_ne n k a [] h = rw (eq_text_ne n k h) refl
  find_entry-put_entry_ne n k a ((m, b) ∷ es) h = elim (Bool-cases (eq_text k m)) [
    | inl e ↦
        let differ : n ≢ m = λ q. h (q ∙ sym ((eq_text_iff k m).0 e)) in
        rw (e, eq_text_ne n m differ) refl
    | inr e ↦ rw (e, find_entry-put_entry_ne n k a es h) refl
  ]

  put_entry_fresh :
      (k : Bytes) (a : A) (es : List (Bytes × A))
      → find_entry k es ≡ none
      → put_entry k a es ≡ es ++ (k, a) ∷ []
  unfolding find_entry put_entry
  put_entry_fresh k a [] h = refl
  put_entry_fresh k a ((m, b) ∷ es) h = elim (Bool-cases (eq_text k m)) [
    | inl e ↦ absurd (full (rw e at h))
    | inr e ↦ rw (e, put_entry_fresh k a es (rw e at h)) refl
  ]
    where
      full : some b ≡ none → ⊥
      full e = ground arith

module _ {A : Type 0} where
  find_entry_head :
      (k : Bytes) (a : A) (es : List (Bytes × A)) → find_entry k ((k, a) ∷ es) ≡ none → ⊥
  unfolding find_entry
  find_entry_head k a es h = full (rw (eq_text_self k) at h)
    where
      full : some a ≡ none → ⊥
      full e = ground arith

  find_entry_tail :
      (m k : Bytes) (a : A) (es : List (Bytes × A))
      → find_entry m ((k, a) ∷ es) ≡ none
      → find_entry m es ≡ none
  unfolding find_entry
  find_entry_tail m k a es h = ground arith

module _ {D : Type 0} (json : JsonLibrary D) (layout : StorageLayout) where
  -- Each table has its file, and no other files are there.
  abbrev pub AreSaved : List (Bytes × Bytes) → Schemas D → Type 0
  AreSaved [] [] = Unit {0}
  AreSaved [] (e ∷ es) = ⊥
  AreSaved (f ∷ fs) [] = ⊥
  AreSaved ((path, content) ∷ fs) ((name, d) ∷ es) =
      (path ≡ schema_file layout name)
      × (read_definition json content ≡ some d)
      × (name ≡ d.name)
      × (find_entry name es ≡ none)
      × AreSaved fs es

  put_entry-AreSaved :
      (d : TableDefinition D) (fs : List (Bytes × Bytes)) (es : Schemas D)
      → read_definition json (write_definition json d) ≡ some d
      → AreSaved fs es
      → AreSaved
          (put_entry (schema_file layout d.name) (write_definition json d) fs)
          (put_entry d.name d es)
  unfolding put_entry find_entry
  put_entry-AreSaved d [] [] w h = (refl, w, refl, refl, tt)
  put_entry-AreSaved d [] (e ∷ es) w h = absurd h
  put_entry-AreSaved d (f ∷ fs) [] w h = absurd h
  put_entry-AreSaved d ((path, content) ∷ fs) ((name, d') ∷ es) w (p, c, n, fresh, rest) =
      elim (Bool-cases (eq_text d.name name)) [
        | inl e ↦
            let q : d.name ≡ name = (eq_text_iff d.name name).0 e in
            let e' : eq_text (schema_file layout d.name) path ≡ true =
              (eq_text_iff _ _).1 (ap (schema_file layout) q ∙ sym p) in
            rw (e, e') (p, w, sym q, fresh, rest)
        | inr e ↦
            let differ : d.name ≢ name = λ q. not_both e ((eq_text_iff d.name name).1 q) in
            let e' : eq_text (schema_file layout d.name) path ≡ false =
              eq_text_ne _ _ (λ q. differ (schema_file-inj layout d.name name (q ∙ p))) in
            rw (e, e')
              (
                p,
                c,
                n,
                find_entry-put_entry_ne name d.name d es (λ q. differ (sym q)) ∙ fresh,
                put_entry-AreSaved d fs es w rest,
              )
      ]

  -- No name is in both lists.
  abbrev AreApart : Schemas D → Schemas D → Type 0
  AreApart done es = (n : Bytes) → (find_entry n done ≡ none) ⊎ (find_entry n es ≡ none)

  load_all-step :
      (path content : Bytes) (d : TableDefinition D) (fs : List (Bytes × Bytes)) (done : Schemas D)
      → has_json_extension path ≡ true
      → read_definition json content ≡ some d
      → load_all json ((path, content) ∷ fs) done ≡ load_all json fs (put_entry d.name d done)
  unfolding load_all
  load_all-step path content d fs done x c = rw (x, c) refl

  load_all-AreSaved :
      (fs : List (Bytes × Bytes)) (es done : Schemas D)
      → AreSaved fs es
      → AreApart done es
      → load_all json fs done ≡ ok (done ++ es)
  unfolding load_all
  load_all-AreSaved [] [] done h apart = ap (λ x. ok x) (sym (append-nil done))
  load_all-AreSaved [] (e ∷ es) done h apart = absurd h
  load_all-AreSaved (f ∷ fs) [] done h apart = absurd h
  load_all-AreSaved ((path, content) ∷ fs) ((name, d) ∷ es) done (p, c, n, fresh, rest) apart =
      let new : find_entry d.name done ≡ none =
        ap (λ k. find_entry k done) (sym n)
        ∙ elim (apart name) [ inl e ↦ e | inr e ↦ absurd (find_entry_head name d es e) ] in
      load_all-step path content d fs done (rw p (has_json_extension-schema_file layout name)) c
      ∙ load_all-AreSaved fs es (put_entry d.name d done) rest (λ m. next m (apart m))
      ∙ ap (λ x. ok (x ++ es)) (put_entry_fresh d.name d done new)
      ∙ ap (λ x. ok x) (append_assoc done ((d.name, d) ∷ []) es)
      ∙ ap (λ x. ok (done ++ (x, d) ∷ es)) (sym n)
    where
      next :
          (m : Bytes)
          → (find_entry m done ≡ none) ⊎ (find_entry m ((name, d) ∷ es) ≡ none)
          → (find_entry m (put_entry d.name d done) ≡ none) ⊎ (find_entry m es ≡ none)
      next m (inr e) = inr (find_entry_tail m name d es e)
      next m (inl e) = elim (Bool-cases (eq_text m d.name)) [
        | inl q ↦ inr (ap (λ k. find_entry k es) ((eq_text_iff m d.name).0 q ∙ sym n) ∙ fresh)
        | inr q ↦ inl (
            find_entry-put_entry_ne m d.name d done (λ r. not_both q ((eq_text_iff m d.name).1 r))
            ∙ e)
      ]

  -- Registries that come from an empty folder by `CreateTable`, each definition being one without a
  -- default of NULL and whose JSON value the library reads back from its text.
  pub data HasCreated : TableRegistry D → Type 0 where
    nothing : HasCreated (record { layout = layout; files = []; schemas = [] })
    created :
        {r r' : TableRegistry D} (table : Bytes) (columns : List (ColumnDefinition D))
        (key : List Bytes) (auto_increment : Bool) (foreign_keys : List ForeignKeyDef)
        (d : TableDefinition D)
        → HasCreated r
        → HasNoNullDefault d.columns
        → json.parse (json.dump (of_table d)) ≡ some (of_table d)
        → create_table json table columns key auto_increment foreign_keys r ≡ ok (d, r')
        → HasCreated r'

  HasCreated-AreSaved :
      (L : IsJsonLibrary json) (r : TableRegistry D)
      → HasCreated r
      → (r.layout ≡ layout) × AreSaved r.files r.schemas
  unfolding create_table save_table
  HasCreated-AreSaved L r nothing = (refl, tt)
  HasCreated-AreSaved L r
        (created {r = before} table columns key auto_increment foreign_keys d h real w e) =
      let (l, saved) = HasCreated-AreSaved L before h in
      let (def, _, e') =
        >>=-ok (table_definition table columns key auto_increment foreign_keys) _ e in
      let both = ok-inj e' in
      let w' =
        subst (λ x. read_definition json (write_definition json x) ≡ some x)
          (sym (ap (λ p. p.0) both)) (read_definition-write_definition json L d real w) in
      let q = ap (λ p. p.1) both in
      subst (λ x. (x.layout ≡ layout) × AreSaved x.files x.schemas) q
        (l, rw l (put_entry-AreSaved def before.files before.schemas w' saved))

  -- After any tables were created in an empty folder, a registry that is made anew from the folder's
  -- files has all the tables of the old one with the same definitions, where no column has the default
  -- NULL, the library's `get` of a value of the type asked for gives the value, and the library reads
  -- the JSON value of each definition back from the text that it writes for it.
  pub HasCreated-open_registry :
      (L : IsJsonLibrary json) (r : TableRegistry D)
      → HasCreated r
      → open_registry json layout r.files ≡ ok r
  unfolding open_registry find_entry
  HasCreated-open_registry L r h =
      let (l, saved) = HasCreated-AreSaved L r h in
      rw (load_all-AreSaved r.files r.schemas [] saved (λ n. inl refl), ← l) refl
