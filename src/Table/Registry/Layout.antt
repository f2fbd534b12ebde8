-- ===== src/Table/Registry/Layout.antt =====
-- Where `CreateTable` places the columns.
use akatsuki_db.Base.{
  not_both, ℕ, zero, suc, ◌+◌, ◌≡◌, refl, ◌∙◌, ◌≢◌, Bool, false, ◌<◌, some, List, [], ◌∷◌, Bytes,
  pos, arith, ok, >>=-ok, ok-inj, get_elem?,
}
use mathlib.Core.Path.{subst}
use akatsuki_db.Query.Text.{eq_text, eq_text_iff}
use akatsuki_db.Query.Schema.{ColumnDefinition, ForeignKeyDef, TableDefinition}
use akatsuki_db.Table.Registry.{type_size, has_name, check_names, place_columns, table_definition}

not_seen :
    (n : Bytes) (seen : List Bytes) (m : Bytes)
    → has_name n (m ∷ seen) ≡ false
    → (eq_text m n ≡ false) × (has_name n seen ≡ false)
unfolding has_name
not_seen n seen m h = ground arith

module _ {D : Type 0} where
  -- The columns lie one behind the other from `off` on, each as long as its type asks, up to `end`.
  abbrev pub AreLaidOut : ℕ → List (ColumnDefinition D) → ℕ → Type 0
  AreLaidOut off [] end = off ≡ end
  AreLaidOut off (c ∷ cs) end =
      (n : ℕ) × (type_size c.column_type ≡ ok n)
      × (c.offset ≡ pos off)
      × (c.size ≡ pos n)
      × AreLaidOut (off + n) cs end

  -- A column that is placed keeps everything but its offset and its size.
  abbrev pub placed_as : ColumnDefinition D → ColumnDefinition D → ColumnDefinition D
  placed_as c p = record c { offset = p.offset; size = p.size }

  abbrev pub ArePlaced : List (ColumnDefinition D) → List (ColumnDefinition D) → Type 0
  ArePlaced [] [] = Unit {0}
  ArePlaced [] (p ∷ ps) = ⊥
  ArePlaced (c ∷ cs) [] = ⊥
  ArePlaced (c ∷ cs) (p ∷ ps) = (p ≡ placed_as c p) × ArePlaced cs ps

  place_columns-AreLaidOut :
      (off : ℕ) (cs placed : List (ColumnDefinition D)) (end : ℕ)
      → place_columns off cs ≡ ok (placed, end)
      → AreLaidOut off placed end × ArePlaced cs placed
  unfolding place_columns
  place_columns-AreLaidOut off [] placed end h =
      let e = ok-inj h in subst (λ p. AreLaidOut off p.0 p.1 × ArePlaced [] p.0) e (refl, tt)
  place_columns-AreLaidOut off (c ∷ cs) placed end h =
      let (n, en, h') = >>=-ok (type_size c.column_type) _ h in
      let ((ps, last), ep, h'') = >>=-ok (place_columns (off + n) cs) _ h' in
      let (laid, kept) = place_columns-AreLaidOut (off + n) cs ps last ep in
      subst (λ p. AreLaidOut off p.0 p.1 × ArePlaced (c ∷ cs) p.0) (ok-inj h'')
        ((n, en, refl, refl, laid), (refl, kept))

  check_names-cons :
      (seen : List Bytes) (c : ColumnDefinition D) (cs : List (ColumnDefinition D)) (r : List Bytes)
      → check_names seen (c ∷ cs) ≡ ok r
      → (has_name c.name seen ≡ false) × (check_names (c.name ∷ seen) cs ≡ ok r)
  unfolding check_names
  check_names-cons seen c cs r h = ground arith

  check_names-fresh :
      (seen : List Bytes) (cs : List (ColumnDefinition D)) (r : List Bytes)
      → check_names seen cs ≡ ok r
      → (i : ℕ) (c : ColumnDefinition D) → get_elem? cs i ≡ some c
      → has_name c.name seen ≡ false
  check_names-fresh seen [] r h i c e = absurd (ground arith)
  check_names-fresh seen (x ∷ cs) r h zero c e =
      let (f, _) = check_names-cons seen x cs r h in subst (λ y. has_name y seen ≡ false) (name e) f
    where
      name : some x ≡ some c → x.name ≡ c.name
      name e = ground arith
  check_names-fresh seen (x ∷ cs) r h (suc i) c e =
      let (_, h') = check_names-cons seen x cs r h in
      (not_seen c.name seen x.name (check_names-fresh (x.name ∷ seen) cs r h' i c e)).1

  -- No two columns have one name.
  abbrev pub AreDistinctNames : List (ColumnDefinition D) → Type 0
  AreDistinctNames cs =
      (i j : ℕ) (c d : ColumnDefinition D)
      → i < j
      → get_elem? cs i ≡ some c
      → get_elem? cs j ≡ some d
      → c.name ≢ d.name

  check_names-distinct :
      (seen : List Bytes) (cs : List (ColumnDefinition D)) (r : List Bytes)
      → check_names seen cs ≡ ok r
      → AreDistinctNames cs
  check_names-distinct seen [] r h i j c d l ei ej = absurd (ground arith)
  check_names-distinct seen (x ∷ cs) r h i zero c d l ei ej = absurd (omega arith)
  check_names-distinct seen (x ∷ cs) r h zero (suc j) c d l ei ej =
      let (_, h') = check_names-cons seen x cs r h in
      let (differ, _) =
        not_seen d.name seen x.name (check_names-fresh (x.name ∷ seen) cs r h' j d ej) in
      λ e. not_both differ ((eq_text_iff x.name d.name).1 (name ei ∙ e))
    where
      name : some x ≡ some c → x.name ≡ c.name
      name e = ground arith
  check_names-distinct seen (x ∷ cs) r h (suc i) (suc j) c d l ei ej =
      let (_, h') = check_names-cons seen x cs r h in
      check_names-distinct (x.name ∷ seen) cs r h' i j c d (omega arith) ei ej

  -- Where `CreateTable` makes a definition, no two of the columns asked for have one name; each of
  -- them is kept but for its offset and its size; the columns lie one behind the other from 0 on, each
  -- as long as its type asks; and behind them come 10 bytes, which end the row.
  pub table_definition-layout :
      (table : Bytes) (columns : List (ColumnDefinition D)) (key : List Bytes)
      (auto_increment : Bool) (foreign_keys : List ForeignKeyDef) (def : TableDefinition D)
      → table_definition table columns key auto_increment foreign_keys ≡ ok def
      → AreDistinctNames columns
        × ArePlaced columns def.columns
        × ((end : ℕ) × AreLaidOut 0 def.columns end × (def.row_size_bytes ≡ pos (end + 10)))
  unfolding table_definition
  table_definition-layout table columns key auto_increment foreign_keys def h =
      let (r, er, h') = >>=-ok (check_names [] columns) _ h in
      let ((placed, end), ep, h'') = >>=-ok (place_columns 0 columns) _ h' in
      let (laid, kept) = place_columns-AreLaidOut 0 columns placed end ep in
      subst
        (λ d.
          AreDistinctNames columns
          × ArePlaced columns d.columns
          × ((end : ℕ) × AreLaidOut 0 d.columns end × (d.row_size_bytes ≡ pos (end + 10))))
        (ok-inj h'') (check_names-distinct [] columns r er, kept, (end, laid, refl))
