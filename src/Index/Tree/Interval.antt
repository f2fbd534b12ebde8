-- ===== src/Index/Tree/Interval.antt =====
-- The interval of a range query, and what lies beyond its end.
use akatsuki_db.Base.{
  ◌≡◌, refl, sym, ap, ◌∙◌, Bool, true, false, not, ◌&&◌, ◌||◌, Bool-cases, not_both, inl, inr, List,
  [], ◌∷◌, Bytes, ℤ, length, arith, if◌then◌else◌, eqb_ℤ,
}
use akatsuki_db.Index.Key.{IndexKey, mk_key, greater_equal, less, greater, equal, compare_bytes}
use akatsuki_db.Index.Node.{InsertEntry}
use akatsuki_db.Index.Node.Search.{greater_equal_trans}
use akatsuki_db.Index.Tree.Query.{RowLocations}

-- The interval from `start` to `end`, open or closed at either end.
unfoldable pub is_within : IndexKey → IndexKey → Bool → Bool → IndexKey → Bool
is_within start end start_open end_open k =
    not (less k start)
    && not (start_open && equal k start)
    && not (greater k end || end_open && equal k end)

-- The rows of the entries whose keys pass a test.
unfoldable pub locations : (IndexKey → Bool) → List InsertEntry → RowLocations
locations test [] = []
locations test (e ∷ es) =
    let rest = locations test es in if test e.key then (e.page_id, e.slot_index) ∷ rest else rest

-- `a > b` is `!(b >= a)`, and `a >= b` is `a > b || a == b`.
pub greater_flip :
    (s t : Bytes)
    → length s ≡ length t
    → greater (mk_key s) (mk_key t) ≡ not (greater_equal (mk_key t) (mk_key s))
unfolding compare_bytes
greater_flip [] [] e = refl
greater_flip [] (b ∷ t) e = absurd (omega arith)
greater_flip (a ∷ s) [] e = absurd (omega arith)
greater_flip (a ∷ s) (b ∷ t) e = let ih = greater_flip s t (omega arith) in ground arith

pub greater_or_equal : (a b : IndexKey) → (greater a b || equal a b) ≡ greater_equal a b
unfolding eqb_ℤ
greater_or_equal a b = ground arith

beyond_from :
    (open' gk ek gj ej k j : Bool)
    → (gk || ek) ≡ k
    → (gj || ej) ≡ j
    → (j ≡ true → k ≡ true)
    → (gj ≡ true → gk ≡ true)
    → (gj || open' && ej) ≡ true
    → (gk || open' && ek) ≡ true
beyond_from open' gk ek gj ej k j a b up strict h = ground arith

module _ (end : IndexKey) (end_open : Bool) (sized : length end.bytes ≡ 128) where
  unfoldable pub is_beyond : IndexKey → Bool
  is_beyond k = greater k end || end_open && equal k end

  -- What is not less than a key beyond the end is beyond it too.
  pub is_beyond_up :
      (j k : IndexKey)
      → length j.bytes ≡ 128
      → length k.bytes ≡ 128
      → greater_equal k j ≡ true
      → is_beyond j ≡ true
      → is_beyond k ≡ true
  unfolding is_beyond
  is_beyond_up j k lj lk h b =
      let fj = greater_flip j.bytes end.bytes (lj ∙ sym sized) in
      let fk = greater_flip k.bytes end.bytes (lk ∙ sym sized) in
      let gj = greater_or_equal j end in
      let gk = greater_or_equal k end in
      let up = greater_equal_trans k.bytes j.bytes end.bytes (lk ∙ sym lj) (lj ∙ sym sized) h in
      beyond_from end_open (greater k end) (equal k end) (greater j end) (equal j end)
        (greater_equal k end) (greater_equal j end) gk gj up
        (λ g. elim (Bool-cases (greater_equal end k)) [
          | inl q ↦
              let r =
                greater_equal_trans end.bytes k.bytes j.bytes (sized ∙ sym lk) (lk ∙ sym lj) q h in
              absurd (not_both (fj ∙ ap not r) g)
          | inr q ↦ fk ∙ ap not q
        ])
        b

-- The choices of the scan and of the specification at one entry: whether it is beyond the end, whether
-- it is the open start, whether it is within.
pub first_of :
    (b s : Bool) (found : RowLocations) (stopped : Bool) (at : ℤ × ℤ)
    → (if◌then◌else◌ {A = RowLocations × Bool} b
        ([], true)
        (if s then (found, stopped) else (at ∷ found, stopped))).0
      ≡ (if b then [] else if s then found else at ∷ found)
first_of true s found stopped at = refl
first_of false true found stopped at = refl
first_of false false found stopped at = refl

pub second_of :
    (b s : Bool) (found : RowLocations) (stopped : Bool) (at : ℤ × ℤ)
    → b ≡ false
    → (if◌then◌else◌ {A = RowLocations × Bool} b
        ([], true)
        (if s then (found, stopped) else (at ∷ found, stopped))).1
      ≡ stopped
second_of b true found stopped at e = rw e refl
second_of b false found stopped at e = rw e refl

pub ended :
    (b s w : Bool) (found rest : RowLocations) (at : ℤ × ℤ)
    → b ≡ true
    → w ≡ false
    → rest ≡ []
    → (if b then [] else if s then found else at ∷ found) ≡ (if w then at ∷ rest else rest)
ended b s w found rest at p q r = rw (p, q) (sym r)

pub goes_on :
    (b s w : Bool) (found rest : RowLocations) (at : ℤ × ℤ)
    → b ≡ false
    → w ≡ not s
    → found ≡ rest
    → (if b then [] else if s then found else at ∷ found) ≡ (if w then at ∷ rest else rest)
goes_on b true w found rest at p q r = rw (p, q) r
goes_on b false w found rest at p q r = rw (p, q) (ap (λ xs. at ∷ xs) r)
