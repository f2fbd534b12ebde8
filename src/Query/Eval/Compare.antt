-- ===== src/Query/Eval/Compare.antt =====
-- `Executor::Compare`: how its six operators hang together.
use akatsuki_db.Base.{
  ◌≡◌, refl, ◌⊎◌, inl, inr, Bool, true, false, not, ◌&&◌, ◌||◌, Option, none, some, [], ◌∷◌, Bytes,
  ℤ, pos, negsuc, eqb_ℤ, arith, if◌then◌else◌,
}
use akatsuki_db.Query.Text.{eq_text, char_less}
use akatsuki_db.Query.Word
use akatsuki_db.Query.Expression.{Value}
use akatsuki_db.Query.Eval.{
  Numbers, is_null_value, compare_text, try_double, to_text, compare_double, compare_any,
  test_order, compare_values,
}

abbrev IsSign : ℤ → Type 0
IsSign c = (c ≡ negsuc 0) ⊎ ((c ≡ pos 0) ⊎ (c ≡ pos 1))

compare_text-IsSign : (s t : Bytes) → IsSign (compare_text s t)
unfolding compare_text
compare_text-IsSign [] [] = inr (inl refl)
compare_text-IsSign [] (d ∷ t) = inl refl
compare_text-IsSign (c ∷ s) [] = inr (inr refl)
compare_text-IsSign (c ∷ s) (d ∷ t) =
    by_tests (char_less c d) (char_less d c) (compare_text-IsSign s t)
  where
    by_tests :
        (a b : Bool) {r : ℤ} → IsSign r → IsSign (if a then negsuc 0 else if b then pos 1 else r)
    by_tests true b h = inl refl
    by_tests false true h = inr (inr refl)
    by_tests false false h = h

module _ {D : Type 0} (num : Numbers D) where
  compare_any-IsSign : (a b : Value D) → IsSign (compare_any num a b)
  unfolding compare_any compare_double
  compare_any-IsSign a b = by_numbers (try_double num a) (try_double num b)
    where
      by_tests : (x y : Bool) → IsSign (if x then negsuc 0 else if y then pos 1 else pos 0)
      by_tests true y = inl refl
      by_tests false true = inr (inr refl)
      by_tests false false = inr (inl refl)

      by_numbers :
          (o o' : Option D)
          → IsSign (elim o [
            | some x ↦ elim o' [
              | some y ↦ if num.less x y then negsuc 0 else if num.less y x then pos 1 else pos 0
              | none ↦ compare_text (to_text num a) (to_text num b)
            ]
            | none ↦ compare_text (to_text num a) (to_text num b)
          ])
      by_numbers (some x) (some y) = by_tests (num.less x y) (num.less y x)
      by_numbers (some x) none = compare_text-IsSign (to_text num a) (to_text num b)
      by_numbers none o' = compare_text-IsSign (to_text num a) (to_text num b)

  -- What the orders ask of a sign.
  test_order-dual :
      (c : ℤ)
      → IsSign c
      → (test_order Word.ne c ≡ not (test_order Word.eq c))
        × (test_order Word.ge c ≡ not (test_order Word.lt c))
        × (test_order Word.le c ≡ not (test_order Word.gt c))
  unfolding test_order eq_text eqb_ℤ
  test_order-dual c (inl e) = rw e (refl, refl, refl)
  test_order-dual c (inr (inl e)) = rw e (refl, refl, refl)
  test_order-dual c (inr (inr e)) = rw e (refl, refl, refl)

  -- `!=` is always the negation of `=`. Of two values that are not null, `>=` is the negation of `<`
  -- and `<=` that of `>`; with a null on either side all four are false.
  pub compare_values-dual :
      (a b : Value D)
      → (compare_values num a Word.ne b ≡ not (compare_values num a Word.eq b))
        × ((is_null_value a || is_null_value b) ≡ false
            → (compare_values num a Word.ge b ≡ not (compare_values num a Word.lt b))
              × (compare_values num a Word.le b ≡ not (compare_values num a Word.gt b)))
        × ((is_null_value a || is_null_value b) ≡ true
            → (compare_values num a Word.ge b ≡ false)
              × (compare_values num a Word.lt b ≡ false)
              × (compare_values num a Word.le b ≡ false)
              × (compare_values num a Word.gt b ≡ false))
  unfolding compare_values eq_text
  compare_values-dual a b =
      by_nulls (is_null_value a) (is_null_value b)
        (test_order-dual (compare_any num a b) (compare_any-IsSign a b))
    where
      choice : Bool → Bool → Bytes → Bool
      choice x y op =
          if x && y
          then eq_text op Word.eq
          else if x || y
          then eq_text op Word.ne
          else test_order op (compare_any num a b)

      by_nulls :
          (x y : Bool)
          → (test_order Word.ne (compare_any num a b)
              ≡ not (test_order Word.eq (compare_any num a b)))
            × (test_order Word.ge (compare_any num a b)
                ≡ not (test_order Word.lt (compare_any num a b)))
            × (test_order Word.le (compare_any num a b)
                ≡ not (test_order Word.gt (compare_any num a b)))
          → (choice x y Word.ne ≡ not (choice x y Word.eq))
            × ((x || y) ≡ false
                → (choice x y Word.ge ≡ not (choice x y Word.lt))
                  × (choice x y Word.le ≡ not (choice x y Word.gt)))
            × ((x || y) ≡ true
                → (choice x y Word.ge ≡ false)
                  × (choice x y Word.lt ≡ false)
                  × (choice x y Word.le ≡ false)
                  × (choice x y Word.gt ≡ false))
      by_nulls false false (e, r, s) = (e, (λ h. (r, s)), λ h. absurd (ground arith))
      by_nulls false true d = (refl, (λ h. absurd (ground arith)), λ h. (refl, refl, refl, refl))
      by_nulls true false d = (refl, (λ h. absurd (ground arith)), λ h. (refl, refl, refl, refl))
      by_nulls true true d = (refl, (λ h. absurd (ground arith)), λ h. (refl, refl, refl, refl))
