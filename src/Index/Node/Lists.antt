-- ===== src/Index/Node/Lists.antt =====
-- Lists of entries that are sorted by their keys, without a page.
use akatsuki_db.Base.{
  ℕ, zero, suc, ◌≤◌, ◌<◌, ◌≡◌, refl, sym, ap, ◌∙◌, Bool, true, false, ◌||◌, List, [], ◌∷◌,
  if◌then◌else◌, arith,
}
use akatsuki_db.Index.Key.{IndexKey, greater_equal, equal}
use akatsuki_db.Index.Node.{InsertEntry}

-- The list of the first values of a function.
unfoldable pub tabulate {ℓ} : {A : Type ℓ} → ℕ → (ℕ → A) → List A
tabulate zero f = []
tabulate (suc n) f = f 0 ∷ tabulate n (λ i. f (suc i))

unfoldable pub insert_sorted : InsertEntry → List InsertEntry → List InsertEntry
insert_sorted e [] = e ∷ []
insert_sorted e (x ∷ xs) =
    let rest = insert_sorted e xs in if greater_equal x.key e.key then e ∷ x ∷ xs else x ∷ rest

unfoldable pub remove_first : IndexKey → List InsertEntry → List InsertEntry
remove_first key [] = []
remove_first key (x ∷ xs) =
    let rest = remove_first key xs in if equal x.key key then xs else x ∷ rest

pub tabulate-ext {ℓ} :
    {A : Type ℓ} (n : ℕ) (f g : ℕ → A) → ((i : ℕ) → i < n → f i ≡ g i) → tabulate n f ≡ tabulate n g
unfolding tabulate
tabulate-ext zero f g h = refl
tabulate-ext (suc n) f g h =
    rw
      (
        h 0 (omega arith),
        tabulate-ext n (λ i. f (suc i)) (λ i. g (suc i)) (λ i l. h (suc i) (omega arith)),
      )
      refl

pub insert_sorted-tabulate :
    (n k : ℕ) (e : InsertEntry) (f g : ℕ → InsertEntry)
    → k ≤ n
    → ((i : ℕ) → i < k → greater_equal (f i).key e.key ≡ false)
    → ((i : ℕ) → k ≤ i → i < n → greater_equal (f i).key e.key ≡ true)
    → ((i : ℕ) → i < k → g i ≡ f i)
    → g k ≡ e
    → ((i : ℕ) → k ≤ i → i < n → g (suc i) ≡ f i)
    → insert_sorted e (tabulate n f) ≡ tabulate (suc n) g
unfolding insert_sorted tabulate
insert_sorted-tabulate zero zero e f g h before from low mid high = ap (λ x. x ∷ []) (sym mid)
insert_sorted-tabulate zero (suc k) e f g h before from low mid high = absurd (omega arith)
insert_sorted-tabulate (suc n) zero e f g h before from low mid high =
    rw (from 0 (omega arith) (omega arith)) (
      ap (λ x. x ∷ f 0 ∷ tabulate n (λ i. f (suc i))) (sym mid)
      ∙ ap (λ x. g 0 ∷ x ∷ tabulate n (λ i. f (suc i))) (sym (high 0 (omega arith) (omega arith)))
      ∙ ap (λ xs. g 0 ∷ g 1 ∷ xs)
          (tabulate-ext n (λ i. f (suc i)) (λ i. g (suc (suc i)))
            (λ i l. sym (high (suc i) (omega arith) (omega arith)))))
insert_sorted-tabulate (suc n) (suc k) e f g h before from low mid high =
    rw (before 0 (omega arith)) (
      ap (λ x. x ∷ insert_sorted e (tabulate n (λ i. f (suc i)))) (sym (low 0 (omega arith)))
      ∙ ap (λ xs. g 0 ∷ xs)
          (insert_sorted-tabulate n k e (λ i. f (suc i)) (λ i. g (suc i)) (omega arith)
            (λ i l. before (suc i) (omega arith))
            (λ i a b. from (suc i) (omega arith) (omega arith)) (λ i l. low (suc i) (omega arith))
            mid (λ i a b. high (suc i) (omega arith) (omega arith))))

pub remove_first-tabulate :
    (n k : ℕ) (key : IndexKey) (f g : ℕ → InsertEntry)
    → k ≤ n
    → ((i : ℕ) → i < k → equal (f i).key key ≡ false)
    → equal (f k).key key ≡ true
    → ((i : ℕ) → i < k → g i ≡ f i)
    → ((i : ℕ) → k ≤ i → i < n → g i ≡ f (suc i))
    → remove_first key (tabulate (suc n) f) ≡ tabulate n g
unfolding remove_first tabulate
remove_first-tabulate n zero key f g h before at low high =
    rw at (tabulate-ext n (λ i. f (suc i)) g (λ i l. sym (high i (omega arith) l)))
remove_first-tabulate zero (suc k) key f g h before at low high = absurd (omega arith)
remove_first-tabulate (suc n) (suc k) key f g h before at low high = rw (before 0 (omega arith)) (
    ap (λ x. x ∷ remove_first key (tabulate (suc n) (λ i. f (suc i)))) (sym (low 0 (omega arith)))
    ∙ ap (λ xs. g 0 ∷ xs)
        (remove_first-tabulate n k key (λ i. f (suc i)) (λ i. g (suc i)) (omega arith)
          (λ i l. before (suc i) (omega arith)) at (λ i l. low (suc i) (omega arith))
          (λ i a b. high (suc i) (omega arith) (omega arith))))

unfoldable pub has_key : IndexKey → List InsertEntry → Bool
has_key key [] = false
has_key key (x ∷ xs) = equal x.key key || has_key key xs

pub has_key-tabulate :
    (n k : ℕ) (key : IndexKey) (f : ℕ → InsertEntry)
    → k < n
    → equal (f k).key key ≡ true
    → has_key key (tabulate n f) ≡ true
unfolding has_key tabulate
has_key-tabulate zero k key f h e = absurd (omega arith)
has_key-tabulate (suc n) zero key f h e = rw e refl
has_key-tabulate (suc n) (suc k) key f h e =
    let rest = has_key-tabulate n k key (λ i. f (suc i)) (omega arith) e in ground arith

pub remove_first-absent :
    (n : ℕ) (key : IndexKey) (f : ℕ → InsertEntry)
    → ((i : ℕ) → i < n → equal (f i).key key ≡ false)
    → (has_key key (tabulate n f) ≡ false) × (remove_first key (tabulate n f) ≡ tabulate n f)
unfolding remove_first has_key tabulate
remove_first-absent zero key f h = (refl, refl)
remove_first-absent (suc n) key f h =
    let (a, b) = remove_first-absent n key (λ i. f (suc i)) (λ i l. h (suc i) (omega arith)) in
    let e = h 0 (omega arith) in rw (e, a, b) (refl, refl)
