-- ===== src/Index/Node/Ordered.antt =====
-- Lists of entries whose keys do not fall.
use akatsuki_db.Base.{
  ℕ, zero, suc, ◌≤◌, ◌<◌, ◌≡◌, refl, sym, ap, ◌∙◌, true, false, Bool-cases, inl, inr, List, [], ◌∷◌,
  Bytes, length, arith,
}
use akatsuki_db.Index.Key.{IndexKey, mk_key, greater_equal, equal, compare_bytes}
use akatsuki_db.Index.Key.Order.{compare_bytes_self}
use akatsuki_db.Index.Node.{InsertEntry}
use akatsuki_db.Index.Node.Search.{greater_equal_trans}
use akatsuki_db.Index.Node.Lists.{tabulate, insert_sorted, remove_first}

-- Of two keys of one length one is not less than the other.
pub greater_equal_total :
    (s t : Bytes)
    → length s ≡ length t
    → greater_equal (mk_key s) (mk_key t) ≡ false
    → greater_equal (mk_key t) (mk_key s) ≡ true
unfolding compare_bytes
greater_equal_total [] t e h = absurd (ground arith)
greater_equal_total (a ∷ s) [] e h = absurd (omega arith)
greater_equal_total (a ∷ s) (b ∷ t) e h =
    let ih = greater_equal_total s t (omega arith) in ground arith

greater_equal_self : (k : IndexKey) → greater_equal k k ≡ true
greater_equal_self k = let e = compare_bytes_self k.bytes in rw e refl

unfoldable pub AreNotLess : IndexKey → List InsertEntry → Type 0
AreNotLess k [] = Unit {0}
AreNotLess k (x ∷ xs) = (greater_equal x.key k ≡ true) × AreNotLess k xs

unfoldable pub AreSorted : List InsertEntry → Type 0
AreSorted [] = Unit {0}
AreSorted (x ∷ xs) = AreNotLess x.key xs × AreSorted xs

unfoldable pub HaveWholeKeys : List InsertEntry → Type 0
HaveWholeKeys [] = Unit {0}
HaveWholeKeys (x ∷ xs) = (length x.key.bytes ≡ 128) × HaveWholeKeys xs

AreNotLess-trans :
    (j k : IndexKey) (es : List InsertEntry)
    → HaveWholeKeys es
    → length j.bytes ≡ 128
    → length k.bytes ≡ 128
    → greater_equal k j ≡ true
    → AreNotLess k es
    → AreNotLess j es
unfolding AreNotLess HaveWholeKeys
AreNotLess-trans j k [] w a b h n = tt
AreNotLess-trans j k (x ∷ xs) (w, ws) a b h (n, ns) = (
  greater_equal_trans x.key.bytes k.bytes j.bytes (w ∙ sym b) (b ∙ sym a) n h,
  AreNotLess-trans j k xs ws a b h ns,
)

insert_sorted-AreNotLess :
    (k : IndexKey) (e : InsertEntry) (es : List InsertEntry)
    → greater_equal e.key k ≡ true
    → AreNotLess k es
    → AreNotLess k (insert_sorted e es)
unfolding insert_sorted AreNotLess
insert_sorted-AreNotLess k e [] h n = (h, tt)
insert_sorted-AreNotLess k e (x ∷ xs) h (n, ns) = elim (Bool-cases (greater_equal x.key e.key)) [
  | inl q ↦ rw q (h, (n, ns))
  | inr q ↦ rw q (n, insert_sorted-AreNotLess k e xs h ns)
]

pub insert_sorted-AreSorted :
    (e : InsertEntry) (es : List InsertEntry)
    → length e.key.bytes ≡ 128
    → HaveWholeKeys es
    → AreSorted es
    → AreSorted (insert_sorted e es)
unfolding insert_sorted AreSorted HaveWholeKeys AreNotLess
insert_sorted-AreSorted e [] w ws s = (tt, tt)
insert_sorted-AreSorted e (x ∷ xs) w (wx, ws) (n, s) =
    elim (Bool-cases (greater_equal x.key e.key)) [
      | inl q ↦ rw q ((q, AreNotLess-trans e.key x.key xs ws w wx q n), (n, s))
      | inr q ↦ rw q (
        insert_sorted-AreNotLess x.key e xs
            (greater_equal_total x.key.bytes e.key.bytes (wx ∙ sym w) q) n,
        insert_sorted-AreSorted e xs w ws s,
      )
    ]

remove_first-AreNotLess :
    (k key : IndexKey) (es : List InsertEntry)
    → AreNotLess k es
    → AreNotLess k (remove_first key es)
unfolding remove_first AreNotLess
remove_first-AreNotLess k key [] n = tt
remove_first-AreNotLess k key (x ∷ xs) (n, ns) = elim (Bool-cases (equal x.key key)) [
  | inl q ↦ rw q ns
  | inr q ↦ rw q (n, remove_first-AreNotLess k key xs ns)
]

pub remove_first-AreSorted :
    (key : IndexKey) (es : List InsertEntry) → AreSorted es → AreSorted (remove_first key es)
unfolding remove_first AreSorted
remove_first-AreSorted key [] s = tt
remove_first-AreSorted key (x ∷ xs) (n, s) = elim (Bool-cases (equal x.key key)) [
  | inl q ↦ rw q s
  | inr q ↦ rw q (remove_first-AreNotLess x.key key xs n, remove_first-AreSorted key xs s)
]

pub length-insert_sorted :
    (e : InsertEntry) (es : List InsertEntry) → length (insert_sorted e es) ≡ suc (length es)
unfolding insert_sorted
length-insert_sorted e [] = refl
length-insert_sorted e (x ∷ xs) = let ih = length-insert_sorted e xs in ground arith

pub length-remove_first :
    (key : IndexKey) (es : List InsertEntry) → length (remove_first key es) ≤ length es
unfolding remove_first
length-remove_first key [] = omega arith
length-remove_first key (x ∷ xs) = let ih = length-remove_first key xs in ground arith

-- From a function's first values to their list, and back.
pub length-tabulate : (n : ℕ) (f : ℕ → InsertEntry) → length (tabulate n f) ≡ n
unfolding tabulate
length-tabulate zero f = refl
length-tabulate (suc n) f = ap suc (length-tabulate n (λ i. f (suc i)))

pub tabulate-HaveWholeKeys :
    (n : ℕ) (f : ℕ → InsertEntry)
    → ((i : ℕ) → i < n → length (f i).key.bytes ≡ 128)
    → HaveWholeKeys (tabulate n f)
unfolding tabulate HaveWholeKeys
tabulate-HaveWholeKeys zero f h = tt
tabulate-HaveWholeKeys (suc n) f h =
    (h 0 (omega arith), tabulate-HaveWholeKeys n (λ i. f (suc i)) (λ i l. h (suc i) (omega arith)))

tabulate-AreNotLess :
    (n : ℕ) (k : IndexKey) (f : ℕ → InsertEntry)
    → ((i : ℕ) → i < n → greater_equal (f i).key k ≡ true)
    → AreNotLess k (tabulate n f)
unfolding tabulate AreNotLess
tabulate-AreNotLess zero k f h = tt
tabulate-AreNotLess (suc n) k f h =
    (h 0 (omega arith), tabulate-AreNotLess n k (λ i. f (suc i)) (λ i l. h (suc i) (omega arith)))

pub tabulate-AreSorted :
    (n : ℕ) (f : ℕ → InsertEntry)
    → ((i j : ℕ) → i ≤ j → j < n → greater_equal (f j).key (f i).key ≡ true)
    → AreSorted (tabulate n f)
unfolding tabulate AreSorted
tabulate-AreSorted zero f h = tt
tabulate-AreSorted (suc n) f h = (
  tabulate-AreNotLess n (f 0).key (λ i. f (suc i)) (λ i l. h 0 (suc i) (omega arith) (omega arith)),
  tabulate-AreSorted n (λ i. f (suc i)) (λ i j a b. h (suc i) (suc j) (omega arith) (omega arith)),
)

AreNotLess-tabulate :
    (n : ℕ) (k : IndexKey) (f : ℕ → InsertEntry)
    → AreNotLess k (tabulate n f)
    → (i : ℕ) → i < n
    → greater_equal (f i).key k ≡ true
unfolding tabulate AreNotLess
AreNotLess-tabulate zero k f h i l = absurd (omega arith)
AreNotLess-tabulate (suc n) k f (h, hs) zero l = h
AreNotLess-tabulate (suc n) k f (h, hs) (suc i) l =
    AreNotLess-tabulate n k (λ i. f (suc i)) hs i (omega arith)

pub AreSorted-tabulate :
    (n : ℕ) (f : ℕ → InsertEntry)
    → AreSorted (tabulate n f)
    → (i j : ℕ) → i ≤ j
    → j < n
    → greater_equal (f j).key (f i).key ≡ true
unfolding tabulate AreSorted
AreSorted-tabulate zero f s i j a b = absurd (omega arith)
AreSorted-tabulate (suc n) f (h, s) zero zero a b = greater_equal_self (f 0).key
AreSorted-tabulate (suc n) f (h, s) zero (suc j) a b =
    AreNotLess-tabulate n (f 0).key (λ i. f (suc i)) h j (omega arith)
AreSorted-tabulate (suc n) f (h, s) (suc i) zero a b = absurd (omega arith)
AreSorted-tabulate (suc n) f (h, s) (suc i) (suc j) a b =
    AreSorted-tabulate n (λ i. f (suc i)) s i j (omega arith) (omega arith)
