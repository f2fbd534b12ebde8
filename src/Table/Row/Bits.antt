-- ===== src/Table/Row/Bits.antt =====
-- The bitmap of the NULL columns.
use akatsuki_db.Base.{
  not_both, ℕ, zero, suc, ◌+◌, ◌*◌, ◌/◌, ◌%◌, ◌<◌, ◌≡◌, refl, sym, ap, ◌∙◌, ◌≢◌, inl, inr, true,
  false, Bool-cases, List, [], ◌∷◌, Bytes, ◌==◌, ==_iff, length, length-set, get_or, set, replicate,
  arith,
}
use akatsuki_db.Table.Row.{set_bit, bit, set_null, test_null}

module _ {ℓ} {A : Type ℓ} where
  pub get_or-set_self :
      (xs : List A) (i : ℕ) (v d : A) → i < length xs → get_or (set xs i v) i d ≡ v
  get_or-set_self [] i v d h = absurd (omega arith)
  get_or-set_self (x ∷ xs) zero v d h = refl
  get_or-set_self (x ∷ xs) (suc i) v d h = get_or-set_self xs i v d (omega arith)

  get_or-set_ne :
      (xs : List A) (i j : ℕ) (v d : A) → i ≢ j → get_or (set xs i v) j d ≡ get_or xs j d
  get_or-set_ne [] i j v d h = refl
  get_or-set_ne (x ∷ xs) zero zero v d h = absurd (h refl)
  get_or-set_ne (x ∷ xs) zero (suc j) v d h = refl
  get_or-set_ne (x ∷ xs) (suc i) zero v d h = refl
  get_or-set_ne (x ∷ xs) (suc i) (suc j) v d h = get_or-set_ne xs i j v d (λ e. h (ap suc e))

  pub get_or-replicate : (n i : ℕ) (d : A) → get_or (replicate n d) i d ≡ d
  get_or-replicate zero i d = refl
  get_or-replicate (suc n) zero d = refl
  get_or-replicate (suc n) (suc i) d = get_or-replicate n i d

bit-set_bit_self : (b k : ℕ) → bit (set_bit b k) k ≡ true
unfolding bit set_bit
bit-set_bit_self b zero = ground arith
bit-set_bit_self b (suc k) =
    ap (λ x. bit x k) (half (set_bit (b / 2) k) (b % 2) (omega arith)) ∙ bit-set_bit_self (b / 2) k
  where
    half : (x r : ℕ) → r < 2 → (x * 2 + r) / 2 ≡ x
    half x r h = omega arith

bit-set_bit_ne : (b k j : ℕ) → k ≢ j → bit (set_bit b k) j ≡ bit b j
unfolding bit set_bit
bit-set_bit_ne b zero zero h = absurd (h refl)
bit-set_bit_ne b zero (suc j) h = ap (λ x. bit x j) (ground arith)
bit-set_bit_ne b (suc k) zero h = ap (λ x. x == 1) (odd (set_bit (b / 2) k) (b % 2) (omega arith))
  where
    odd : (x r : ℕ) → r < 2 → (x * 2 + r) % 2 ≡ r
    odd x r h = omega arith
bit-set_bit_ne b (suc k) (suc j) h =
    ap (λ x. bit x j) (half (set_bit (b / 2) k) (b % 2) (omega arith))
    ∙ bit-set_bit_ne (b / 2) k j (λ e. h (ap suc e))
  where
    half : (x r : ℕ) → r < 2 → (x * 2 + r) / 2 ≡ x
    half x r h = omega arith

bit-zero : (k : ℕ) → bit 0 k ≡ false
unfolding bit
bit-zero zero = refl
bit-zero (suc k) = bit-zero k

pub test_null-replicate : (n i : ℕ) → test_null i (replicate n 0) ≡ false
unfolding test_null
test_null-replicate n i = ap (λ x. bit x (i % 8)) (get_or-replicate n (i / 8) 0) ∙ bit-zero (i % 8)

pub length-set_null : (i : ℕ) (bitmap : Bytes) → length (set_null i bitmap) ≡ length bitmap
unfolding set_null
length-set_null i bitmap = length-set bitmap (i / 8) (set_bit (get_or bitmap (i / 8) 0) (i % 8))

module _ (bitmap : Bytes) (i : ℕ) where
  pub test_null-set_null_self : i / 8 < length bitmap → test_null i (set_null i bitmap) ≡ true
  unfolding test_null set_null
  test_null-set_null_self h =
      ap (λ x. bit x (i % 8))
        (get_or-set_self bitmap (i / 8) (set_bit (get_or bitmap (i / 8) 0) (i % 8)) 0 h)
      ∙ bit-set_bit_self (get_or bitmap (i / 8) 0) (i % 8)

  pub test_null-set_null_ne :
      (j : ℕ) → i ≢ j → i / 8 < length bitmap → test_null j (set_null i bitmap) ≡ test_null j bitmap
  unfolding test_null set_null
  test_null-set_null_ne j h inside = elim (Bool-cases (i / 8 == j / 8)) [
    | inl e ↦
        let e' : i / 8 ≡ j / 8 = (==_iff (i / 8) (j / 8)).0 e in
        let w = set_bit (get_or bitmap (i / 8) 0) (i % 8) in
        ap (λ x. bit (get_or (set bitmap (i / 8) w) x 0) (j % 8)) (sym e')
        ∙ ap (λ x. bit x (j % 8)) (get_or-set_self bitmap (i / 8) w 0 inside)
        ∙ bit-set_bit_ne (get_or bitmap (i / 8) 0) (i % 8) (j % 8) (λ r. h (omega (arith, e', r)))
        ∙ ap (λ x. bit (get_or bitmap x 0) (j % 8)) e'
    | inr ne ↦
        ap (λ x. bit x (j % 8))
          (get_or-set_ne bitmap (i / 8) (j / 8) (set_bit (get_or bitmap (i / 8) 0) (i % 8)) 0
            (λ e. not_both ne ((==_iff (i / 8) (j / 8)).1 e)))
  ]
