-- ===== src/Table/Row/Slices.antt =====
-- Reads and writes of parts of a row.
use akatsuki_db.Base.{
  ℕ, zero, suc, ◌+◌, ◌^◌, ◌≤◌, ◌<◌, ◌≡◌, refl, sym, ap, ◌∙◌, [], ◌∷◌, ◌++◌, Bytes, length, take,
  drop, get_or, read_at, write_at, le_bytes, of_le, arith,
}

sucs : (k n : ℕ) → suc k + n ≡ suc (k + n)
sucs k n = omega arith

zeros : (n : ℕ) → suc (0 + n) ≡ 0 + suc n
zeros n = omega arith

take-nil : (n : ℕ) → take {A = ℕ} n [] ≡ []
take-nil zero = refl
take-nil (suc n) = refl

drop-nil : (n : ℕ) → drop {A = ℕ} n [] ≡ []
drop-nil zero = refl
drop-nil (suc n) = refl

-- A part of a read, and a write in two parts.
pub take-read_at : (k n o : ℕ) (bs : Bytes) → k ≤ n → take k (read_at o n bs) ≡ read_at o k bs
unfolding read_at
take-read_at k n o bs h = go k n (drop o bs) h
  where
    go : (k n : ℕ) (xs : Bytes) → k ≤ n → take k (take n xs) ≡ take k xs
    go zero n xs h = refl
    go (suc k) zero xs h = absurd (omega arith)
    go (suc k) (suc n) [] h = refl
    go (suc k) (suc n) (x ∷ xs) h = ap (◌∷◌ x) (go k n xs (omega arith))

pub drop-read_at : (k n o : ℕ) (bs : Bytes) → drop k (read_at o (k + n) bs) ≡ read_at (o + k) n bs
unfolding read_at
drop-read_at k n o bs = go k n (drop o bs) ∙ ap (take n) (twice o k bs)
  where
    go : (k n : ℕ) (xs : Bytes) → drop k (take (k + n) xs) ≡ take n (drop k xs)
    go zero n xs = ap (λ m. take m xs) (omega arith)
    go (suc k) n [] = ap (λ m. drop (suc k) (take {A = ℕ} m [])) (sucs k n) ∙ sym (take-nil n)
    go (suc k) n (x ∷ xs) = ap (λ m. drop (suc k) (take m (x ∷ xs))) (sucs k n) ∙ go k n xs

    twice : (o k : ℕ) (xs : Bytes) → drop k (drop o xs) ≡ drop (o + k) xs
    twice zero k xs = ap (λ m. drop m xs) (omega arith)
    twice (suc o) k [] = drop-nil k ∙ ap (λ m. drop {A = ℕ} m []) (sym (sucs o k))
    twice (suc o) k (x ∷ xs) = twice o k xs ∙ ap (λ m. drop m (x ∷ xs)) (sym (sucs o k))

pub write_at-append :
    (o : ℕ) (xs ys bs : Bytes)
    → o + length xs ≤ length bs
    → write_at o (xs ++ ys) bs ≡ write_at (o + length xs) ys (write_at o xs bs)
unfolding write_at
write_at-append zero [] ys bs h = refl
write_at-append zero (x ∷ xs) ys [] h = absurd (omega arith)
write_at-append zero (x ∷ xs) ys (b ∷ bs) h =
    ap (◌∷◌ x) (write_at-append zero xs ys bs (omega arith))
    ∙ ap (λ m. write_at m ys (x ∷ write_at 0 xs bs)) (zeros (length xs))
write_at-append (suc o) xs ys [] h = absurd (omega arith)
write_at-append (suc o) xs ys (b ∷ bs) h =
    ap (◌∷◌ b) (write_at-append o xs ys bs (omega arith))
    ∙ ap (λ m. write_at m ys (b ∷ write_at o xs bs)) (sym (sucs o (length xs)))

pub write_at-nil : (o : ℕ) (bs : Bytes) → write_at o [] bs ≡ bs
unfolding write_at
write_at-nil zero bs = refl
write_at-nil (suc o) [] = refl
write_at-nil (suc o) (b ∷ bs) = ap (◌∷◌ b) (write_at-nil o bs)

pub of_le-le_bytes8 : (v : ℕ) → v < 2 ^ 64 → of_le (le_bytes 8 v) ≡ v
unfolding of_le le_bytes
of_le-le_bytes8 v h = omega arith

pub get_or-read_at :
    (n o : ℕ) (bs : Bytes) → get_or (read_at o (suc n) bs) 0 0 ≡ get_or (read_at o 1 bs) 0 0
unfolding read_at
get_or-read_at n o bs = go (drop o bs)
  where
    go : (xs : Bytes) → get_or (take (suc n) xs) 0 0 ≡ get_or (take 1 xs) 0 0
    go [] = refl
    go (x ∷ xs) = refl
