-- ===== src/Index/Key/Order.antt =====
-- The order of the keys.
use akatsuki_db.Base.{
  ℕ, ◌-◌, ◌/◌, ◌%◌, ◌^◌, ◌<◌, ◌≡◌, refl, [], ◌∷◌, ◌++◌, Bytes, ℤ, pos, negsuc, arith, ◌<ℤ◌, IsInt,
  leb, replicate, write_at, if◌then◌else◌, Result, ok,
}
use mathlib.Core.Path.{subst}
use akatsuki_db.Query.Expression.{int, double}
use akatsuki_db.Index.Key.{
  IndexKey, mk_key, KeyError, compare_bytes, compare_to, be_bytes4, be_bytes8, int_code,
  double_code, write_bytes, key_of,
}

-- `c` is the sign of the comparison of two numbers, and `d` where they are equal.
abbrev pub Orders : ℤ → ℕ → ℕ → ℤ → Type 0
Orders c a b d = (a < b → c ≡ negsuc 0) × (a ≡ b → c ≡ d) × (b < a → c ≡ pos 1)

pub compare_bytes_self : (s : Bytes) → compare_bytes s s ≡ pos 0
unfolding compare_bytes
compare_bytes_self [] = refl
compare_bytes_self (a ∷ s) = ground (arith, compare_bytes_self s)

-- One digit more: `x` and `y` are the highest of `a` and `b`, and `a'` and `b'` are the rest.
Orders-step :
    (x y : ℕ) (s t : Bytes) (a b a' b' : ℕ) {d : ℤ}
    → (x < y → a < b)
    → (y < x → b < a)
    → (x ≡ y → (a < b → a' < b') × (a ≡ b → a' ≡ b') × (b < a → b' < a'))
    → (a ≡ b → x ≡ y)
    → Orders (compare_bytes s t) a' b' d
    → Orders (compare_bytes (x ∷ s) (y ∷ t)) a b d
unfolding compare_bytes
Orders-step x y s t a b a' b' l g e r o = ground arith

-- Two numbers below 2^32 and what follows them.
compare_bytes-be_bytes4 :
    (a b : ℕ) (s t : Bytes)
    → a < 2 ^ 32
    → b < 2 ^ 32
    → Orders (compare_bytes (be_bytes4 a ++ s) (be_bytes4 b ++ t)) a b (compare_bytes s t)
unfolding be_bytes4
compare_bytes-be_bytes4 a b s t la lb =
    Orders-step (a / 2 ^ 24) (b / 2 ^ 24) _ _ a b (a % 2 ^ 24) (b % 2 ^ 24) (omega arith)
      (omega arith) (ground arith) (omega arith)
      (Orders-step (a / 2 ^ 16 % 256) (b / 2 ^ 16 % 256) _ _ _ _ (a % 2 ^ 16) (b % 2 ^ 16)
        (omega arith) (omega arith) (ground arith) (omega arith)
        (Orders-step (a / 2 ^ 8 % 256) (b / 2 ^ 8 % 256) _ _ _ _ (a % 2 ^ 8) (b % 2 ^ 8)
          (omega arith) (omega arith) (ground arith) (omega arith)
          (Orders-step (a % 256) (b % 256) s t (a % 2 ^ 8) (b % 2 ^ 8) 0 0 (omega arith)
            (omega arith) (ground arith) (omega arith) (ground arith))))

compare_bytes-be_bytes8 :
    (a b : ℕ) (s : Bytes)
    → a < 2 ^ 64
    → b < 2 ^ 64
    → Orders (compare_bytes (be_bytes8 a ++ s) (be_bytes8 b ++ s)) a b (pos 0)
unfolding be_bytes8 be_bytes4
compare_bytes-be_bytes8 a b s la lb =
    let low = compare_bytes-be_bytes4 (a % 2 ^ 32) (b % 2 ^ 32) s s (omega arith) (omega arith) in
    let high =
      compare_bytes-be_bytes4 (a / 2 ^ 32) (b / 2 ^ 32) (be_bytes4 (a % 2 ^ 32) ++ s)
        (be_bytes4 (b % 2 ^ 32) ++ s) (omega arith) (omega arith) in
    joined (unfold be_bytes4 in low) (compare_bytes_self s) (unfold be_bytes4 in high)
  where
    joined :
        {c d e : ℤ}
        → Orders d (a % 2 ^ 32) (b % 2 ^ 32) e
        → e ≡ pos 0
        → Orders c (a / 2 ^ 32) (b / 2 ^ 32) d
        → Orders c a b (pos 0)
    joined low z high = ground arith

key-eq :
    {x : Bytes} {k : IndexKey}
    → ◌≡◌ {A = Result KeyError IndexKey} (ok (mk_key x)) (ok k)
    → x ≡ k.bytes
key-eq h = ground arith

-- The number that a pattern of 64 bits stands for, up to scale: sign and magnitude.
abbrev pub magnitude_order : ℕ → ℤ
magnitude_order b = if leb (2 ^ 63) b then negsuc (b - 2 ^ 63) else pos b

module _ {D : Type 0} (bits : D → ℕ) where
  -- The keys of two `int`s are ordered as the numbers are.
  pub key_of-int_order :
      (m n : ℤ) (k l : IndexKey)
      → IsInt m
      → IsInt n
      → key_of bits (int m ∷ []) ≡ ok k
      → key_of bits (int n ∷ []) ≡ ok l
      → (m <ℤ n → compare_to k l ≡ negsuc 0)
        × (m ≡ n → compare_to k l ≡ pos 0)
        × (n <ℤ m → compare_to k l ≡ pos 1)
  key_of-int_order m n k l im in' hk hl =
      let o =
        compare_bytes-be_bytes4 (int_code m) (int_code n) (replicate 124 0) (replicate 124 0)
          (omega arith) (omega arith) in
      let z = compare_bytes_self (replicate 124 0) in
      codes (
        subst (λ x. Orders (compare_bytes x l.bytes) (int_code m) (int_code n) (pos 0))
          (key_bytes m k hk)
          (subst
            (λ x.
              Orders (compare_bytes (be_bytes4 (int_code m) ++ replicate 124 0) x) (int_code m)
                (int_code n) (pos 0))
            (key_bytes n l hl) (at_zero z o)))
    where
      key_bytes :
          (m : ℤ) (k : IndexKey)
          → key_of bits (int m ∷ []) ≡ ok k
          → be_bytes4 (int_code m) ++ replicate 124 0 ≡ k.bytes
      key_bytes m k h = unfold key_of write_bytes be_bytes4 write_at in key-eq h

      at_zero : {c d : ℤ} {a b : ℕ} → d ≡ pos 0 → Orders c a b d → Orders c a b (pos 0)
      at_zero z o = ground arith

      codes :
          {c : ℤ}
          → Orders c (int_code m) (int_code n) (pos 0)
          → (m <ℤ n → c ≡ negsuc 0) × (m ≡ n → c ≡ pos 0) × (n <ℤ m → c ≡ pos 1)
      codes o = ground arith

  -- The keys of two `double`s are ordered by sign and then magnitude of their patterns, where the
  -- pattern of -0.0 comes just before that of 0.0.
  pub key_of-double_order :
      (c d : D) (k l : IndexKey)
      → bits c < 2 ^ 64
      → bits d < 2 ^ 64
      → key_of bits (double c ∷ []) ≡ ok k
      → key_of bits (double d ∷ []) ≡ ok l
      → (magnitude_order (bits c) <ℤ magnitude_order (bits d) → compare_to k l ≡ negsuc 0)
        × (bits c ≡ bits d → compare_to k l ≡ pos 0)
        × (magnitude_order (bits d) <ℤ magnitude_order (bits c) → compare_to k l ≡ pos 1)
  key_of-double_order c d k l lc ld hk hl = codes (bits c) (bits d) lc ld (
      subst
        (λ x.
          Orders (compare_bytes x l.bytes) (double_code (bits c)) (double_code (bits d)) (pos 0))
        (key_bytes c k hk)
        (subst
          (λ x.
            Orders (compare_bytes (be_bytes8 (double_code (bits c)) ++ replicate 120 0) x)
              (double_code (bits c)) (double_code (bits d)) (pos 0))
          (key_bytes d l hl)
          (compare_bytes-be_bytes8 (double_code (bits c)) (double_code (bits d)) (replicate 120 0)
            (bound (bits c) lc) (bound (bits d) ld))))
    where
      key_bytes :
          (m : D) (k : IndexKey)
          → key_of bits (double m ∷ []) ≡ ok k
          → be_bytes8 (double_code (bits m)) ++ replicate 120 0 ≡ k.bytes
      key_bytes m k h = unfold key_of write_bytes be_bytes8 be_bytes4 write_at in key-eq h

      bound : (a : ℕ) → a < 2 ^ 64 → double_code a < 2 ^ 64
      bound a h = ground arith

      codes :
          (a b : ℕ)
          → a < 2 ^ 64
          → b < 2 ^ 64
          → {z : ℤ} → Orders z (double_code a) (double_code b) (pos 0)
          → (magnitude_order a <ℤ magnitude_order b → z ≡ negsuc 0)
            × (a ≡ b → z ≡ pos 0)
            × (magnitude_order b <ℤ magnitude_order a → z ≡ pos 1)
      codes a b la lb o = ground arith
