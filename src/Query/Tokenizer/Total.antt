-- ===== src/Query/Tokenizer/Total.antt =====
-- `Tokenize` ends on every input.
use akatsuki_db.Base.{
  ℕ, zero, suc, ◌+◌, ◌≤◌, ◌<◌, ◌≡◌, refl, ap, Bool, true, false, not, ◌&&◌, ◌||◌, Option, none,
  some, List, [], ◌∷◌, ◌++◌, Bytes, ◌==◌, length, arith, if◌then◌else◌, Result, ok, err,
}
use akatsuki_db.Query.Tokenizer.{
  Token, TokenError, TokenType, unexpected_character, int_literal, float_literal, operator,
  end_of_input, two_characters, unterminated_string, string_literal, Mode, Move, stop, go, code,
  move, skip, span, token, is_word, is_digit, is_alpha, is_operator, starts_number, read_word,
  read_string, read_number, read_operator, mark, next_token, put_first, tokenize_loop, tokenize,
}

skip-le : (m : Mode) (s : Bytes) (line : ℕ) → length (skip m s line).0 ≤ length s
unfolding skip
skip-le m [] line = omega arith
skip-le m (c ∷ s) line = by_move (move m c s) (skip-le code s) (λ m' n. skip-le m' s (line + n))
  where
    by_move :
        (v : Move)
        → ((l : ℕ) → length (skip code s l).0 ≤ length s)
        → ((m' : Mode) (n : ℕ) → length (skip m' s (line + n)).0 ≤ length s)
        → length
            (elim v as (λ _. Bytes × ℕ) [ stop ↦ (c ∷ s, line) | go m' n ↦ skip m' s (line + n) ]).0
          ≤ suc (length s)
    by_move stop a b = omega arith
    by_move (go m' n) a b = omega (arith, b m' n)

span-le : (test : ℕ → Bool) (s : Bytes) → length (span test s).1 ≤ length s
unfolding span
span-le test [] = omega arith
span-le test (c ∷ s) = ground (arith, span-le test s)

span-lt :
    (test : ℕ → Bool) (c : ℕ) (s : Bytes) → test c ≡ true → length (span test (c ∷ s)).1 ≤ length s
unfolding span
span-lt test c s h = ground (arith, span-le test s)

-- What is left behind a token is no longer than `n`.
abbrev Leaves : ℕ → Result TokenError (Token × Bytes) → Type 0
Leaves n (ok (t, rest)) = length rest ≤ n
Leaves n (err e) = Unit {0}

Leaves-if :
    (n : ℕ) (b : Bool) (x y : Result TokenError (Token × Bytes))
    → (b ≡ true → Leaves n x)
    → (b ≡ false → Leaves n y)
    → Leaves n (if b then x else y)
Leaves-if n true x y hx hy = hx refl
Leaves-if n false x y hx hy = hy refl

read_word-le :
    (c : ℕ) (s : Bytes) (line : ℕ) → is_word c ≡ true → length (read_word (c ∷ s) line).1 ≤ length s
unfolding read_word
read_word-le c s line h = ground (arith, span-lt is_word c s h)

read_string-Leaves : (q : ℕ) (s : Bytes) (line : ℕ) → Leaves (length s) (read_string q s line)
unfolding read_string
read_string-Leaves q s line = by_rest (span (λ c. not (c == q)) s).1 (span-le (λ c. not (c == q)) s)
  where
    by_rest :
        (r : Bytes)
        → length r ≤ length s
        → Leaves (length s) (elim r as (λ _. Result TokenError (Token × Bytes)) [
          | [] ↦ err (unterminated_string line)
          | _ ∷ rest' ↦ ok (token string_literal (span (λ c. not (c == q)) s).0 line, rest')
        ])
    by_rest [] h = tt
    by_rest (d ∷ r) h = omega arith

read_number-le : (c : ℕ) (s : Bytes) (line : ℕ) → length (read_number c s line).1 ≤ length s
unfolding read_number
read_number-le c s line = by_rest (span is_digit s).0 (span is_digit s).1 (span-le is_digit s)
  where
    by_dot :
        (b : Bool) (n : ℕ) (x y : Token × Bytes)
        → length x.1 ≤ n
        → length y.1 ≤ n
        → length (if b then x else y).1 ≤ n
    by_dot true n x y hx hy = hx
    by_dot false n x y hx hy = hy

    by_rest :
        (whole r : Bytes)
        → length r ≤ length s
        → length
            (elim r as (λ _. Token × Bytes) [
              | [] ↦ (token int_literal (c ∷ whole) line, [])
              | d ∷ rest' ↦
                  if d == b'.'
                  then (
                    token float_literal ((c ∷ whole) ++ d ∷ (span is_digit rest').0) line,
                    (span is_digit rest').1,
                  )
                  else (token int_literal (c ∷ whole) line, d ∷ rest')
            ]).1
          ≤ length s
    by_rest whole [] h = omega arith
    by_rest whole (d ∷ r) h =
        by_dot (d == b'.') (length s)
          (token float_literal ((c ∷ whole) ++ d ∷ (span is_digit r).0) line, (span is_digit r).1)
          (token int_literal (c ∷ whole) line, d ∷ r) (omega (arith, span-le is_digit r)) h

read_operator-Leaves : (c : ℕ) (s : Bytes) (line : ℕ) → Leaves (length s) (read_operator c s line)
unfolding read_operator
read_operator-Leaves c [] line =
    Leaves-if 0 (c == b'!') (err (unexpected_character c line))
      (ok (token operator (c ∷ []) line, [])) (λ _. tt) (λ _. omega arith)
read_operator-Leaves c (d ∷ s) line =
    Leaves-if (length (d ∷ s)) (d == b'=' && two_characters c)
      (ok (token operator (c ∷ d ∷ []) line, s))
      (if c == b'!'
        then err (unexpected_character c line)
        else ok (token operator (c ∷ []) line, d ∷ s))
      (λ _. omega arith)
      (λ _.
        Leaves-if (length (d ∷ s)) (c == b'!') (err (unexpected_character c line))
          (ok (token operator (c ∷ []) line, d ∷ s)) (λ _. tt) (λ _. omega arith))

next_token-Leaves : (c : ℕ) (s : Bytes) (line : ℕ) → Leaves (length s) (next_token c s line)
unfolding next_token
next_token-Leaves c s line = by_mark (mark c)
  where
    by_operator : Result TokenError (Token × Bytes)
    by_operator =
        if is_operator c then read_operator c s line else err (unexpected_character c line)

    by_word : Result TokenError (Token × Bytes)
    by_word = if is_alpha c || c == b'_' then ok (read_word (c ∷ s) line) else by_operator

    by_number : Result TokenError (Token × Bytes)
    by_number = if starts_number c s then ok (read_number c s line) else by_word

    word : (is_alpha c || c == b'_') ≡ true → is_word c ≡ true
    word h = or_later (is_digit c) (is_alpha c) (c == b'_') h
      where
        or_later : (x y z : Bool) → (y || z) ≡ true → ((x || y) || z) ≡ true
        or_later x y z h = ground arith

    operators : Leaves (length s) by_operator
    operators =
        Leaves-if (length s) (is_operator c) (read_operator c s line)
          (err (unexpected_character c line)) (λ _. read_operator-Leaves c s line) (λ _. tt)

    words : Leaves (length s) by_word
    words =
        Leaves-if (length s) (is_alpha c || c == b'_') (ok (read_word (c ∷ s) line)) by_operator
          (λ h. read_word-le c s line (word h)) (λ _. operators)

    numbers : Leaves (length s) by_number
    numbers =
        Leaves-if (length s) (starts_number c s) (ok (read_number c s line)) by_word
          (λ _. read_number-le c s line) (λ _. words)

    by_mark :
        (o : Option TokenType)
        → Leaves (length s) (elim o as (λ _. Result TokenError (Token × Bytes)) [
          | some t ↦ ok (token t (c ∷ []) line, s)
          | none ↦ if c == 39 || c == 34 then read_string c s line else by_number
        ])
    by_mark (some t) = omega arith
    by_mark none =
        Leaves-if (length s) (c == 39 || c == 34) (read_string c s line) by_number
          (λ _. read_string-Leaves c s line) (λ _. numbers)

tokenize_loop-total :
    (f : ℕ) (s : Bytes) (line : ℕ)
    → length s < f
    → (r : Result TokenError (List Token)) × (tokenize_loop f s line ≡ some r)
unfolding tokenize_loop
tokenize_loop-total zero s line h = absurd (omega arith)
tokenize_loop-total (suc f) s line h =
    by_rest (skip code s line).0 (skip code s line).1 (skip-le code s line) (tokenize_loop-total f)
  where
    put_first-total :
        (t : Token) (o : Option (Result TokenError (List Token)))
        → (r : Result TokenError (List Token)) × (o ≡ some r)
        → (r : Result TokenError (List Token)) × (put_first t o ≡ some r)
    put_first-total t o (err e, h) = (err e, ap (put_first t) h)
    put_first-total t o (ok ts, h) = (ok (t ∷ ts), ap (put_first t) h)

    by_token :
        (n : ℕ) (r : Result TokenError (Token × Bytes)) (l : ℕ)
        → n < f
        → Leaves n r
        → ((s : Bytes) (line : ℕ)
            → length s < f
            → (r : Result TokenError (List Token)) × (tokenize_loop f s line ≡ some r))
        → (x : Result TokenError (List Token)) × ((elim r
              as (λ _. Option (Result TokenError (List Token))) [
                | err e ↦ some (err e)
                | ok (t, rest') ↦ put_first t (tokenize_loop f rest' l)
              ])
            ≡ some x)
    by_token n (err e) l h L rest = (err e, refl)
    by_token n (ok (t, rest')) l h L rest =
        put_first-total t (tokenize_loop f rest' l) (rest rest' l (omega arith))

    by_rest :
        (r : Bytes) (l : ℕ)
        → length r ≤ length s
        → ((s : Bytes) (line : ℕ)
            → length s < f
            → (r : Result TokenError (List Token)) × (tokenize_loop f s line ≡ some r))
        → (x : Result TokenError (List Token)) × ((elim r
              as (λ _. Option (Result TokenError (List Token))) [
                | [] ↦ some (ok (token end_of_input [] l ∷ []))
                | c ∷ s' ↦
                    elim (next_token c s' l) as (λ _. Option (Result TokenError (List Token))) [
                      | err e ↦ some (err e)
                      | ok (t, rest') ↦ put_first t (tokenize_loop f rest' l)
                    ]
              ])
            ≡ some x)
    by_rest [] l le rest = (ok (token end_of_input [] l ∷ []), refl)
    by_rest (c ∷ s') l le rest =
        by_token (length s') (next_token c s' l) l (omega arith) (next_token-Leaves c s' l) rest

-- `Tokenize` ends on every input, with the tokens or with one of its exceptions: the fuel, one more
-- than the length of the input, is enough.
pub tokenize-total :
    (input : Bytes) → (r : Result TokenError (List Token)) × (tokenize input ≡ some r)
unfolding tokenize
tokenize-total input = tokenize_loop-total (length input + 1) input 1 (omega arith)
