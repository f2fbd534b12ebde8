-- ===== src/Query/Text.antt =====
-- What the C++ library does with a `std::string`: `==`, `tolower` and `toupper` in the C locale, and
-- the order of `char`, which is signed.
use akatsuki_db.Base.{
  ℕ, ◌+◌, ◌-◌, ◌≡◌, ◌↔◌, Bool, true, false, ◌&&◌, [], ◌∷◌, Bytes, leb, ◌==◌, if◌then◌else◌, arith,
  map, signed, ltb_ℤ,
}

unfoldable pub eq_text : Bytes → Bytes → Bool
eq_text [] [] = true
eq_text [] (d ∷ t) = false
eq_text (c ∷ s) [] = false
eq_text (c ∷ s) (d ∷ t) = c == d && eq_text s t

pub eq_text_iff : (s t : Bytes) → (eq_text s t ≡ true) ↔ (s ≡ t)
unfolding eq_text
eq_text_iff [] [] = ground arith
eq_text_iff [] (d ∷ t) = ground arith
eq_text_iff (c ∷ s) [] = ground arith
eq_text_iff (c ∷ s) (d ∷ t) = ground (arith, eq_text_iff s t)

abbrev pub lower : Bytes → Bytes
lower s = map (λ c. if leb b'A' c && leb c b'Z' then c + 32 else c) s

abbrev pub upper : Bytes → Bytes
upper s = map (λ c. if leb b'a' c && leb c b'z' then c - 32 else c) s

-- `a < b` of two characters
abbrev pub char_less : ℕ → ℕ → Bool
char_less a b = ltb_ℤ (signed 8 a) (signed 8 b)
