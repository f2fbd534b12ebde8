-- ===== src/Tests/Numbers.antt =====
-- Whole numbers in the place of `double`, with the bits of 64-bit two's complement.
use akatsuki_db.Base.{none, [], ℤ, signed, bits_of, ltb_ℤ, eqb_ℤ}
use akatsuki_db.Query.Eval.{Numbers}

abbrev pub numbers : Numbers ℤ
numbers = record {
  of_int = λ n. n;
  to_int = λ n. n;
  add = λ a b. a;
  sub = λ a b. a;
  mul = λ a b. a;
  div = λ a b. a;
  less = ltb_ℤ;
  same = eqb_ℤ;
  power_of_10 = λ n. n;
  nearest = λ n. n;
  stod = λ s. none;
  print_int = λ n. [];
  print = λ n. [];
  bits = bits_of 64;
  of_bits = signed 64;
  stoi = λ s. none;
}
