-- ===== src/Index/Key.antt =====
-- `IndexKey` (include/AkatsukiDB/Index/IndexKey.hpp, src/Index/IndexKey.cpp): 128 bytes, compared byte
-- by byte; an `int` and a `double` are written so that this order is theirs. The pattern of a
-- `double` is a number below 2^64.
pub mod Order
use akatsuki_db.Base.{
  ℕ, zero, suc, ◌+◌, ◌-◌, ◌*◌, ◌/◌, ◌%◌, ◌^◌, Bool, true, false, not, List, [], ◌∷◌, ◌++◌, Bytes, ℤ,
  pos, negsuc, bits_of, eqb_ℤ, ltb_ℤ, ltb, leb, ◌==◌, length, replicate, write_at, if◌then◌else◌,
  Result, ok, err, ◌>>=◌,
}
use akatsuki_db.Query.Expression.{Value, null, int, double, text, boolean}

abbrev pub size : ℕ
size = 128

pub record IndexKey : Type 0 where
  pub bytes : Bytes

abbrev pub mk_key : Bytes → IndexKey
mk_key bs = record { bytes = bs }

pub data KeyError : Type 0 where
  overflow : KeyError

-- The loop of `CompareTo`; two keys are equally long.
unfoldable pub compare_bytes : Bytes → Bytes → ℤ
compare_bytes [] t = pos 0
compare_bytes (a ∷ s) [] = pos 0
compare_bytes (a ∷ s) (b ∷ t) =
    let rest = compare_bytes s t in if ltb a b then negsuc 0 else if ltb b a then pos 1 else rest

abbrev pub compare_to : IndexKey → IndexKey → ℤ
compare_to a b = compare_bytes a.bytes b.bytes

abbrev pub less : IndexKey → IndexKey → Bool
less a b = ltb_ℤ (compare_to a b) (pos 0)

abbrev pub less_equal : IndexKey → IndexKey → Bool
less_equal a b = not (ltb_ℤ (pos 0) (compare_to a b))

abbrev pub greater : IndexKey → IndexKey → Bool
greater a b = ltb_ℤ (pos 0) (compare_to a b)

abbrev pub greater_equal : IndexKey → IndexKey → Bool
greater_equal a b = not (ltb_ℤ (compare_to a b) (pos 0))

abbrev pub equal : IndexKey → IndexKey → Bool
equal a b = eqb_ℤ (compare_to a b) (pos 0)

abbrev pub min_key : IndexKey
min_key = mk_key (replicate size 0)

abbrev pub max_key : IndexKey
max_key = mk_key (replicate size 255)

abbrev pub max_of : IndexKey → IndexKey → IndexKey
max_of a b = if greater_equal a b then a else b

abbrev pub min_of : IndexKey → IndexKey → IndexKey
min_of a b = if less_equal a b then a else b

-- The bytes of a number below 2^32 or 2^64, the highest first: `BSWAP` and then `memcpy`.
unfoldable pub be_bytes4 : ℕ → Bytes
be_bytes4 v = (v / 2 ^ 24) ∷ (v / 2 ^ 16 % 256) ∷ (v / 2 ^ 8 % 256) ∷ (v % 256) ∷ []

unfoldable pub be_bytes8 : ℕ → Bytes
unfolding be_bytes4
be_bytes8 v = be_bytes4 (v / 2 ^ 32) ++ be_bytes4 (v % 2 ^ 32)

-- The sign bit of an `int` is flipped.
abbrev pub int_code : ℤ → ℕ
int_code n = (bits_of 32 n + 2 ^ 31) % 2 ^ 32

-- The pattern of a negative `double` is flipped whole, that of another only in its sign.
abbrev pub double_code : ℕ → ℕ
double_code b = if leb (2 ^ 63) b then 2 ^ 64 - 1 - b else b + 2 ^ 63

-- What a key holds and where the next value goes.
abbrev pub Writer : Type 0
Writer = Bytes × ℕ

-- A value's bytes, where they fit.
unfoldable pub write_bytes : Bytes → Writer → Result KeyError Writer
write_bytes vs (buf, offset) =
    if ltb size (offset + length vs)
    then err overflow
    else ok (write_at offset vs buf, offset + length vs)

unfoldable pub write_int : ℤ → Writer → Result KeyError Writer
unfolding write_bytes be_bytes4
write_int n w = write_bytes (be_bytes4 (int_code n)) w

module _ {D : Type 0} (bits : D → ℕ) where
  unfoldable pub write_double : D → Writer → Result KeyError Writer
  unfolding write_bytes be_bytes8
  write_double d w = write_bytes (be_bytes8 (double_code (bits d))) w

  unfoldable pub write_value : Value D → Writer → Result KeyError Writer
  unfolding write_int write_double write_bytes
  write_value (int n) w = write_int n w
  write_value (double d) w = write_double d w
  write_value (text s) w = write_bytes s w
  write_value (boolean b) w = write_int (if b then pos 1 else pos 0) w
  write_value null w = write_bytes (0 ∷ []) w

  unfoldable pub write_values : List (Value D) → Writer → Result KeyError Writer
  unfolding write_value
  write_values [] w = ok w
  write_values (v ∷ vs) w = write_value v w >>= λ w'. write_values vs w'

  -- The constructor from the values of a row. (The last test of the offset never holds.)
  unfoldable pub key_of : List (Value D) → Result KeyError IndexKey
  unfolding write_values
  key_of vs = write_values vs (replicate size 0, 0) >>= λ w. ok (mk_key w.0)
