-- ===== src/Base/Buffer.antt =====
-- Byte strings as lists of numbers: memcpy out of and into a buffer, little-endian words.
use Prim.Native.Nat.{ℕ, zero, suc, ◌+◌, ◌*◌, ◌/◌, ◌%◌, ◌^◌, ◌≤◌, ◌<◌}
use mathlib.Core.Path.{◌≡◌, refl, ap}
use mathlib.Core.List.{List, [], ◌∷◌, ◌++◌}
use native.Mathlib.Omega.{arith}
use akatsuki_db.Base.Lists.{length, take, drop, length-take, length-drop}

abbrev pub Bytes : Type 0
Bytes = List ℕ

-- Every element is a byte.
abbrev pub AreBytes : Bytes → Type 0
AreBytes [] = Unit {0}
AreBytes (b ∷ bs) = (b < 256) × AreBytes bs

-- `memcpy(dst, buf + off, n)`: what lies past the end is not read.
unfoldable pub read_at : ℕ → ℕ → Bytes → Bytes
read_at off n buf = take n (drop off buf)

-- `memcpy(buf + off, vs, vs.size())` inside the buffer; what would fall past the end is cut off.
unfoldable pub write_at : ℕ → Bytes → Bytes → Bytes
write_at zero [] buf = buf
write_at zero (v ∷ vs) [] = []
write_at zero (v ∷ vs) (b ∷ buf) = v ∷ write_at zero vs buf
write_at (suc off) vs [] = []
write_at (suc off) vs (b ∷ buf) = b ∷ write_at off vs buf

pub length-write_at : (off : ℕ) (vs buf : Bytes) → length (write_at off vs buf) ≡ length buf
unfolding write_at
length-write_at zero [] buf = refl
length-write_at zero (v ∷ vs) [] = refl
length-write_at zero (v ∷ vs) (b ∷ buf) = ap suc (length-write_at zero vs buf)
length-write_at (suc off) vs [] = refl
length-write_at (suc off) vs (b ∷ buf) = ap suc (length-write_at off vs buf)

pub take-length : (vs ws : Bytes) → take (length vs) (vs ++ ws) ≡ vs
take-length [] ws = refl
take-length (v ∷ vs) ws = ap (◌∷◌ v) (take-length vs ws)

pub take_of_length-le : (n : ℕ) (vs : Bytes) → length vs ≤ n → take n vs ≡ vs
take_of_length-le zero [] h = refl
take_of_length-le zero (v ∷ vs) h = absurd (omega arith)
take_of_length-le (suc n) [] h = refl
take_of_length-le (suc n) (v ∷ vs) h = ap (◌∷◌ v) (take_of_length-le n vs (omega arith))

pub drop-length : (vs ws : Bytes) → drop (length vs) (vs ++ ws) ≡ ws
drop-length [] ws = refl
drop-length (v ∷ vs) ws = drop-length vs ws

-- What was written inside the buffer is read back.
pub read_at-write_at_self :
    (off : ℕ) (vs buf : Bytes)
    → off + length vs ≤ length buf
    → read_at off (length vs) (write_at off vs buf) ≡ vs
unfolding read_at write_at
read_at-write_at_self zero [] buf h = refl
read_at-write_at_self zero (v ∷ vs) [] h = absurd (omega arith)
read_at-write_at_self zero (v ∷ vs) (b ∷ buf) h =
    ap (◌∷◌ v) (read_at-write_at_self zero vs buf (omega arith))
read_at-write_at_self (suc off) vs [] h = absurd (omega arith)
read_at-write_at_self (suc off) vs (b ∷ buf) h = read_at-write_at_self off vs buf (omega arith)

pub read_at-write_at_len :
    (off n : ℕ) (vs buf : Bytes)
    → length vs ≡ n
    → off + n ≤ length buf
    → read_at off n (write_at off vs buf) ≡ vs
read_at-write_at_len off n vs buf e h = rw (← e) (read_at-write_at_self off vs buf (omega arith))

-- A read that ends before the write, or begins behind it, does not see it.
pub read_at-write_at_before :
    (o n off : ℕ) (vs buf : Bytes)
    → o + n ≤ off
    → read_at o n (write_at off vs buf) ≡ read_at o n buf
unfolding read_at write_at
read_at-write_at_before zero zero off vs buf h = refl
read_at-write_at_before zero (suc n) zero vs buf h = absurd (omega arith)
read_at-write_at_before zero (suc n) (suc off) vs [] h = refl
read_at-write_at_before zero (suc n) (suc off) vs (b ∷ buf) h =
    ap (◌∷◌ b) (read_at-write_at_before zero n off vs buf (omega arith))
read_at-write_at_before (suc o) n zero vs buf h = absurd (omega arith)
read_at-write_at_before (suc o) n (suc off) vs [] h = refl
read_at-write_at_before (suc o) n (suc off) vs (b ∷ buf) h =
    read_at-write_at_before o n off vs buf (omega arith)

pub read_at-write_at_after :
    (o n off : ℕ) (vs buf : Bytes)
    → off + length vs ≤ o
    → read_at o n (write_at off vs buf) ≡ read_at o n buf
unfolding read_at write_at
read_at-write_at_after o n zero [] buf h = refl
read_at-write_at_after zero n zero (v ∷ vs) buf h = absurd (omega arith)
read_at-write_at_after (suc o) n zero (v ∷ vs) [] h = refl
read_at-write_at_after (suc o) n zero (v ∷ vs) (b ∷ buf) h =
    read_at-write_at_after o n zero vs buf (omega arith)
read_at-write_at_after zero n (suc off) vs buf h = absurd (omega arith)
read_at-write_at_after (suc o) n (suc off) vs [] h = refl
read_at-write_at_after (suc o) n (suc off) vs (b ∷ buf) h =
    read_at-write_at_after o n off vs buf (omega arith)

pub length-read_at :
    (off n : ℕ) (buf : Bytes) → off + n ≤ length buf → length (read_at off n buf) ≡ n
unfolding read_at
length-read_at off n buf h = omega (arith, length-take n (drop off buf), length-drop off buf)

-- The `n` low bytes of a word, the lowest first.
unfoldable pub le_bytes : ℕ → ℕ → Bytes
le_bytes zero v = []
le_bytes (suc n) v = (v % 256) ∷ le_bytes n (v / 256)

unfoldable pub of_le : Bytes → ℕ
of_le [] = 0
of_le (b ∷ bs) = b + 256 * of_le bs

pub length-le_bytes : (n v : ℕ) → length (le_bytes n v) ≡ n
unfolding le_bytes
length-le_bytes zero v = refl
length-le_bytes (suc n) v = ap suc (length-le_bytes n (v / 256))

pub le_bytes-AreBytes : (n v : ℕ) → AreBytes (le_bytes n v)
unfolding le_bytes
le_bytes-AreBytes zero v = tt
le_bytes-AreBytes (suc n) v = (omega arith, le_bytes-AreBytes n (v / 256))

pub of_le-le_bytes2 : (v : ℕ) → v < 2 ^ 16 → of_le (le_bytes 2 v) ≡ v
unfolding of_le le_bytes
of_le-le_bytes2 v h = omega arith

pub of_le-le_bytes4 : (v : ℕ) → v < 2 ^ 32 → of_le (le_bytes 4 v) ≡ v
unfolding of_le le_bytes
of_le-le_bytes4 v h = omega arith
