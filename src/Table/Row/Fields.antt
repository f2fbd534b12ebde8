-- ===== src/Table/Row/Fields.antt =====
-- One column of a row: what `Serialize` writes into its slice is what `Deserialize` reads there.
use akatsuki_db.Base.{
  ℕ, ◌+◌, ◌^◌, ◌≤◌, ◌<◌, ◌≡◌, refl, sym, ap, ◌∙◌, ◌⊎◌, inl, inr, Bool, false, some, [], ◌∷◌, ◌++◌,
  Bytes, ok, ok-inj, pos, pos_part, IsInt, ◌==◌, length, take, drop, get_or, replicate, read_at,
  write_at, le_bytes, of_le, bits_of, signed, if◌then◌else◌, read_at-write_at_len,
  read_at-write_at_before, length-le_bytes, length-append, of_le-le_bytes4, signed-bits_of32,
  bits_of32-lt, length-write_at, arith,
}
use mathlib.Core.Path.{subst}
use akatsuki_db.Query.Text.{eq_text}
use akatsuki_db.Table.Registry.{type_size}
use akatsuki_db.Query.Word
use akatsuki_db.Query.Expression.{Value, null, int, double, text, boolean}
use akatsuki_db.Query.Eval.{Numbers}
use akatsuki_db.Table.Row.{int_of, double_of, string_bytes, encode, read_string, decode}
use akatsuki_db.Table.Row.Slices.{
  take-read_at, drop-read_at, write_at-append, write_at-nil, of_le-le_bytes8,
}

length-string_bytes : (s : Bytes) → length (string_bytes s) ≡ 4 + length s
unfolding string_bytes
length-string_bytes s = omega (
  arith,
  length-append (le_bytes 4 (bits_of 32 (pos (length s)))) s,
  length-le_bytes 4 (bits_of 32 (pos (length s))),
)

read_string-zeros : read_string (replicate 104 0) ≡ []
unfolding read_string of_le
read_string-zeros = refl

read_string-write :
    (s : Bytes) (o : ℕ) (buf : Bytes)
    → length s ≤ 100
    → o + 104 ≤ length buf
    → read_string (read_at o 104 (write_at o (string_bytes s) buf)) ≡ s
unfolding read_string string_bytes
read_string-write s o buf i h =
    let front = le_bytes 4 (bits_of 32 (pos (length s))) in
    let lf : length front ≡ 4 = length-le_bytes 4 (bits_of 32 (pos (length s))) in
    let first = write_at o front buf in
    let written = write_at (o + length front) s first in
    let split : write_at o (front ++ s) buf ≡ written =
      write_at-append o front s buf (omega arith) in
    let lfirst : length first ≡ length buf = length-write_at o front buf in
    let len : of_le (take 4 (read_at o 104 written)) ≡ bits_of 32 (pos (length s)) =
      ap of_le (
        take-read_at 4 104 o written (omega arith)
        ∙ read_at-write_at_before o 4 (o + length front) s first (omega arith)
        ∙ read_at-write_at_len o 4 front buf lf (omega arith))
      ∙ of_le-le_bytes4 (bits_of 32 (pos (length s))) (bits_of32-lt (pos (length s))) in
    let body : drop 4 (read_at o 104 written) ≡ read_at (o + 4) 100 written =
      drop-read_at 4 100 o written in
    ap
      (λ x.
        take (pos_part (signed 32 (of_le (take 4 (read_at o 104 x))))) (drop 4 (read_at o 104 x)))
      split
    ∙ ap (λ x. take (pos_part (signed 32 x)) (drop 4 (read_at o 104 written))) len
    ∙ ap (λ z. take (pos_part z) (drop 4 (read_at o 104 written)))
        (signed-bits_of32 (pos (length s)) (omega arith, omega arith))
    ∙ ap (take (length s)) body
    ∙ take-read_at (length s) 100 (o + 4) written (omega arith)
    ∙ ap (λ x. read_at (o + 4) (length s) (write_at (o + x) s first)) lf
    ∙ read_at-write_at_len (o + 4) (length s) s first refl (omega arith)

module _ {D : Type 0} (num : Numbers D) where
  -- What a `bool` and a `str` column have of a value.
  abbrev pub boolean_of : Value D → Bool
  boolean_of (boolean b) = b
  boolean_of v = false

  abbrev pub text_of : Value D → Bytes
  text_of (text s) = s
  text_of v = []

  -- A value that a column of a type can keep.
  pub data IsStorable : Bytes → Value D → Type 0 where
    as_int : {v : Value D} → IsInt (int_of num v) → IsStorable Word.int v
    as_float :
        {v : Value D}
        → num.bits (double_of num v) < 2 ^ 64
        → num.of_bits (num.bits (double_of num v)) ≡ double_of num v
        → IsStorable Word.float v
    as_bool : {v : Value D} → IsStorable Word.bool v
    as_str : {v : Value D} → length (text_of v) ≤ 100 → IsStorable Word.str v

  -- What a column of a type gives back for a value that was written to it.
  abbrev pub kept : {type : Bytes} {v : Value D} → IsStorable type v → Value D
  kept (as_int {v} h) = int (int_of num v)
  kept (as_float {v} h e) = double (double_of num v)
  kept (as_bool {v}) = boolean (boolean_of v)
  kept (as_str {v} h) = text (text_of v)

  decode-int :
      (slice : Bytes) → decode num Word.int slice ≡ some (int (signed 32 (of_le (take 4 slice))))
  unfolding decode eq_text
  decode-int slice = refl

  decode-float :
      (slice : Bytes)
      → decode num Word.float slice ≡ some (double (num.of_bits (of_le (take 8 slice))))
  unfolding decode eq_text
  decode-float slice = refl

  decode-bool :
      (slice : Bytes) → decode num Word.bool slice ≡ some (boolean (get_or slice 0 0 == 1))
  unfolding decode eq_text
  decode-bool slice = refl

  decode-str : (slice : Bytes) → decode num Word.str slice ≡ some (text (read_string slice))
  unfolding decode eq_text
  decode-str slice = refl

  encode-int : (v : Value D) → encode num Word.int v ≡ le_bytes 4 (bits_of 32 (int_of num v))
  unfolding encode eq_text
  encode-int v = refl

  encode-float : (v : Value D) → encode num Word.float v ≡ le_bytes 8 (num.bits (double_of num v))
  unfolding encode eq_text
  encode-float v = refl

  encode-bool :
      (v : Value D)
      → (encode num Word.bool v ≡ (if boolean_of v then 1 else 0) ∷ [])
        ⊎ ((encode num Word.bool v ≡ []) × (boolean_of v ≡ false))
  unfolding encode eq_text
  encode-bool null = inr (refl, refl)
  encode-bool (int n) = inr (refl, refl)
  encode-bool (double d) = inr (refl, refl)
  encode-bool (text s) = inr (refl, refl)
  encode-bool (boolean b) = inl refl

  encode-str :
      (v : Value D)
      → (encode num Word.str v ≡ string_bytes (text_of v))
        ⊎ ((encode num Word.str v ≡ []) × (text_of v ≡ []))
  unfolding encode eq_text
  encode-str null = inr (refl, refl)
  encode-str (int n) = inr (refl, refl)
  encode-str (double d) = inr (refl, refl)
  encode-str (text s) = inl refl
  encode-str (boolean b) = inr (refl, refl)

  module _ (o : ℕ) (v : Value D) (buf : Bytes) where
    read_int :
        IsInt (int_of num v)
        → o + 4 ≤ length buf
        → decode num Word.int (read_at o 4 (write_at o (encode num Word.int v) buf))
          ≡ some (int (int_of num v))
    read_int i h =
        decode-int _
        ∙ ap (λ x. some (int (signed 32 (of_le x))))
            (take-read_at 4 4 o _ (omega arith)
              ∙ ap (λ e. read_at o 4 (write_at o e buf)) (encode-int v)
              ∙ read_at-write_at_len o 4 _ buf (length-le_bytes 4 (bits_of 32 (int_of num v))) h)
        ∙ ap (λ x. some (int (signed 32 x)))
            (of_le-le_bytes4 (bits_of 32 (int_of num v)) (bits_of32-lt (int_of num v)))
        ∙ ap (λ x. some (int x)) (signed-bits_of32 (int_of num v) i)

    read_double :
        num.bits (double_of num v) < 2 ^ 64
        → o + 8 ≤ length buf
        → decode num Word.float (read_at o 8 (write_at o (encode num Word.float v) buf))
          ≡ some (double (num.of_bits (num.bits (double_of num v))))
    read_double i h =
        decode-float _
        ∙ ap (λ x. some (double (num.of_bits (of_le x))))
            (take-read_at 8 8 o _ (omega arith)
              ∙ ap (λ e. read_at o 8 (write_at o e buf)) (encode-float v)
              ∙ read_at-write_at_len o 8 _ buf (length-le_bytes 8 (num.bits (double_of num v))) h)
        ∙ ap (λ x. some (double (num.of_bits x))) (of_le-le_bytes8 (num.bits (double_of num v)) i)

    read_bool :
        o + 1 ≤ length buf
        → read_at o 1 buf ≡ replicate 1 0
        → decode num Word.bool (read_at o 1 (write_at o (encode num Word.bool v) buf))
          ≡ some (boolean (boolean_of v))
    read_bool h z = decode-bool _ ∙ elim (encode-bool v) [
      | inl e ↦
          ap (λ x. some (boolean (get_or (read_at o 1 (write_at o x buf)) 0 0 == 1))) e
          ∙ ap (λ x. some (boolean (get_or x 0 0 == 1)))
              (read_at-write_at_len o 1 ((if boolean_of v then 1 else 0) ∷ []) buf refl h)
          ∙ ap (λ x. some (boolean x)) (back (boolean_of v))
      | inr (e, f) ↦
          ap (λ x. some (boolean (get_or (read_at o 1 x) 0 0 == 1)))
            (ap (λ x. write_at o x buf) e ∙ write_at-nil o buf)
          ∙ ap (λ x. some (boolean (get_or x 0 0 == 1))) z
          ∙ ap (λ x. some (boolean x)) (sym f)
    ]
      where
        back : (b : Bool) → ((if b then 1 else 0) == 1) ≡ b
        back b = ground arith

  module _ (o : ℕ) (v : Value D) (buf : Bytes) where
    read_str :
        length (text_of v) ≤ 100
        → o + 104 ≤ length buf
        → read_at o 104 buf ≡ replicate 104 0
        → decode num Word.str (read_at o 104 (write_at o (encode num Word.str v) buf))
          ≡ some (text (text_of v))
    read_str i h z = decode-str _ ∙ elim (encode-str v) [
      | inl e ↦
          ap (λ x. some (text (read_string (read_at o 104 (write_at o x buf))))) e
          ∙ ap (λ x. some (text x)) (read_string-write (text_of v) o buf i h)
      | inr (e, f) ↦
          ap (λ x. some (text (read_string (read_at o 104 x))))
            (ap (λ x. write_at o x buf) e ∙ write_at-nil o buf)
          ∙ ap (λ x. some (text (read_string x))) z
          ∙ ap (λ x. some (text x)) (read_string-zeros ∙ sym f)
    ]

  -- A column whose slice was zeros gives back what was written to it, as its type keeps it.
  pub decode-write :
      (type : Bytes) (v : Value D) (storable : IsStorable type v) (o n : ℕ) (buf : Bytes)
      → type_size type ≡ ok n
      → o + n ≤ length buf
      → read_at o n buf ≡ replicate n 0
      → decode num type (read_at o n (write_at o (encode num type v) buf)) ≡ some (kept storable)
  unfolding type_size eq_text
  decode-write type v (as_int i) o n buf s h z =
      subst P (ok-inj s) (λ h z. read_int o v buf i h) h z
    where
      P : ℕ → Type 0
      P n =
          o + n ≤ length buf
          → read_at o n buf ≡ replicate n 0
          → decode num Word.int (read_at o n (write_at o (encode num Word.int v) buf))
            ≡ some (int (int_of num v))
  decode-write type v (as_float i e) o n buf s h z =
      subst P (ok-inj s) (λ h z. read_double o v buf i h ∙ ap (λ d. some (double d)) e) h z
    where
      P : ℕ → Type 0
      P n =
          o + n ≤ length buf
          → read_at o n buf ≡ replicate n 0
          → decode num Word.float (read_at o n (write_at o (encode num Word.float v) buf))
            ≡ some (double (double_of num v))
  decode-write type v as_bool o n buf s h z = subst P (ok-inj s) (read_bool o v buf) h z
    where
      P : ℕ → Type 0
      P n =
          o + n ≤ length buf
          → read_at o n buf ≡ replicate n 0
          → decode num Word.bool (read_at o n (write_at o (encode num Word.bool v) buf))
            ≡ some (boolean (boolean_of v))
  decode-write type v (as_str i) o n buf s h z = subst P (ok-inj s) (read_str o v buf i) h z
    where
      P : ℕ → Type 0
      P n =
          o + n ≤ length buf
          → read_at o n buf ≡ replicate n 0
          → decode num Word.str (read_at o n (write_at o (encode num Word.str v) buf))
            ≡ some (text (text_of v))

  -- What is written for a column stays in its slice.
  pub length-encode :
      (type : Bytes) (v : Value D) (storable : IsStorable type v) (n : ℕ)
      → type_size type ≡ ok n
      → length (encode num type v) ≤ n
  unfolding type_size eq_text
  length-encode type v (as_int i) n s =
      omega
        (arith, ok-inj s, ap length (encode-int v), length-le_bytes 4 (bits_of 32 (int_of num v)))
  length-encode type v (as_float i e) n s =
      omega (
        arith,
        ok-inj s,
        ap length (encode-float v),
        length-le_bytes 8 (num.bits (double_of num v)),
      )
  length-encode type v as_bool n s = elim (encode-bool v) [
    | inl e ↦ omega (arith, ok-inj s, ap length e)
    | inr (e, f) ↦ omega (arith, ok-inj s, ap length e)
  ]
  length-encode type v (as_str i) n s = elim (encode-str v) [
    | inl e ↦ omega (arith, ok-inj s, ap length e, length-string_bytes (text_of v))
    | inr (e, f) ↦ omega (arith, ok-inj s, ap length e)
  ]
