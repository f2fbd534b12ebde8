-- ===== src/Query/Tokenizer.antt =====
-- `Tokenizer` (include/AkatsukiDB/AQL/Tokenizer.hpp, src/AQL/Tokenizer.cpp) on what is left of the
-- input. The classes of characters are those of the C locale; a byte from 128 on is in none of them.
pub mod Keywords
pub mod Total
use akatsuki_db.Base.{
  ℕ, zero, suc, ◌+◌, Bool, true, false, not, ◌&&◌, ◌||◌, Option, none, some, List, [], ◌∷◌, ◌++◌,
  Bytes, ◌==◌, leb, length, if◌then◌else◌, Result, ok, err,
}
use akatsuki_db.Query.Text.{eq_text, lower}
use akatsuki_db.Query.Word
use akatsuki_db.Query.Tokenizer.Keywords.{keywords, contains}

pub data TokenType : Type 0 where
  keyword identifier operator int_literal float_literal string_literal boolean_literal
        null_literal :
      TokenType
  comma colon dot star lparen rparen lbrace rbrace lbracket rbracket end_of_input : TokenType

pub record Token : Type 0 where
  pub type : TokenType
  pub value : Bytes
  pub line : ℕ

abbrev pub token : TokenType → Bytes → ℕ → Token
token t v l = record { type = t; value = v; line = l }

pub data TokenError : Type 0 where
  unexpected_character : ℕ → ℕ → TokenError
  unterminated_string : ℕ → TokenError

abbrev pub is_digit : ℕ → Bool
is_digit c = leb b'0' c && leb c b'9'

abbrev pub is_alpha : ℕ → Bool
is_alpha c = (leb b'a' c && leb c b'z') || (leb b'A' c && leb c b'Z')

abbrev pub is_space : ℕ → Bool
is_space c = c == 32 || (leb 9 c && leb c 13)

abbrev pub is_word : ℕ → Bool
is_word c = (is_digit c || is_alpha c) || c == b'_'

abbrev pub starts_with : ℕ → Bytes → Bool
starts_with c [] = false
starts_with c (d ∷ s) = d == c

-- Where the skipping stands; `opened` and `closing` are on the second character of a mark.
pub data Mode : Type 0 where
  code line_comment opened block closing : Mode

pub data Move : Type 0 where
  stop : Move
  go : Mode → ℕ → Move

abbrev pub newline : ℕ
newline = 10

-- What skipping does at the character `c` before `s`, with the lines that it counts.
unfoldable pub move : Mode → ℕ → Bytes → Move
move code c s =
    if c == newline
    then go code 1
    else if is_space c
    then go code 0
    else if c == b'/' && starts_with b'/' s
    then go line_comment 0
    else if c == b'/' && starts_with b'*' s
    then go opened 0
    else stop
move line_comment c s = if c == newline then go code 1 else go line_comment 0
move opened c s = go block 0
move block c [] = go block 0
move block c (d ∷ s) =
    if c == b'*' && d == b'/' then go closing 0 else if c == newline then go block 1 else go block 0
move closing c s = go code 0

unfoldable pub skip : Mode → Bytes → ℕ → Bytes × ℕ
unfolding move
skip m [] line = ([], line)
skip m (c ∷ s) line = elim (move m c s) [ stop ↦ (c ∷ s, line) | go m' n ↦ skip m' s (line + n) ]

-- The longest beginning whose characters pass the test, and the rest.
unfoldable pub span : (ℕ → Bool) → Bytes → Bytes × Bytes
span test [] = ([], [])
span test (c ∷ s) =
    let (taken, rest) = span test s in if test c then (c ∷ taken, rest) else ([], c ∷ s)

abbrev pub word_type : Bytes → TokenType
word_type w =
    if eq_text w Word.true || eq_text w Word.false
    then boolean_literal
    else if eq_text w (b'n' ∷ b'u' ∷ b'l' ∷ b'l' ∷ [])
    then null_literal
    else keyword

unfoldable pub read_word : Bytes → ℕ → Token × Bytes
unfolding span contains
read_word s line =
    let (value, rest) = span is_word s in
    if contains (lower value) keywords
    then (token (word_type (lower value)) (lower value) line, rest)
    else (token identifier value line, rest)

-- After the opening quote.
unfoldable pub read_string : ℕ → Bytes → ℕ → Result TokenError (Token × Bytes)
unfolding span
read_string quote s line =
    let (value, rest) = span (λ c. not (c == quote)) s in
    elim rest [
      | [] ↦ err (unterminated_string line)
      | _ ∷ rest' ↦ ok (token string_literal value line, rest')
    ]

-- The number behind its first character, a digit or a minus sign.
unfoldable pub read_number : ℕ → Bytes → ℕ → Token × Bytes
unfolding span
read_number c s line =
    let (whole, rest) = span is_digit s in
    elim rest [
      | [] ↦ (token int_literal (c ∷ whole) line, [])
      | d ∷ rest' ↦
          let (fraction, last) = span is_digit rest' in
          if d == b'.'
          then (token float_literal ((c ∷ whole) ++ d ∷ fraction) line, last)
          else (token int_literal (c ∷ whole) line, d ∷ rest')
    ]

-- The marks of one character.
unfoldable pub mark : ℕ → Option TokenType
mark c =
    if c == b'.'
    then some dot
    else if c == b','
    then some comma
    else if c == b'*'
    then some star
    else if c == b'('
    then some lparen
    else if c == b')'
    then some rparen
    else if c == b'{'
    then some lbrace
    else if c == b'}'
    then some rbrace
    else if c == b'['
    then some lbracket
    else if c == b']'
    then some rbracket
    else if c == b':'
    then some colon
    else none

abbrev pub is_operator : ℕ → Bool
is_operator c =
    c == b'>'
    || (c == b'<' || (c == b'=' || (c == b'!' || (c == b'+' || (c == b'-' || c == b'/')))))

abbrev pub two_characters : ℕ → Bool
two_characters c = c == b'!' || (c == b'<' || c == b'>')

unfoldable pub read_operator : ℕ → Bytes → ℕ → Result TokenError (Token × Bytes)
read_operator c [] line =
    if c == b'!' then err (unexpected_character c line) else ok (token operator (c ∷ []) line, [])
read_operator c (d ∷ s) line =
    if d == b'=' && two_characters c
    then ok (token operator (c ∷ d ∷ []) line, s)
    else if c == b'!'
    then err (unexpected_character c line)
    else ok (token operator (c ∷ []) line, d ∷ s)

abbrev pub starts_number : ℕ → Bytes → Bool
starts_number c [] = is_digit c
starts_number c (d ∷ s) = is_digit c || (c == b'-' && is_digit d)

unfoldable pub next_token : ℕ → Bytes → ℕ → Result TokenError (Token × Bytes)
unfolding mark read_string read_number read_word read_operator
next_token c s line = elim (mark c) [
  | some t ↦ ok (token t (c ∷ []) line, s)
  | none ↦
      if c == 39 || c == 34
      then read_string c s line
      else if starts_number c s
      then ok (read_number c s line)
      else if is_alpha c || c == b'_'
      then ok (read_word (c ∷ s) line)
      else if is_operator c
      then read_operator c s line
      else err (unexpected_character c line)
]

abbrev pub put_first :
    Token → Option (Result TokenError (List Token)) → Option (Result TokenError (List Token))
put_first t none = none
put_first t (some (err e)) = some (err e)
put_first t (some (ok ts)) = some (ok (t ∷ ts))

-- The loop of `Tokenize`; `none` means that the fuel ran out.
unfoldable pub tokenize_loop : ℕ → Bytes → ℕ → Option (Result TokenError (List Token))
unfolding skip next_token
tokenize_loop zero s line = none
tokenize_loop (suc f) s line =
    let (rest, line') = skip code s line in
    elim rest [
      | [] ↦ some (ok (token end_of_input [] line' ∷ []))
      | c ∷ s' ↦ elim (next_token c s' line') [
        | err e ↦ some (err e)
        | ok (t, rest') ↦ put_first t (tokenize_loop f rest' line')
      ]
    ]

unfoldable pub tokenize : Bytes → Option (Result TokenError (List Token))
unfolding tokenize_loop
tokenize input = tokenize_loop (length input + 1) input 1
