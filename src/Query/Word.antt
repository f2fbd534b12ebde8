-- ===== src/Query/Word.antt =====
-- The words that an operator, a function's name and a column's type are compared with (src/AQL).
use akatsuki_db.Base.{Bytes, [], ◌∷◌}

abbrev pub and : Bytes
and = b'a' ∷ b'n' ∷ b'd' ∷ []

abbrev pub or : Bytes
or = b'o' ∷ b'r' ∷ []

abbrev pub not : Bytes
not = b'n' ∷ b'o' ∷ b't' ∷ []

abbrev pub eq : Bytes
eq = b'=' ∷ []

abbrev pub ne : Bytes
ne = b'!' ∷ b'=' ∷ []

abbrev pub gt : Bytes
gt = b'>' ∷ []

abbrev pub ge : Bytes
ge = b'>' ∷ b'=' ∷ []

abbrev pub lt : Bytes
lt = b'<' ∷ []

abbrev pub le : Bytes
le = b'<' ∷ b'=' ∷ []

abbrev pub plus : Bytes
plus = b'+' ∷ []

abbrev pub minus : Bytes
minus = b'-' ∷ []

abbrev pub times : Bytes
times = b'*' ∷ []

abbrev pub over : Bytes
over = b'/' ∷ []

abbrev pub dot : Bytes
dot = b'.' ∷ []

abbrev pub coalesce : Bytes
coalesce = b'c' ∷ b'o' ∷ b'a' ∷ b'l' ∷ b'e' ∷ b's' ∷ b'c' ∷ b'e' ∷ []

abbrev pub nullif : Bytes
nullif = b'n' ∷ b'u' ∷ b'l' ∷ b'l' ∷ b'i' ∷ b'f' ∷ []

abbrev pub round : Bytes
round = b'r' ∷ b'o' ∷ b'u' ∷ b'n' ∷ b'd' ∷ []

abbrev pub len : Bytes
len = b'l' ∷ b'e' ∷ b'n' ∷ b'g' ∷ b't' ∷ b'h' ∷ []

abbrev pub upper : Bytes
upper = b'u' ∷ b'p' ∷ b'p' ∷ b'e' ∷ b'r' ∷ []

abbrev pub lower : Bytes
lower = b'l' ∷ b'o' ∷ b'w' ∷ b'e' ∷ b'r' ∷ []

abbrev pub null : Bytes
null = b'N' ∷ b'U' ∷ b'L' ∷ b'L' ∷ []

abbrev pub true : Bytes
true = b't' ∷ b'r' ∷ b'u' ∷ b'e' ∷ []

abbrev pub false : Bytes
false = b'f' ∷ b'a' ∷ b'l' ∷ b's' ∷ b'e' ∷ []

abbrev pub int : Bytes
int = b'i' ∷ b'n' ∷ b't' ∷ []

abbrev pub float : Bytes
float = b'f' ∷ b'l' ∷ b'o' ∷ b'a' ∷ b't' ∷ []

abbrev pub bool : Bytes
bool = b'b' ∷ b'o' ∷ b'o' ∷ b'l' ∷ []

abbrev pub str : Bytes
str = b's' ∷ b't' ∷ b'r' ∷ []
