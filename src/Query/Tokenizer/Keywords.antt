-- ===== src/Query/Tokenizer/Keywords.antt =====
-- `Tokenizer::GetKeywords` (src/AQL/Tokenizer.cpp).
use akatsuki_db.Base.{Bool, false, ◌||◌, List, [], ◌∷◌, Bytes}
use akatsuki_db.Query.Text.{eq_text}

abbrev pub keywords : List Bytes
keywords =
    (b's' ∷ b'e' ∷ b'l' ∷ b'e' ∷ b'c' ∷ b't' ∷ [])
    ∷ (b'f' ∷ b'r' ∷ b'o' ∷ b'm' ∷ [])
    ∷ (b'w' ∷ b'h' ∷ b'e' ∷ b'r' ∷ b'e' ∷ [])
    ∷ (b'i' ∷ b'n' ∷ b's' ∷ b'e' ∷ b'r' ∷ b't' ∷ [])
    ∷ (b'i' ∷ b'n' ∷ b't' ∷ b'o' ∷ [])
    ∷ (b'u' ∷ b'p' ∷ b'd' ∷ b'a' ∷ b't' ∷ b'e' ∷ [])
    ∷ (b's' ∷ b'h' ∷ b'o' ∷ b'w' ∷ [])
    ∷ (b's' ∷ b'c' ∷ b'h' ∷ b'e' ∷ b'm' ∷ b'a' ∷ [])
    ∷ (b't' ∷ b'a' ∷ b'b' ∷ b'l' ∷ b'e' ∷ b's' ∷ [])
    ∷ (b'i' ∷ b'n' ∷ b'd' ∷ b'e' ∷ b'x' ∷ b'e' ∷ b's' ∷ [])
    ∷ (b't' ∷ b'r' ∷ b'i' ∷ b'g' ∷ b'g' ∷ b'e' ∷ b'r' ∷ b's' ∷ [])
    ∷ (b't' ∷ b'r' ∷ b'u' ∷ b'n' ∷ b'c' ∷ b'a' ∷ b't' ∷ b'e' ∷ [])
    ∷ (b'd' ∷ b'e' ∷ b'l' ∷ b'e' ∷ b't' ∷ b'e' ∷ [])
    ∷ (b'c' ∷ b'r' ∷ b'e' ∷ b'a' ∷ b't' ∷ b'e' ∷ [])
    ∷ (b't' ∷ b'a' ∷ b'b' ∷ b'l' ∷ b'e' ∷ [])
    ∷ (b'd' ∷ b'r' ∷ b'o' ∷ b'p' ∷ [])
    ∷ (b'a' ∷ b'l' ∷ b't' ∷ b'e' ∷ b'r' ∷ [])
    ∷ (b'p' ∷ b'k' ∷ [])
    ∷ (b'f' ∷ b'k' ∷ [])
    ∷ (b'd' ∷ b'e' ∷ b'f' ∷ b'a' ∷ b'u' ∷ b'l' ∷ b't' ∷ [])
    ∷ (b'o' ∷ b'f' ∷ b'f' ∷ b's' ∷ b'e' ∷ b't' ∷ [])
    ∷ (b'n' ∷ b'u' ∷ b'l' ∷ b'l' ∷ [])
    ∷ (b'o' ∷ b'n' ∷ [])
    ∷ (b'i' ∷ b'n' ∷ b'd' ∷ b'e' ∷ b'x' ∷ [])
    ∷ (b'a' ∷ b'u' ∷ b't' ∷ b'o' ∷ [])
    ∷ (b'n' ∷ b'o' ∷ b't' ∷ [])
    ∷ (b't' ∷ b'r' ∷ b'u' ∷ b'e' ∷ [])
    ∷ (b'f' ∷ b'a' ∷ b'l' ∷ b's' ∷ b'e' ∷ [])
    ∷ (b'a' ∷ b'n' ∷ b'd' ∷ [])
    ∷ (b'o' ∷ b'r' ∷ [])
    ∷ (b'c' ∷ b'a' ∷ b's' ∷ b'c' ∷ b'a' ∷ b'd' ∷ b'e' ∷ [])
    ∷ (b'r' ∷ b'e' ∷ b's' ∷ b't' ∷ b'r' ∷ b'i' ∷ b'c' ∷ b't' ∷ [])
    ∷ (b'j' ∷ b'o' ∷ b'i' ∷ b'n' ∷ [])
    ∷ (b'l' ∷ b'e' ∷ b'f' ∷ b't' ∷ [])
    ∷ (b'r' ∷ b'i' ∷ b'g' ∷ b'h' ∷ b't' ∷ [])
    ∷ (b'i' ∷ b'n' ∷ b'n' ∷ b'e' ∷ b'r' ∷ [])
    ∷ (b'o' ∷ b'r' ∷ b'd' ∷ b'e' ∷ b'r' ∷ [])
    ∷ (b'b' ∷ b'y' ∷ [])
    ∷ (b'a' ∷ b's' ∷ b'c' ∷ [])
    ∷ (b'd' ∷ b'e' ∷ b's' ∷ b'c' ∷ [])
    ∷ (b'g' ∷ b'r' ∷ b'o' ∷ b'u' ∷ b'p' ∷ [])
    ∷ (b'h' ∷ b'a' ∷ b'v' ∷ b'i' ∷ b'n' ∷ b'g' ∷ [])
    ∷ (b'l' ∷ b'i' ∷ b'm' ∷ b'i' ∷ b't' ∷ [])
    ∷ (b'i' ∷ b'n' ∷ [])
    ∷ (b'b' ∷ b'e' ∷ b't' ∷ b'w' ∷ b'e' ∷ b'e' ∷ b'n' ∷ [])
    ∷ (b'l' ∷ b'i' ∷ b'k' ∷ b'e' ∷ [])
    ∷ (b'd' ∷ b'i' ∷ b's' ∷ b't' ∷ b'i' ∷ b'n' ∷ b'c' ∷ b't' ∷ [])
    ∷ (b'o' ∷ b'v' ∷ b'e' ∷ b'r' ∷ [])
    ∷ (b'p' ∷ b'a' ∷ b'r' ∷ b't' ∷ b'i' ∷ b't' ∷ b'i' ∷ b'o' ∷ b'n' ∷ [])
    ∷ (b'r' ∷ b'o' ∷ b'w' ∷ b'_' ∷ b'n' ∷ b'u' ∷ b'm' ∷ b'b' ∷ b'e' ∷ b'r' ∷ [])
    ∷ (b's' ∷ b'u' ∷ b'm' ∷ [])
    ∷ (b'c' ∷ b'o' ∷ b'u' ∷ b'n' ∷ b't' ∷ [])
    ∷ (b'a' ∷ b'v' ∷ b'g' ∷ [])
    ∷ (b'm' ∷ b'i' ∷ b'n' ∷ [])
    ∷ (b'm' ∷ b'a' ∷ b'x' ∷ [])
    ∷ (b'b' ∷ b'e' ∷ b'g' ∷ b'i' ∷ b'n' ∷ [])
    ∷ (b'c' ∷ b'o' ∷ b'm' ∷ b'm' ∷ b'i' ∷ b't' ∷ [])
    ∷ (b'r' ∷ b'o' ∷ b'l' ∷ b'l' ∷ b'b' ∷ b'a' ∷ b'c' ∷ b'k' ∷ [])
    ∷ (b'i' ∷ b'n' ∷ b't' ∷ [])
    ∷ (b'f' ∷ b'l' ∷ b'o' ∷ b'a' ∷ b't' ∷ [])
    ∷ (b's' ∷ b't' ∷ b'r' ∷ [])
    ∷ []

unfoldable pub contains : Bytes → List Bytes → Bool
contains w [] = false
contains w (k ∷ ks) = eq_text k w || contains w ks
