-- ===== src/Query/Like.antt =====
-- `Executor::LikeMatch` and `RecLike` (src/AQL/Executor/ExecuteExpression.cpp). The two indices go
-- with what is left of the text and of the pattern; the table of results is handed on.
pub mod Meaning
pub mod Matching
use akatsuki_db.Base.{
  ℕ, ◌+◌, Bool, true, false, ◌||◌, Option, none, some, List, [], ◌∷◌, Bytes, ◌==◌, ◌&&◌,
  if◌then◌else◌,
}

-- `dp[i][j]`, with `none` for -1
abbrev pub Memo : Type 0
Memo = ℕ → ℕ → Option Bool

unfoldable pub remember : ℕ → ℕ → Bool × Memo → Bool × Memo
remember i j (b, dp) = (b, λ k l. if k == i && l == j then some b else dp k l)

abbrev pub percent : ℕ
percent = b'%'

abbrev pub question : ℕ
question = b'?'

-- The pattern that is left when the text is used up.
unfoldable pub all_percent : Bytes → Bool
all_percent [] = true
all_percent (q ∷ p) = q == percent && all_percent p

-- The loop over `k`: it stops at the first suffix of the text that the rest of the pattern takes.
unfoldable pub try_from : (Bytes → ℕ → Memo → Bool × Memo) → Bytes → ℕ → Memo → Bool × Memo
try_from match_rest [] k dp = match_rest [] k dp
try_from match_rest (c ∷ s) k dp =
    let (found, dp') = match_rest (c ∷ s) k dp in
    let later = try_from match_rest s (k + 1) dp' in if found then (true, dp') else later

unfoldable pub rec_like : Bytes → ℕ → Bytes → ℕ → Memo → Bool × Memo
unfolding all_percent try_from remember
rec_like [] j [] i dp = (true, dp)
rec_like [] j (c ∷ s) i dp = (false, dp)
rec_like (q ∷ p) j [] i dp = (all_percent (q ∷ p), dp)
rec_like (q ∷ p) j (c ∷ s) i dp =
    let from_here = try_from (λ t k m. rec_like p (j + 1) t k m) (c ∷ s) i dp in
    let next = rec_like p (j + 1) s (i + 1) dp in
    elim (dp i j) [
      | some known ↦ (known, dp)
      | none ↦
          if q == percent
          then remember i j from_here
          else if q == question || q == c
          then remember i j next
          else remember i j (false, dp)
    ]

unfoldable pub like_match : Bytes → Bytes → Bool
unfolding rec_like
like_match s pattern' = (rec_like pattern' 0 s 0 (λ _ _. none)).0
