-- ===== src/Query/Like/Meaning.antt =====
-- What a LIKE pattern means, and that the memoised search finds it.
use akatsuki_db.Base.{
  ℕ, zero, suc, ◌+◌, ◌≡◌, refl, sym, ap, ◌∙◌, Bool, true, false, ◌||◌, ◌&&◌, Option, none, some, [],
  ◌∷◌, Bytes, drop, ◌==◌, if◌then◌else◌, arith, Bool-cases, inl, inr,
}
use mathlib.Core.Path.{subst, ap₂}
use akatsuki_db.Query.Like.{
  Memo, remember, percent, question, all_percent, try_from, rec_like, like_match,
}

-- What the search computes, with no table. A `%` in the text itself is matched by `%` either way.
unfoldable pub any_suffix : (Bytes → Bool) → Bytes → Bool
any_suffix f [] = f []
any_suffix f (c ∷ s) = f (c ∷ s) || any_suffix f s

unfoldable pub likes : Bytes → Bytes → Bool
unfolding any_suffix
likes [] [] = true
likes [] (c ∷ s) = false
likes (q ∷ p) [] = q == percent && likes p []
likes (q ∷ p) (c ∷ s) =
    if q == percent then any_suffix (likes p) (c ∷ s) else (q == question || q == c) && likes p s

all_percent-likes : (p : Bytes) → all_percent p ≡ likes p []
unfolding all_percent likes
all_percent-likes [] = refl
all_percent-likes (q ∷ p) = rw (all_percent-likes p)

-- The clauses of both at a pattern and a text that go on.
module _ (q : ℕ) (p : Bytes) (c : ℕ) (s : Bytes) where
  pub likes-percent : (q == percent) ≡ true → likes (q ∷ p) (c ∷ s) ≡ any_suffix (likes p) (c ∷ s)
  unfolding likes
  likes-percent h = rw h

  pub likes-one :
      (q == percent) ≡ false → (q == question || q == c) ≡ true → likes (q ∷ p) (c ∷ s) ≡ likes p s
  unfolding likes
  likes-one h k = rw (h, k)

  pub likes-miss :
      (q == percent) ≡ false → (q == question || q == c) ≡ false → likes (q ∷ p) (c ∷ s) ≡ false
  unfolding likes
  likes-miss h k = rw (h, k)

abbrev answer : Option Bool → Bool → Bool → ℕ → ℕ → Bool × Memo → Bool × Memo → Memo → Bool × Memo
answer known a b i j loop next dp = elim known [
  | some x ↦ (x, dp)
  | none ↦
      if a then remember i j loop else if b then remember i j next else remember i j (false, dp)
]

rec_like-cons :
    (q : ℕ) (p : Bytes) (j c : ℕ) (s : Bytes) (i : ℕ) (dp : Memo)
    → rec_like (q ∷ p) j (c ∷ s) i dp
      ≡ answer
          (dp i j)
          (q == percent)
          (q == question || q == c)
          i
          j
          (try_from (λ t k m. rec_like p (j + 1) t k m) (c ∷ s) i dp)
          (rec_like p (j + 1) s (i + 1) dp)
          dp
unfolding rec_like
rec_like-cons q p j c s i dp = refl

module _ (S P : Bytes) where
  -- Every entry of the table is the answer for its two suffixes.
  abbrev IsSound : Memo → Type 0
  IsSound dp = (i j : ℕ) (b : Bool) → dp i j ≡ some b → b ≡ likes (drop j P) (drop i S)

  -- A result is right and leaves a sound table.
  abbrev IsRight : Bytes → Bytes → Bool × Memo → Type 0
  IsRight p s r = (r.0 ≡ likes p s) × IsSound r.1

  add_one : (k : ℕ) → suc k ≡ k + 1
  add_one k = omega arith

  drop-suc : (n : ℕ) (L : Bytes) (c : ℕ) (s : Bytes) → c ∷ s ≡ drop n L → s ≡ drop (suc n) L
  drop-suc zero [] c s h = absurd (ground arith)
  drop-suc (suc n) [] c s h = absurd (ground arith)
  drop-suc zero (x ∷ L) c s h = ground arith
  drop-suc (suc n) (x ∷ L) c s h = drop-suc n L c s h

  drop-next : (n : ℕ) (L : Bytes) (c : ℕ) (s : Bytes) → c ∷ s ≡ drop n L → s ≡ drop (n + 1) L
  drop-next n L c s h = drop-suc n L c s h ∙ ap (λ k. drop k L) (add_one n)

  remember-IsRight :
      (i j : ℕ) (p s : Bytes) (r : Bool × Memo)
      → p ≡ drop j P
      → s ≡ drop i S
      → IsRight p s r
      → IsRight p s (remember i j r)
  unfolding remember
  remember-IsRight i j p s (b, dp) ep es (e, sound) = (
    e,
    λ k l b' h. elim (Bool-cases (k == i && l == j)) [
      | inl t ↦
          let (ek, el) = indices k l t in
          let value : b' ≡ b = same_value (rw t at h) in
          value
          ∙ e
          ∙ ap (λ x. likes x s) ep
          ∙ ap (λ x. likes (drop j P) x) es
          ∙ ap (λ x. likes (drop x P) (drop i S)) (sym el)
          ∙ ap (λ x. likes (drop l P) (drop x S)) (sym ek)
      | inr t ↦ sound k l b' (rw t at h)
    ],
  )
    where
      indices : (k l : ℕ) → (k == i && l == j) ≡ true → (k ≡ i) × (l ≡ j)
      indices k l t = ground arith

      same_value : {b' : Bool} → some b ≡ some b' → b' ≡ b
      same_value h = ground arith

  -- The loop over the suffixes, given that the rest of the pattern is matched rightly.
  try_from-IsRight :
      (p : Bytes) (f : Bytes → ℕ → Memo → Bool × Memo)
      → ((t : Bytes) (k : ℕ) (m : Memo) → t ≡ drop k S → IsSound m → IsRight p t (f t k m))
      → (s : Bytes) (i : ℕ) (dp : Memo) → s ≡ drop i S
      → IsSound dp
      → ((try_from f s i dp).0 ≡ any_suffix (likes p) s) × IsSound (try_from f s i dp).1
  unfolding try_from any_suffix
  try_from-IsRight p f right [] i dp es sound = right [] i dp es sound
  try_from-IsRight p f right (c ∷ s) i dp es sound =
      let (e, sound') = right (c ∷ s) i dp es sound in
      elim (Bool-cases ((f (c ∷ s) i dp).0)) [
        | inl t ↦ rw (t, sym e ∙ t) (refl, sound')
        | inr t ↦
            rw (t, sym e ∙ t)
              (try_from-IsRight p f right s (i + 1) (f (c ∷ s) i dp).1 (drop-next i S c s es)
                sound')
      ]

  rec_like-IsRight :
      (p : Bytes) (j : ℕ) (s : Bytes) (i : ℕ) (dp : Memo)
      → p ≡ drop j P
      → s ≡ drop i S
      → IsSound dp
      → IsRight p s (rec_like p j s i dp)
  rec_like-IsRight [] j [] i dp ep es sound =
      (unfold rec_like likes in refl, unfold rec_like in sound)
  rec_like-IsRight [] j (c ∷ s) i dp ep es sound =
      (unfold rec_like likes in refl, unfold rec_like in sound)
  rec_like-IsRight (q ∷ p) j [] i dp ep es sound =
      (unfold rec_like in all_percent-likes (q ∷ p), unfold rec_like in sound)
  rec_like-IsRight (q ∷ p) j (c ∷ s) i dp ep es sound =
      let ep' = drop-next j P q p ep in
      let es' = drop-next i S c s es in
      let right : (t : Bytes) (k : ℕ) (m : Memo)
          → t ≡ drop k S
          → IsSound m
          → IsRight p t (rec_like p (j + 1) t k m) =
        λ t k m et sm. rec_like-IsRight p (j + 1) t k m ep' et sm in
      let (e_loop, sound_loop) =
        try_from-IsRight p (λ t k m. rec_like p (j + 1) t k m) right (c ∷ s) i dp es sound in
      let (e_next, sound_next) = rec_like-IsRight p (j + 1) s (i + 1) dp ep' es' sound in
      subst (IsRight (q ∷ p) (c ∷ s)) (sym (rec_like-cons q p j c s i dp)) (
        by_cases q c (dp i j) refl (q == percent) refl (q == question || q == c) refl
          (e_loop, sound_loop) (e_next, sound_next) ep es sound)
    where
      by_cases :
          (q c : ℕ) (known : Option Bool)
          → dp i j ≡ known
          → (a : Bool) → (q == percent) ≡ a
          → (b : Bool) → (q == question || q == c) ≡ b
          → {loop next : Bool × Memo} → ((loop.0 ≡ any_suffix (likes p) (c ∷ s)) × IsSound loop.1)
          → IsRight p s next
          → q ∷ p ≡ drop j P
          → c ∷ s ≡ drop i S
          → IsSound dp
          → IsRight (q ∷ p) (c ∷ s) (answer known a b i j loop next dp)
      by_cases q c (some x) e a ea b eb L N ep es sound =
          (sound i j x e ∙ ap₂ likes (sym ep) (sym es), sound)
      by_cases q c none e true ea b eb {loop} (el, sl) N ep es sound =
          remember-IsRight i j (q ∷ p) (c ∷ s) loop ep es (el ∙ sym (likes-percent q p c s ea), sl)
      by_cases q c none e false ea true eb {loop} {next} L (en, sn) ep es sound =
          remember-IsRight i j (q ∷ p) (c ∷ s) next ep es (en ∙ sym (likes-one q p c s ea eb), sn)
      by_cases q c none e false ea false eb L N ep es sound =
          remember-IsRight i j (q ∷ p) (c ∷ s) (false, dp) ep es
            (sym (likes-miss q p c s ea eb), sound)

-- The search with its table gives the answer of the plain definition.
pub like_match-likes : (s p : Bytes) → like_match s p ≡ likes p s
unfolding like_match
like_match-likes s p =
    (rec_like-IsRight s p p 0 s 0 (λ _ _. none) refl refl (λ i j b h. absurd (none≢some b h))).0
  where
    none≢some : (b : Bool) → none ≡ some b → ⊥
    none≢some b h = ground arith
