-- ===== src/Query/Like/Matching.antt =====
-- `Executor::LikeMatch` against an inductive definition of what a pattern takes.
use akatsuki_db.Base.{
  ℕ, ◌≡◌, refl, sym, ◌∙◌, ◌↔◌, Bool, true, false, ◌||◌, ◌&&◌, [], ◌∷◌, Bytes, ◌==◌, ==_iff, ==_refl,
  arith, Bool-cases, inl, inr,
}
use mathlib.Core.Path.{subst}
use akatsuki_db.Query.Like.{percent, question, like_match}
use akatsuki_db.Query.Like.Meaning.{
  any_suffix, likes, likes-percent, likes-one, likes-miss, like_match-likes,
}

-- `%` stands for any text, `?` for any one character, any other character for itself.
pub data Matches : Bytes → Bytes → Type 0 where
  done : Matches [] []
  skip : {p s : Bytes} → Matches p s → Matches (percent ∷ p) s
  take : {p s : Bytes} (c : ℕ) → Matches (percent ∷ p) s → Matches (percent ∷ p) (c ∷ s)
  any : {p s : Bytes} (c : ℕ) → Matches p s → Matches (question ∷ p) (c ∷ s)
  same : {p s : Bytes} (c : ℕ) → Matches p s → Matches (c ∷ p) (c ∷ s)

any_suffix-Matches :
    (p s : Bytes)
    → any_suffix (likes p) s ≡ true
    → ((t : Bytes) → likes p t ≡ true → Matches p t)
    → Matches (percent ∷ p) s
unfolding any_suffix
any_suffix-Matches p [] h rest = skip (rest [] h)
any_suffix-Matches p (c ∷ s) h rest = elim (Bool-cases (likes p (c ∷ s))) [
  | inl e ↦ skip (rest (c ∷ s) e)
  | inr e ↦ take c (any_suffix-Matches p s (rw e at h) rest)
]

likes-Matches : (p s : Bytes) → likes p s ≡ true → Matches p s
likes-Matches [] [] h = done
likes-Matches [] (c ∷ s) h = absurd (unfold likes in ground arith)
likes-Matches (q ∷ p) [] h =
    let (e, r) = and_true {a = q == percent} {b = likes p []} (unfold likes in h) in
    subst (λ x. Matches (x ∷ p) []) (sym ((==_iff q percent).0 e)) (skip (likes-Matches p [] r))
  where
    and_true : {a b : Bool} → (a && b) ≡ true → (a ≡ true) × (b ≡ true)
    and_true h = ground arith
likes-Matches (q ∷ p) (c ∷ s) h =
    by_cases (q == percent) refl (q == question) refl (q == c) refl (likes-Matches p)
  where
    false≢true : false ≡ true → ⊥
    false≢true h = ground arith

    by_cases :
        (a : Bool)
        → (q == percent) ≡ a
        → (b : Bool) → (q == question) ≡ b
        → (d : Bool) → (q == c) ≡ d
        → ((t : Bytes) → likes p t ≡ true → Matches p t)
        → Matches (q ∷ p) (c ∷ s)
    by_cases true ea b eb d ed rest =
        subst (λ x. Matches (x ∷ p) (c ∷ s)) (sym ((==_iff q percent).0 ea))
          (any_suffix-Matches p (c ∷ s) (sym (likes-percent q p c s ea) ∙ h) rest)
    by_cases false ea true eb d ed rest =
        subst (λ x. Matches (x ∷ p) (c ∷ s)) (sym ((==_iff q question).0 eb))
          (any c (rest s (sym (likes-one q p c s ea (ground arith)) ∙ h)))
    by_cases false ea false eb true ed rest =
        subst (λ x. Matches (x ∷ p) (c ∷ s)) (sym ((==_iff q c).0 ed))
          (same c (rest s (sym (likes-one q p c s ea (ground arith)) ∙ h)))
    by_cases false ea false eb false ed rest =
        absurd (false≢true (sym (likes-miss q p c s ea (ground arith)) ∙ h))

module _ (p : Bytes) where
  likes-skip : (s : Bytes) → likes (percent ∷ p) s ≡ any_suffix (likes p) s
  unfolding likes any_suffix
  likes-skip [] = refl
  likes-skip (c ∷ s) = likes-percent percent p c s refl

  any_suffix-here : (s : Bytes) → likes p s ≡ true → any_suffix (likes p) s ≡ true
  unfolding any_suffix
  any_suffix-here [] h = h
  any_suffix-here (c ∷ s) h = rw h

  any_suffix-later :
      (c : ℕ) (s : Bytes) → any_suffix (likes p) s ≡ true → any_suffix (likes p) (c ∷ s) ≡ true
  unfolding any_suffix
  any_suffix-later c s h = ground arith

  likes-same : (c : ℕ) (s : Bytes) → likes p s ≡ true → likes (c ∷ p) (c ∷ s) ≡ true
  likes-same c s h = elim (Bool-cases (c == percent)) [
    | inl e ↦ likes-percent c p c s e ∙ any_suffix-later c s (any_suffix-here s h)
    | inr e ↦ likes-one c p c s e (taken (c == question) (==_refl c)) ∙ h
  ]
    where
      taken : (b : Bool) → (c == c) ≡ true → (b || c == c) ≡ true
      taken b k = ground arith

Matches-likes : {p s : Bytes} → Matches p s → likes p s ≡ true
Matches-likes done = unfold likes in refl
Matches-likes (skip {p} {s} m) = likes-skip p s ∙ any_suffix-here p s (Matches-likes m)
Matches-likes (take {p} {s} c m) =
    likes-skip p (c ∷ s) ∙ any_suffix-later p c s (sym (likes-skip p s) ∙ Matches-likes m)
Matches-likes (any {p} {s} c m) = likes-one question p c s refl refl ∙ Matches-likes m
Matches-likes (same {p} {s} c m) = likes-same p c s (Matches-likes m)

-- LIKE answers true exactly for the texts that the pattern takes, where `%` stands for any text, `?`
-- for any one character and any other character for itself: the table of results changes nothing.
pub like_match-Matches : (s p : Bytes) → (like_match s p ≡ true) ↔ Matches p s
like_match-Matches s p = (
  λ h. likes-Matches p s (sym (like_match-likes s p) ∙ h),
  λ m. like_match-likes s p ∙ Matches-likes m,
)
