-- ===== src/Base/Outcome.antt =====
-- What a call gives: a value, or the exception that it throws.
use mathlib.Core.Path.{◌≡◌, refl}
use native.Mathlib.Omega.{arith}

pub data Result {ℓ κ} (X : Type κ) (V : Type ℓ) : Type (ℓ ⊔ κ) where
  ok : V → Result X V
  err : X → Result X V

-- The next call is made only after a value.
infixl 5 ◌>>=◌
abbrev pub ◌>>=◌ {ℓ κ λ'} :
    {X : Type κ} {V : Type ℓ} {W : Type λ'} → Result X V → (V → Result X W) → Result X W
ok value >>= next_call = next_call value
err thrown >>= next_call = err thrown

-- A bind that gives a value had a value to begin with.
pub >>=-ok {ℓ κ λ'} :
    {X : Type κ} {V : Type ℓ} {W : Type λ'} (r : Result X V) (next_call : V → Result X W) {w : W}
    → (r >>= next_call) ≡ ok w
    → (v : V) × (r ≡ ok v) × (next_call v ≡ ok w)
>>=-ok (ok v) next_call h = (v, refl, h)
>>=-ok (err x) next_call h = absurd (ground arith)

pub ok-inj {ℓ κ} : {X : Type κ} {V : Type ℓ} {v w : V} → ◌≡◌ {A = Result X V} (ok v) (ok w) → v ≡ w
ok-inj h = ground arith
