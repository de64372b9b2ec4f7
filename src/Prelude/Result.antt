-- ===== src/Prelude/Result.antt =====
-- Functions that may fail: a value, or an error of the model's own type.
use mathlib.Core.Path.{◌≡◌, refl}
use mathlib.Core.Logic.{◌⊎◌, inl, inr}

-- Go's pair of a value and an error, of which one counts.
pub data Result {ℓ κ} (E : Type ℓ) (V : Type κ) : Type (ℓ ⊔ κ) where
  err : E → Result E V
  ok : V → Result E V

pub Result-cases {ℓ κ} :
    {E : Type ℓ} {V : Type κ} (r : Result E V) → ((v : V) × (r ≡ ok v)) ⊎ ((e : E) × (r ≡ err e))
Result-cases (err e) = inr (e, refl)
Result-cases (ok v) = inl (v, refl)

module _ {ℓ κ μ} {E : Type ℓ} {V : Type κ} {W : Type μ} where
  infixl 5 ◌>>=◌
  -- `if err != nil { return err }`
  abbrev pub ◌>>=◌ : Result E V → (V → Result E W) → Result E W
  r >>= rest = elim r [ err e ↦ err e | ok v ↦ rest v ]

  -- A chain that succeeds has succeeded in its first step.
  pub >>=-eq-ok :
      (r : Result E V) (rest : V → Result E W) {w : W}
      → (r >>= rest) ≡ ok w
      → (v : V) × (r ≡ ok v) × (rest v ≡ ok w)
  >>=-eq-ok (ok v) rest h = (v, refl, h)
  >>=-eq-ok (err e) rest h = cc

infixl 5 ◌>>◌
abbrev pub ◌>>◌ {ℓ κ} : {E : Type ℓ} {W : Type κ} → Result E (Unit {0}) → Result E W → Result E W
r >> rest = elim r [ err e ↦ err e | ok _ ↦ rest ]
