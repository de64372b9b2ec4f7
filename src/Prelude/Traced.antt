-- ===== src/Prelude/Traced.antt =====
-- Code as what it does in order: a function of the events before it to a value and the events after
-- it. What it meets outside is answered by functions of the events so far.
use mathlib.Core.Option.{Option, none, some}
use mathlib.Core.List.{List, [], ◌∷◌}
use rwx.Prelude.Result.{Result, err, ok}

-- Code of events of type `A`: it has those before it, the last first, and adds to them.
abbrev pub Traced {ℓ κ} : Type ℓ → Type κ → Type (ℓ ⊔ κ)
Traced A V = List A → V × List A

module _ {ℓ κ μ} {A : Type ℓ} {V : Type κ} {U : Type μ} where
  infixl 5 ◌>>=◌
  unfoldable pub ◌>>=◌ : Traced A V → (V → Traced A U) → Traced A U
  (m >>= rest) h = let step = m h in rest step.0 step.1

module _ {ℓ κ} {A : Type ℓ} {U : Type κ} where
  infixl 5 ◌>>◌
  unfoldable pub ◌>>◌ : Traced A (Unit {0}) → Traced A U → Traced A U
  (m >> rest) h = rest (m h).1

  unfoldable pub return : U → Traced A U
  return u h = (u, h)

unfoldable pub log {ℓ} : {A : Type ℓ} → A → Traced A (Unit {0})
log e h = (tt, e ∷ h)

module _ {ℓ κ μ} {A : Type ℓ} {V : Type κ} {U : Type μ} where
  -- `if err != nil { ... }` in front of the rest; `none` is nil.
  unfoldable pub on_error : Option V → (V → Traced A U) → Traced A U → Traced A U
  on_error none failed rest = rest
  on_error (some e) failed rest = failed e

  -- `if len(values) == 0 { ... }` in front of the rest.
  unfoldable pub on_empty : List V → Traced A U → (V → List V → Traced A U) → Traced A U
  on_empty [] empty rest = empty
  on_empty (v ∷ vs) empty rest = rest v vs

-- `if err != nil { ... }` in front of the rest, on a value or an error.
unfoldable pub on_result {ℓ κ μ ν} :
    {A : Type ℓ} {E : Type κ} {V : Type μ} {U : Type ν}
    → Result E V
    → (E → Traced A U)
    → (V → Traced A U)
    → Traced A U
on_result (err e) failed rest = failed e
on_result (ok v) failed rest = rest v
