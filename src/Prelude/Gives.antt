-- ===== src/Prelude/Gives.antt =====
-- What holds of the value that traced code returns, on every path: one rule for each way to build it.
use mathlib.Core.Bool.{Bool, true, false}
use mathlib.Core.Option.{Option, none, some}
use mathlib.Core.List.{List, [], ◌∷◌}
use rwx.Prelude.Tests.{if◌then◌else◌}
use rwx.Prelude.Result.{Result, ok, err}
use rwx.Prelude.Traced.{Traced, ◌>>=◌, ◌>>◌, return, on_error, on_result, on_empty}

-- Whatever came before, the code returns a value with `Q`.
pub record Gives {ℓ κ} {A : Type ℓ} {V : Type κ} (Q : V → Type 0) (m : Traced A V) : Type ℓ where
  pub at : (h : List A) → Q (m h).0

module _ {ℓ κ} {A : Type ℓ} {V : Type κ} (Q : V → Type 0) where
  pub Gives-return : (v : V) → Q v → Gives {A = A} Q (return v)
  unfolding return
  Gives-return v q = record { at = λ h. q }

  pub Gives-bool :
      (t : Bool) (m n : Traced A V) → Gives Q m → Gives Q n → Gives Q (if t then m else n)
  Gives-bool true m n f g = f
  Gives-bool false m n f g = g

  pub Gives-then : (m : Traced A (Unit {0})) (n : Traced A V) → Gives Q n → Gives Q (m >> n)
  unfolding ◌>>◌
  Gives-then m n g = record { at = λ h. g.at (m h).1 }

module _ {ℓ κ μ} {A : Type ℓ} {V : Type κ} {U : Type μ} (Q : U → Type 0) where
  pub Gives-bind :
      (m : Traced A V) (rest : V → Traced A U) → ((v : V) → Gives Q (rest v)) → Gives Q (m >>= rest)
  unfolding ◌>>=◌
  Gives-bind m rest g = record { at = λ h. (g (m h).0).at (m h).1 }

  -- what is known of the first value may be used
  pub Gives-after :
      (P : V → Type 0) (m : Traced A V) (rest : V → Traced A U)
      → Gives P m
      → ((v : V) → P v → Gives Q (rest v))
      → Gives Q (m >>= rest)
  unfolding ◌>>=◌
  Gives-after P m rest f g = record { at = λ h. (g (m h).0 (f.at h)).at (m h).1 }

  pub Gives-option :
      (o : Option V) (m : Traced A U) (n : V → Traced A U)
      → Gives Q m
      → ((v : V) → Gives Q (n v))
      → Gives Q (on_error o n m)
  unfolding on_error
  Gives-option none m n f g = f
  Gives-option (some v) m n f g = g v

  pub Gives-list :
      (l : List V) (m : Traced A U) (n : V → List V → Traced A U)
      → Gives Q m
      → ((v : V) (vs : List V) → Gives Q (n v vs))
      → Gives Q (on_empty l m n)
  unfolding on_empty
  Gives-list [] m n f g = f
  Gives-list (v ∷ vs) m n f g = g v vs

pub Gives-result {ℓ κ μ ν} :
    {A : Type ν} {E : Type ℓ} {V : Type κ} {U : Type μ} (Q : U → Type 0) (r : Result E V)
    (m : E → Traced A U) (n : V → Traced A U)
    → ((e : E) → Gives Q (m e))
    → ((v : V) → Gives Q (n v))
    → Gives Q (on_result r m n)
unfolding on_result
Gives-result Q (err e) m n f g = f e
Gives-result Q (ok v) m n f g = g v

pub ruleset gives_rules =
    (Gives-return, Gives-bool, Gives-then, Gives-bind, Gives-option, Gives-list, Gives-result)
