-- ===== src/Prelude/Leads.antt =====
-- What holds of the events before and after traced code: one rule for each way to build it.
use mathlib.Core.Path.{◌≡◌, refl}
use mathlib.Core.Bool.{Bool, true, false}
use mathlib.Core.Option.{Option, none, some}
use mathlib.Core.List.{List, [], ◌∷◌}
use rwx.Prelude.Tests.{if◌then◌else◌}
use rwx.Prelude.Result.{Result, ok, err}
use rwx.Prelude.Traced.{Traced, ◌>>=◌, ◌>>◌, return, on_error, on_result, on_empty}

-- From a history with `P`, the code ends in one with `Q`, on every path.
pub record Leads {ℓ κ} {A : Type ℓ} {V : Type κ} (P Q : List A → Type 0) (m : Traced A V)
    : Type ℓ where
  pub at : (h : List A) → P h → Q (m h).1

module _ {ℓ κ} {A : Type ℓ} {V : Type κ} where
  pub Leads-return : (P : List A → Type 0) (v : V) → Leads P P (return v)
  unfolding return
  Leads-return P v = record { at = λ h p. p }

  pub Leads-bool :
      (P Q : List A → Type 0) (t : Bool) (m n : Traced A V)
      → Leads P Q m
      → Leads P Q n
      → Leads P Q (if t then m else n)
  Leads-bool P Q true m n f g = f
  Leads-bool P Q false m n f g = g

  -- each branch may use how the test came out
  pub Leads-if :
      (P Q : List A → Type 0) (t : Bool) (m n : Traced A V)
      → (t ≡ true → Leads P Q m)
      → (t ≡ false → Leads P Q n)
      → Leads P Q (if t then m else n)
  Leads-if P Q true m n f g = f refl
  Leads-if P Q false m n f g = g refl

  -- `m` may also change what holds
  pub Leads-change :
      (P Q R : List A → Type 0) (m : Traced A (Unit {0})) (n : Traced A V)
      → Leads P Q m
      → Leads Q R n
      → Leads P R (m >> n)
  unfolding ◌>>◌
  Leads-change P Q R m n f g = record { at = λ h p. g.at (m h).1 (f.at h p) }

  pub Leads-then :
      (P R : List A → Type 0) (m : Traced A (Unit {0})) (n : Traced A V)
      → Leads P P m
      → Leads P R n
      → Leads P R (m >> n)
  Leads-then P R m n f g = Leads-change P P R m n f g

module _ {ℓ κ μ} {A : Type μ} {V : Type ℓ} {U : Type κ} where
  pub Leads-bind :
      (P R : List A → Type 0) (m : Traced A V) (rest : V → Traced A U)
      → Leads P P m
      → ((v : V) → Leads P R (rest v))
      → Leads P R (m >>= rest)
  unfolding ◌>>=◌
  Leads-bind P R m rest f g = record { at = λ h p. (g (m h).0).at (m h).1 (f.at h p) }

  -- `m` may also change what holds
  pub Leads-sequence :
      (P Q R : List A → Type 0) (m : Traced A V) (rest : V → Traced A U)
      → Leads P Q m
      → ((v : V) → Leads Q R (rest v))
      → Leads P R (m >>= rest)
  unfolding ◌>>=◌
  Leads-sequence P Q R m rest f g = record { at = λ h p. (g (m h).0).at (m h).1 (f.at h p) }

  pub Leads-option :
      (P Q : List A → Type 0) (o : Option V) (m : Traced A U) (n : V → Traced A U)
      → Leads P Q m
      → ((v : V) → Leads P Q (n v))
      → Leads P Q (on_error o n m)
  unfolding on_error
  Leads-option P Q none m n f g = f
  Leads-option P Q (some v) m n f g = g v

  pub Leads-list :
      (P Q : List A → Type 0) (l : List V) (m : Traced A U) (n : V → List V → Traced A U)
      → Leads P Q m
      → ((v : V) (vs : List V) → Leads P Q (n v vs))
      → Leads P Q (on_empty l m n)
  unfolding on_empty
  Leads-list P Q [] m n f g = f
  Leads-list P Q (v ∷ vs) m n f g = g v vs

module _ {ℓ κ μ ν} {A : Type ν} {E : Type ℓ} {V : Type κ} {U : Type μ} where
  pub Leads-result :
      (P Q : List A → Type 0) (r : Result E V) (m : E → Traced A U) (n : V → Traced A U)
      → ((e : E) → Leads P Q (m e))
      → ((v : V) → Leads P Q (n v))
      → Leads P Q (on_result r m n)
  unfolding on_result
  Leads-result P Q (err e) m n f g = f e
  Leads-result P Q (ok v) m n f g = g v

pub ruleset leads_rules =
    (Leads-return, Leads-bool, Leads-then, Leads-bind, Leads-option, Leads-list, Leads-result)
