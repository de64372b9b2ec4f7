-- ===== src/Prelude/Dict.antt =====
-- Go's maps. The entries stand in the order in which `range` meets them, which Go leaves open: a
-- theorem about every list of entries is one about every order.
use mathlib.Core.Path.{◌≡◌, refl}
use mathlib.Core.Bool.{Bool, true, false}
use mathlib.Core.Option.{Option, none, some}
use mathlib.Core.List.{List, [], ◌∷◌}
use native.Mathlib.Omega.{arith}
use rwx.Prelude.Tests.{if◌then◌else◌}
use rwx.Prelude.Classes.{Eq, ◌==◌, beq_refl}

abbrev pub Dict {ℓ κ} : Type ℓ → Type κ → Type (ℓ ⊔ κ)
Dict K V = List (K × V)

module _ {ℓ κ} {K : Type ℓ} {V : Type κ} ⦃e : Eq K⦄ where
  -- v, ok := m[k]
  unfoldable pub get : Dict K V → K → Option V
  get [] k = none
  get ((j, v) ∷ m) k = if j == k then some v else get m k

  -- delete(m, k)
  unfoldable pub del : Dict K V → K → Dict K V
  del [] k = []
  del ((j, v) ∷ m) k = let rest = del m k in if j == k then rest else (j, v) ∷ rest

  -- m[k] = v
  unfoldable pub put : Dict K V → K → V → Dict K V
  put [] k v = (k, v) ∷ []
  put ((j, w) ∷ m) k v = let rest = put m k v in if j == k then (k, v) ∷ m else (j, w) ∷ rest

  -- Each key has one entry, as in every Go map.
  unfoldable pub unique : Dict K V → Bool
  unfolding get
  unique [] = true
  unique ((j, v) ∷ m) = elim (get m j) [ none ↦ unique m | some _ ↦ false ]

  pub get-put :
      (m : Dict K V) (k j : K) (v : V) → get (put m k v) j ≡ (if k == j then some v else get m j)
  unfolding get put
  get-put [] k j v = refl
  get-put ((i, w) ∷ m) k j v =
      ground (arith, get-put m k j v, e.same_iff i k, e.same_iff i j, e.same_iff k j)

  pub get-del : (m : Dict K V) (k j : K) → get (del m k) j ≡ (if k == j then none else get m j)
  unfolding get del
  get-del [] k j = ground arith
  get-del ((i, w) ∷ m) k j =
      ground (arith, get-del m k j, e.same_iff i k, e.same_iff i j, e.same_iff k j)

  pub get-put_self : (m : Dict K V) (k : K) (v : V) → get (put m k v) k ≡ some v
  get-put_self m k v = simp (get-put, beq_refl)

  pub get-del_self : (m : Dict K V) (k : K) → get (del m k) k ≡ none
  get-del_self m k = simp (get-del, beq_refl)

  pub unique-put : (m : Dict K V) (k : K) (v : V) → unique m ≡ true → unique (put m k v) ≡ true
  unfolding unique put
  unique-put [] k v h = refl
  unique-put ((i, w) ∷ m) k v h =
      ground (arith, unique-put m k v, get-put m k i v, e.same_iff i k, e.same_iff k i)

  pub unique-del : (m : Dict K V) (k : K) → unique m ≡ true → unique (del m k) ≡ true
  unfolding unique del
  unique-del [] k h = refl
  unique-del ((i, w) ∷ m) k h =
      ground (arith, unique-del m k, get-del m k i, e.same_iff i k, e.same_iff k i)
