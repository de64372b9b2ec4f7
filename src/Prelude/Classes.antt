-- ===== src/Prelude/Classes.antt =====
-- Equality tests as an interface: numbers, byte strings and pairs are keys of maps.
use Prim.Native.Nat.{ℕ}
use mathlib.Core.Path.{◌≡◌, refl}
use mathlib.Core.Logic.{◌↔◌}
use mathlib.Core.Bool.{Bool, true, false, ◌&&◌}
use mathlib.Core.List.{List, [], ◌∷◌}
use native.Mathlib.Omega.{arith}
use rwx.Prelude.Tests.{nat_beq, nat_beq_iff}

-- A Go string or byte slice.
abbrev pub Bytes : Type 0
Bytes = List ℕ

-- `a == b` on strings, `bytes.Equal`
unfoldable pub bytes_beq : Bytes → Bytes → Bool
bytes_beq [] [] = true
bytes_beq (x ∷ a) (y ∷ b) = nat_beq x y && bytes_beq a b
bytes_beq _ _ = false

pub bytes_beq_iff : (a b : Bytes) → (bytes_beq a b ≡ true) ↔ (a ≡ b)
unfolding bytes_beq
bytes_beq_iff (x ∷ a) (y ∷ b) = ground (arith, bytes_beq_iff a b)
bytes_beq_iff _ _ = ground arith

-- A type whose values Go compares with `==`, as it does the keys of a map.
pub record Eq {ℓ} (K : Type ℓ) : Type ℓ where
  pub same : K → K → Bool
  pub same_iff : (k j : K) → (same k j ≡ true) ↔ (k ≡ j)

instance abbrev pub bytes_eq : Eq Bytes
bytes_eq = record { same = bytes_beq; same_iff = bytes_beq_iff }

instance abbrev pub nat_eq : Eq ℕ
nat_eq = record { same = nat_beq; same_iff = nat_beq_iff }

module _ {ℓ} {K : Type ℓ} ⦃keys : Eq K⦄ where
  infix 50 ◌==◌
  abbrev pub ◌==◌ : K → K → Bool
  k == j = keys.same k j

  pub beq_refl : (k : K) → (k == k) ≡ true
  beq_refl k = (keys.same_iff k k).1 refl
