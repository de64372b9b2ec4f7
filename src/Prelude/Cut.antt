-- ===== src/Prelude/Cut.antt =====
-- Where a text is cut at a separator: laws of `index` and `last_index`.
use Prim.Native.Nat.{ℕ, zero, suc, ◌<◌}
use mathlib.Core.Path.{◌≡◌, refl}
use mathlib.Core.Bool.{false, true, ◌||◌}
use mathlib.Core.Option.{none, some}
use mathlib.Core.List.{List, [], ◌∷◌, ◌++◌}
use native.Mathlib.Omega.{arith}
use mathlib.Core.Logic.{inl, inr}
use rwx.Prelude.Tests.{Option-cases, if◌then◌else◌}
use rwx.Prelude.Classes.{Bytes, ◌==◌, nat_eq}
use rwx.Prelude.Lists.{length, take, drop}
use rwx.Prelude.Text.{has_prefix, index, contains, last_index, has_byte, split}

pub last_index-none : (c : ℕ) (s : Bytes) → has_byte c s ≡ false → last_index s c ≡ none
unfolding last_index has_byte
last_index-none c [] h = refl
last_index-none c (a ∷ s) h = ground (arith, last_index-none c s)

-- The last occurrence of `c` stands before a text without `c`.
pub last_index-append :
    (c : ℕ) (s t : Bytes) → has_byte c t ≡ false → last_index (s ++ (c ∷ t)) c ≡ some (length s)
unfolding last_index
last_index-append c [] t h = ground (arith, last_index-none c t h)
last_index-append c (a ∷ s) t h = ground (arith, last_index-append c s t h)

last_index_free : (c : ℕ) (s : Bytes) → last_index s c ≡ none → has_byte c s ≡ false
unfolding last_index has_byte
last_index_free c [] h = refl
last_index_free c (a ∷ s) h = ground (arith, last_index_free c s)

-- A cut at the last occurrence: the text is put together again, and the rest is free of `c`.
pub last_index_cut :
    (c : ℕ) (s : Bytes) {i : ℕ}
    → last_index s c ≡ some i
    → (s ≡ take i s ++ (c ∷ drop (suc i) s)) × (has_byte c (drop (suc i) s) ≡ false)
unfolding last_index has_byte
last_index_cut c [] h = ground arith
last_index_cut c (a ∷ s) {i = zero} h = elim (Option-cases (last_index s c)) [
  | inl e ↦ ground (arith, last_index_free c s e)
  | inr (k, e) ↦ ground arith
]
last_index_cut c (a ∷ s) {i = suc i} h = elim (Option-cases (last_index s c)) [
  | inl e ↦ ground arith
  | inr (k, e) ↦ ground (arith, last_index_cut c s {i = i})
]

-- The first occurrence of a separator of two bytes, behind a text that does not hold it.
pub index-append_pair :
    (b c : ℕ) (s t : Bytes)
    → (b == c) ≡ false
    → contains s (b ∷ c ∷ []) ≡ false
    → index (s ++ (b ∷ c ∷ t)) (b ∷ c ∷ []) ≡ some (length s)
unfolding index contains has_prefix
index-append_pair b c [] t ne h = ground arith
index-append_pair b c (x ∷ []) t ne h = ground (arith, index-append_pair b c [] t ne refl)
index-append_pair b c (x ∷ y ∷ s) t ne h = ground (arith, index-append_pair b c (y ∷ s) t ne)

pub index-none-append :
    (b c : ℕ) (s : Bytes)
    → (b == c) ≡ false
    → contains s (b ∷ c ∷ []) ≡ false
    → index (s ++ (b ∷ [])) (b ∷ c ∷ []) ≡ none
unfolding index contains has_prefix
index-none-append b c [] ne h = ground arith
index-none-append b c (x ∷ []) ne h = ground arith
index-none-append b c (x ∷ y ∷ s) ne h = ground (arith, index-none-append b c (y ∷ s) ne)

pub last_index-lt : (c : ℕ) (s : Bytes) (i : ℕ) → last_index s c ≡ some i → i < length s
unfolding last_index
last_index-lt c [] i h = ground arith
last_index-lt c (a ∷ s) zero h = omega arith
last_index-lt c (a ∷ s) (suc i) h = ground (arith, last_index-lt c s i)

-- A text splits into one part at least.
pub split-nonempty : (c : ℕ) (s : Bytes) → (p : Bytes) × (ps : List Bytes) × (split c s ≡ p ∷ ps)
unfolding split
split-nonempty c [] = ([], [], refl)
split-nonempty c (a ∷ s) =
    let (p, ps, e) = split-nonempty c s in
    elim (a == c)
      as (λ b.
        (q : Bytes) × (qs : List Bytes) × ((elim (split c s) [
          | [] ↦ []
          | x ∷ xs ↦ if b then [] ∷ x ∷ xs else (a ∷ x) ∷ xs
        ])
          ≡ q ∷ qs)) [
            | true ↦ ([], p ∷ ps, ground (arith, e))
            | false ↦ (a ∷ p, ps, ground (arith, e))
          ]

-- A text is cut at the first separator behind a part without one.
pub split-append :
    (c : ℕ) (s t : Bytes) → has_byte c s ≡ false → split c (s ++ (c ∷ t)) ≡ s ∷ split c t
unfolding split has_byte
split-append c [] t h = ground (arith, split-nonempty c t)
split-append c (a ∷ s) t h = ground (arith, split-append c s t)

pub split-free : (c : ℕ) (s : Bytes) → has_byte c s ≡ false → split c s ≡ s ∷ []
unfolding split has_byte
split-free c [] h = refl
split-free c (a ∷ s) h = ground (arith, h, split-free c s)

pub has_byte-append : (c : ℕ) (s t : Bytes) → has_byte c (s ++ t) ≡ (has_byte c s || has_byte c t)
unfolding has_byte
has_byte-append c [] t = refl
has_byte-append c (a ∷ s) t = ground (arith, has_byte-append c s t)
