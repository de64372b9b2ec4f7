-- ===== src/Config/Trim.antt =====
-- Trimming white space from a text that is already trimmed.
use rwx.Prelude.{
  ℕ, Bool, true, false, not, [], ◌∷◌, Bytes, trim_left, trim_right, trim_space, is_space, ◌≡◌, refl,
  arith, all, Bool-cases, inl, inr,
}

trim_right_twice : (p : ℕ → Bool) (s : Bytes) → trim_right p (trim_right p s) ≡ trim_right p s
unfolding trim_right
trim_right_twice p [] = refl
trim_right_twice p (a ∷ s) = ground (arith, trim_right_twice p s)

trim_left-trim_right :
    (p : ℕ → Bool) (a : ℕ) (s : Bytes)
    → p a ≡ false
    → trim_left p (trim_right p (a ∷ s)) ≡ trim_right p (a ∷ s)
unfolding trim_left trim_right
trim_left-trim_right p a s h = ground (arith, h)

trim_twice :
    (p : ℕ → Bool) (s : Bytes)
    → trim_right p (trim_left p (trim_right p (trim_left p s))) ≡ trim_right p (trim_left p s)
unfolding trim_left trim_right
trim_twice p [] = refl
trim_twice p (a ∷ s) = elim (Bool-cases (p a)) [
  | inl h ↦ ground (arith, h, trim_twice p s)
  | inr h ↦ ground (arith, h, trim_left-trim_right p a s, trim_right_twice p (a ∷ s))
]

pub trim_space_twice : (s : Bytes) → trim_space (trim_space s) ≡ trim_space s
unfolding trim_space
trim_space_twice s = trim_twice is_space s

trim_left-clean : (p : ℕ → Bool) (s : Bytes) → all (λ c. not (p c)) s ≡ true → trim_left p s ≡ s
unfolding trim_left trim_right
trim_left-clean p [] h = refl
trim_left-clean p (a ∷ s) h = ground (arith, h)

trim_right-clean : (p : ℕ → Bool) (s : Bytes) → all (λ c. not (p c)) s ≡ true → trim_right p s ≡ s
unfolding trim_right
trim_right-clean p [] h = refl
trim_right-clean p (a ∷ s) h = ground (arith, h, trim_right-clean p s)

-- A text without white space stays as it is.
pub trim_space-clean : (s : Bytes) → all (λ c. not (is_space c)) s ≡ true → trim_space s ≡ s
unfolding trim_space
trim_space-clean s h = ground (arith, trim_left-clean is_space s h, trim_right-clean is_space s h)
