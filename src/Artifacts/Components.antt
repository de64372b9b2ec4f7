-- ===== src/Artifacts/Components.antt =====
-- Names of one directory each: what `safePathComponent` and a suffix give.
use rwx.Prelude.{
  ℕ, ◌+◌, Bool, true, false, ◌&&◌, not, List, [], ◌∷◌, ◌++◌, ◌==◌, nat_eq, bytes_eq, Bytes, codes,
  all, map, trim_left, trim_right, trim_space, is_space, Bool-cases, inl, inr, ◌≡◌, refl,
  all-append, ◌⊎◌, arith,
}
use rwx.Prelude.Decimal.{decimal, decimal-is_digit, is_digit}
use rwx.Artifacts.Names.{replaced, trim_dots, safe_path_component, base_names, numbered}

-- A name of one directory: not empty, without a slash, and not `.` or `..`, for it does not begin with
-- a dot.
unfoldable pub is_component : Bytes → Bool
is_component [] = false
is_component (c ∷ name) = not (c == b'.') && all (λ b. not (b == b'/')) (c ∷ name)

abbrev no_slash : Bytes → Bool
no_slash s = all (λ b. not (b == b'/')) s

all-trim_left : (p q : ℕ → Bool) (s : Bytes) → all p s ≡ true → all p (trim_left q s) ≡ true
unfolding trim_left
all-trim_left p q [] h = refl
all-trim_left p q (c ∷ s) h = ground (arith, h, all-trim_left p q s)

all-trim_right : (p q : ℕ → Bool) (s : Bytes) → all p s ≡ true → all p (trim_right q s) ≡ true
unfolding trim_right
all-trim_right p q [] h = refl
all-trim_right p q (c ∷ s) h = ground (arith, h, all-trim_right p q s)

no_slash-replaced : (s : Bytes) → no_slash (map replaced s) ≡ true
unfolding replaced
no_slash-replaced [] = refl
no_slash-replaced (c ∷ s) = ground (arith, no_slash-replaced s)

-- What is left of a text without slashes when its dots are trimmed.
trimmed_component :
    (s : Bytes) → no_slash s ≡ true → (trim_dots s ≡ []) ⊎ (is_component (trim_dots s) ≡ true)
unfolding trim_dots trim_left trim_right is_component
trimmed_component [] h = inl refl
trimmed_component (c ∷ s) h = elim (Bool-cases (c == b'.')) [
  | inl dot ↦ ground (arith, dot, h, trimmed_component s)
  | inr name ↦
      inr (ground (arith, name, h, all-trim_right (λ b. not (b == b'/')) (λ b. b == b'.') s))
]

stays_component :
    (t fallback : Bytes)
    → is_component t ≡ true
    → is_component (elim t as (λ _. Bytes) [ [] ↦ fallback | c ∷ component ↦ c ∷ component ]) ≡ true
unfolding is_component
stays_component [] fallback h = ground (arith, h)
stays_component (c ∷ t) fallback h = h

component_or_fallback :
    (s fallback : Bytes)
    → is_component fallback ≡ true
    → no_slash s ≡ true
    → is_component
        (elim (trim_dots s) as (λ _. Bytes) [ [] ↦ fallback | c ∷ component ↦ c ∷ component ])
      ≡ true
component_or_fallback s fallback h k = elim (trimmed_component s k) [
  | inl e ↦ ground (arith, e, h)
  | inr e ↦ stays_component (trim_dots s) fallback e
]

safe_path_component-is_component :
    (name fallback : Bytes)
    → is_component fallback ≡ true
    → is_component (safe_path_component name fallback) ≡ true
unfolding safe_path_component trim_space
safe_path_component-is_component name fallback h =
    component_or_fallback (trim_space (map replaced name)) fallback h (
      all-trim_right (λ b. not (b == b'/')) is_space (trim_left is_space (map replaced name))
        (all-trim_left (λ b. not (b == b'/')) is_space (map replaced name)
          (no_slash-replaced name)))

digits_no_slash : (s : Bytes) → all is_digit s ≡ true → no_slash s ≡ true
digits_no_slash [] h = refl
digits_no_slash (c ∷ s) h = ground (arith, h, digits_no_slash s)

no_slash-append : (s t : Bytes) → no_slash s ≡ true → no_slash t ≡ true → no_slash (s ++ t) ≡ true
no_slash-append s t h k = all-append (λ b. not (b == b'/')) s t h k

pub numbered-is_component :
    (base_name : Bytes) (suffix : ℕ)
    → is_component base_name ≡ true
    → is_component (numbered base_name suffix) ≡ true
unfolding is_component
numbered-is_component [] suffix h = ground (arith, h)
numbered-is_component (c ∷ name) suffix h = ground (
  arith,
  h,
  no_slash-append name (b'-' ∷ decimal suffix),
  digits_no_slash (decimal suffix) (decimal-is_digit suffix),
)

artifact-is_component : is_component (codes "artifact") ≡ true
unfolding is_component
artifact-is_component = refl

pub base_names-is_component :
    (i : ℕ) (keys : List Bytes) → all is_component (base_names i keys) ≡ true
unfolding base_names
base_names-is_component i [] = refl
base_names-is_component i (key ∷ keys) = ground (
  arith,
  base_names-is_component (i + 1) keys,
  safe_path_component-is_component key (codes "artifact-" ++ decimal (i + 1))
      (numbered-is_component (codes "artifact") (i + 1) artifact-is_component),
)
