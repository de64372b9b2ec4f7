-- ===== src/Prelude/Text.antt =====
-- Go's `strings` and `bytes` functions over lists of bytes.
use Prim.Native.Nat.{ℕ, suc, ◌+◌, ◌-◌}
use Prim.Native.Char.{code}
use Prim.Native.String.{String}
use mathlib.Core.Path.{◌≡◌, refl}
use mathlib.Core.Bool.{Bool, true, false, ◌&&◌, ◌||◌}
use mathlib.Core.Option
use mathlib.Core.Option.{Option, none, some}
use mathlib.Core.List.{List, [], ◌∷◌, ◌++◌}
use native.Mathlib.Omega.{arith}
use rwx.Prelude.Tests.{if◌then◌else◌, leb}
use rwx.Prelude.Classes.{Bytes, ◌==◌, nat_eq, bytes_eq, bytes_beq}
use rwx.Prelude.Lists.{length, take, drop}

-- The bytes of an ASCII literal.
abbrev pub codes : String → Bytes
codes String.[] = []
codes (String.◌∷◌ c s) = code c ∷ codes s

-- strings.HasPrefix(s, p)
unfoldable pub has_prefix : Bytes → Bytes → Bool
has_prefix s [] = true
has_prefix [] (b ∷ p) = false
has_prefix (a ∷ s) (b ∷ p) = a == b && has_prefix s p

-- strings.HasSuffix(s, p)
unfoldable pub has_suffix : Bytes → Bytes → Bool
unfolding bytes_beq
has_suffix [] p = [] == p
has_suffix (a ∷ s) p = (a ∷ s) == p || has_suffix s p

-- strings.Index(s, p); `none` is -1
unfoldable pub index : Bytes → Bytes → Option ℕ
unfolding has_prefix
index [] p = if has_prefix [] p then some 0 else none
index (a ∷ s) p =
    let rest = index s p in if has_prefix (a ∷ s) p then some 0 else Option.map suc rest

-- strings.Contains(s, p)
unfoldable pub contains : Bytes → Bytes → Bool
unfolding has_prefix
contains [] p = has_prefix [] p
contains (a ∷ s) p = has_prefix (a ∷ s) p || contains s p

-- strings.LastIndex(s, c) for a text of one byte
unfoldable pub last_index : Bytes → ℕ → Option ℕ
last_index [] c = none
last_index (a ∷ s) c = elim (last_index s c) [
  | some i ↦ some (suc i)
  | none ↦ if a == c then some 0 else none
]

-- strings.TrimLeft and TrimRight by a set of bytes
unfoldable pub trim_left : (ℕ → Bool) → Bytes → Bytes
trim_left p [] = []
trim_left p (a ∷ s) = if p a then trim_left p s else a ∷ s

unfoldable pub trim_right : (ℕ → Bool) → Bytes → Bytes
trim_right p [] = []
trim_right p (a ∷ s) = elim (trim_right p s) [ [] ↦ if p a then [] else a ∷ [] | b ∷ t ↦ a ∷ b ∷ t ]

-- Go's white space and lower case, on ASCII texts.
unfoldable pub is_space : ℕ → Bool
is_space c = c == 32 || leb 9 c && leb c 13

unfoldable pub to_lower_byte : ℕ → ℕ
to_lower_byte c = if leb 65 c && leb c 90 then c + 32 else c

-- strings.TrimSpace and strings.ToLower
unfoldable pub trim_space : Bytes → Bytes
unfolding is_space trim_left trim_right
trim_space s = trim_right is_space (trim_left is_space s)

unfoldable pub to_lower : Bytes → Bytes
unfolding to_lower_byte
to_lower [] = []
to_lower (c ∷ s) = to_lower_byte c ∷ to_lower s

-- strings.TrimSuffix(s, p) and strings.TrimPrefix(s, p)
unfoldable pub trim_suffix : Bytes → Bytes → Bytes
unfolding has_suffix
trim_suffix s p = if has_suffix s p then take (length s - length p) s else s

unfoldable pub trim_prefix : Bytes → Bytes → Bytes
unfolding has_prefix
trim_prefix s p = if has_prefix s p then drop (length p) s else s

-- strings.Split and bytes.Split by one byte
unfoldable pub split : ℕ → Bytes → List Bytes
split c [] = [] ∷ []
split c (a ∷ s) = elim (split c s) [
  | [] ↦ []
  | part ∷ parts ↦ if a == c then [] ∷ part ∷ parts else (a ∷ part) ∷ parts
]

-- A byte that does not occur.
unfoldable pub has_byte : ℕ → Bytes → Bool
has_byte c [] = false
has_byte c (a ∷ s) = a == c || has_byte c s

pub has_prefix-append : (p s : Bytes) → has_prefix (p ++ s) p ≡ true
unfolding has_prefix
has_prefix-append [] [] = refl
has_prefix-append [] (a ∷ s) = refl
has_prefix-append (a ∷ p) s = ground (arith, has_prefix-append p s)

pub has_prefix-drop : (s p : Bytes) → has_prefix s p ≡ true → s ≡ p ++ drop (length p) s
unfolding has_prefix
has_prefix-drop s [] h = refl
has_prefix-drop [] (b ∷ p) h = ground arith
has_prefix-drop (a ∷ s) (b ∷ p) h = ground (arith, has_prefix-drop s p)
