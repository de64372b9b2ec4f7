-- ===== src/Wrap.antt =====
-- internal/text/wrap.go. `Truncate` counts runes, so its text is a list of runes; `WrapText` counts
-- bytes. A negative width or maximum acts as 0 does, and is not modelled apart.
mod Tests
pub mod Lines
pub mod Content
use rwx.Prelude.{
  ℕ, zero, suc, ◌+◌, ◌-◌, Bool, true, false, Option, none, some, List, [], ◌∷◌, ◌++◌, ◌==◌, nat_eq,
  Bytes, length, take, drop, leb, ltb, last_index, trim_left, if◌then◌else◌,
}

-- the rune of the ellipsis
abbrev pub ellipsis : ℕ
ellipsis = 0x2026

unfoldable pub truncate : Bytes → ℕ → Bytes
truncate s max =
    if leb max 0
    then s
    else if leb (length s) max
    then s
    else if max == 1
    then ellipsis ∷ []
    else take (max - 1) s ++ ellipsis ∷ []

-- Where a line ends: the last space at or before the limit, or the limit.
unfoldable pub break_at : Bytes → ℕ → ℕ
break_at s width = elim (last_index (take (width + 1) s) b' ') [
  | none ↦ width
  | some i ↦ if leb i 0 then width else i
]

abbrev pub is_space : ℕ → Bool
is_space c = c == b' '

last_line : Bytes → List Bytes
last_line [] = []
last_line (c ∷ s) = (c ∷ s) ∷ []

-- The loop of `WrapText`; `none` means that the fuel ran out.
unfoldable pub wrap_loop : ℕ → Bytes → ℕ → Option (List Bytes)
unfolding break_at last_line
wrap_loop zero s width = none
wrap_loop (suc fuel) s width = elim (ltb width (length s)) [
  | false ↦ some (last_line s)
  | true ↦ elim (wrap_loop fuel (trim_left is_space (drop (break_at s width) s)) width) [
    | none ↦ none
    | some lines ↦ some (take (break_at s width) s ∷ lines)
  ]
]

-- Every round drops at least one byte, so the length of the text bounds the rounds.
unfoldable pub wrap_text : Bytes → ℕ → Option (List Bytes)
unfolding wrap_loop
wrap_text s width =
    if leb width 0
    then some (s ∷ [])
    else if leb (length s) width
    then some (s ∷ [])
    else wrap_loop (suc (length s)) s width
