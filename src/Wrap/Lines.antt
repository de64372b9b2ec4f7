-- ===== src/Wrap/Lines.antt =====
-- `WrapText` ends, and its lines keep to the width.
use rwx.Prelude.{
  ℕ, zero, suc, ◌+◌, ◌-◌, ◌≤◌, ◌<◌, Bool, some, List, [], ◌∷◌, Bytes, All, length, take, drop, leb,
  ltb, last_index, trim_left, ◌≡◌, inl, inr, Bool-cases, Option-cases, arith, length-take,
  length-drop, length-append,
}
use rwx.Prelude.Cut.{last_index-lt}
use rwx.Wrap.{truncate, break_at, is_space, last_line, wrap_loop, wrap_text}

-- A truncated text fits within the maximum, and is the text itself if that fits.
pub truncate_fits :
    (s : Bytes) (max : ℕ)
    → 0 < max
    → (length (truncate s max) ≤ max) × (length s ≤ max → truncate s max ≡ s)
unfolding truncate
truncate_fits s max h = (
  ground (arith, length-append (take (max - 1) s) (0x2026 ∷ []), length-take (max - 1) s),
  λ fits. ground arith,
)

break_at_bounds :
    (s : Bytes) (width : ℕ) → 0 < width → (0 < break_at s width) × (break_at s width ≤ width)
unfolding break_at
break_at_bounds s width h = elim (Option-cases (last_index (take (width + 1) s) b' ')) [
  | inl e ↦ ground arith
  | inr (i, e) ↦
      ground (arith, last_index-lt b' ' (take (width + 1) s) i e, length-take (width + 1) s)
]

length-trim_left : (p : ℕ → Bool) (s : Bytes) → length (trim_left p s) ≤ length s
unfolding trim_left
length-trim_left p [] = omega arith
length-trim_left p (a ∷ s) = ground (arith, length-trim_left p s)

pub rest-lt :
    (s : Bytes) (width : ℕ)
    → 0 < width
    → width < length s
    → length (trim_left is_space (drop (break_at s width) s)) < length s
rest-lt s width w h =
    let b = break_at_bounds s width w in
    omega (
      arith,
      b.0,
      b.1,
      length-trim_left is_space (drop (break_at s width) s),
      length-drop (break_at s width) s,
    )

first-le : (s : Bytes) (width : ℕ) → 0 < width → length (take (break_at s width) s) ≤ width
first-le s width w =
    let b = break_at_bounds s width w in omega (arith, b.1, length-take (break_at s width) s)

last_line-le :
    (s : Bytes) (width : ℕ) → length s ≤ width → All (λ l. length l ≤ width) (last_line s)
unfolding last_line
last_line-le [] width h = tt
last_line-le (c ∷ s) width h = (h, tt)

-- The lines of a loop that has the fuel for its text: there are some, and each fits the width.
wrap_loop_lines :
    (fuel : ℕ) (s : Bytes) (width : ℕ)
    → 0 < width
    → length s < fuel
    → (lines : List Bytes) × (wrap_loop fuel s width ≡ some lines)
      × All (λ l. length l ≤ width) lines
unfolding wrap_loop
wrap_loop_lines zero s width w h = absurd (omega arith)
wrap_loop_lines (suc fuel) s width w h = elim (Bool-cases (ltb width (length s))) [
  | inr fits ↦ (last_line s, ground arith, last_line-le s width (ground arith))
  | inl long ↦
      let (lines, run, all) =
        wrap_loop_lines fuel (trim_left is_space (drop (break_at s width) s)) width w
          (let r = rest-lt s width w (ground arith) in omega arith) in
      (take (break_at s width) s ∷ lines, ground arith, (first-le s width w, all))
]

-- `WrapText` always ends, and if the width is positive every line fits within it.
pub wrap_text_lines :
    (s : Bytes) (width : ℕ)
    → (lines : List Bytes) × (wrap_text s width ≡ some lines)
      × (0 < width → All (λ l. length l ≤ width) lines)
unfolding wrap_text
wrap_text_lines s zero = (s ∷ [], ground arith, λ h. absurd (omega arith))
wrap_text_lines s (suc w) = elim (Bool-cases (leb (length s) (suc w))) [
  | inl fits ↦ (s ∷ [], ground arith, λ h. (ground arith, tt))
  | inr long ↦
      let (lines, run, all) =
        wrap_loop_lines (suc (length s)) s (suc w) (omega arith) (omega arith) in
      (lines, ground arith, λ h. all)
]
