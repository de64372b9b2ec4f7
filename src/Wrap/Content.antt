-- ===== src/Wrap/Content.antt =====
-- `WrapText` loses no byte but spaces.
use rwx.Prelude.{
  ℕ, zero, suc, some, List, [], ◌∷◌, ◌++◌, nat_eq, Bytes, length, take, drop, leb, ltb, trim_left,
  if◌then◌else◌, ◌≡◌, refl, inl, inr, Bool-cases, Option-cases, arith, ap, sym, ◌∙◌,
  take-append-drop, append-nil,
}
use rwx.Wrap.{break_at, is_space, last_line, wrap_loop, wrap_text}

-- The text with its spaces left out.
abbrev pub words : Bytes → Bytes
words [] = []
words (c ∷ s) = let rest = words s in if is_space c then rest else c ∷ rest

abbrev pub words_of : List Bytes → Bytes
words_of [] = []
words_of (line ∷ lines) = words line ++ words_of lines

words-append : (s t : Bytes) → words (s ++ t) ≡ words s ++ words t
words-append [] t = refl
words-append (c ∷ s) t = ground (arith, words-append s t)

words-trim_left : (s : Bytes) → words (trim_left is_space s) ≡ words s
unfolding trim_left
words-trim_left [] = refl
words-trim_left (c ∷ s) = ground (arith, words-trim_left s)

words_of-last_line : (s : Bytes) → words_of (last_line s) ≡ words s
unfolding last_line
words_of-last_line [] = refl
words_of-last_line (c ∷ s) = append-nil (words (c ∷ s))

words_cut :
    (n : ℕ) (s : Bytes) → words (take n s) ++ words (trim_left is_space (drop n s)) ≡ words s
words_cut n s =
    rw words-trim_left (sym (words-append (take n s) (drop n s)) ∙ ap words (take-append-drop n s))

wrap_loop-words :
    (fuel : ℕ) (s : Bytes) (width : ℕ) {lines : List Bytes}
    → wrap_loop fuel s width ≡ some lines
    → words_of lines ≡ words s
unfolding wrap_loop
wrap_loop-words zero s width e = ground arith
wrap_loop-words (suc fuel) s width e = elim (Bool-cases (ltb width (length s))) [
  | inr fits ↦ ground (arith, words_of-last_line s)
  | inl long ↦
      let rest = trim_left is_space (drop (break_at s width) s) in
      elim (Option-cases (wrap_loop fuel rest width)) [
        | inl out ↦ ground arith
        | inr (lines', run) ↦
            ground (arith, words_cut (break_at s width) s, wrap_loop-words fuel rest width run)
      ]
]

-- The lines of a wrapped text, put together without spaces, are the text without spaces: only
-- spaces are dropped, and the words keep their order.
pub wrap_text-words :
    (s : Bytes) (width : ℕ) {lines : List Bytes}
    → wrap_text s width ≡ some lines
    → words_of lines ≡ words s
unfolding wrap_text
wrap_text-words s width {lines} e = elim (Bool-cases (leb width 0)) [
  | inl off ↦ ground (arith, append-nil (words s))
  | inr on ↦ elim (Bool-cases (leb (length s) width)) [
    | inl fits ↦ ground (arith, append-nil (words s))
    | inr long ↦ wrap_loop-words (suc (length s)) s width {lines = lines} (ground arith)
  ]
]
