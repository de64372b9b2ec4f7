-- ===== src/Wrap/Tests.antt =====
-- The theorems about wrapping at a concrete text.
use rwx.Prelude.{
  ◌≤◌, ◌<◌, some, List, [], ◌∷◌, ◌≡◌, refl, Bytes, All, length, codes, last_index, trim_left,
}
use rwx.Wrap.{truncate, wrap_text}
use rwx.Wrap.Lines.{wrap_text_lines}

truncate_runs : truncate (codes "sandbox") 4 ≡ codes "san…"
unfolding truncate
truncate_runs = refl

abbrev description : Bytes
description = codes "run a task now"

abbrev three_lines : List Bytes
three_lines = codes "run a" ∷ codes "task" ∷ codes "now" ∷ []

wraps : wrap_text description 6 ≡ some three_lines
unfolding wrap_text last_index trim_left
wraps = refl

wrap_text_lines_example :
    (lines : List Bytes) × (wrap_text description 6 ≡ some lines)
    × (0 < 6 → All (λ l. length l ≤ 6) lines)
wrap_text_lines_example = wrap_text_lines description 6
