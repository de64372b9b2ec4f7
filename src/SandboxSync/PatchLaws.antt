-- ===== src/SandboxSync/PatchLaws.antt =====
-- The files of a patch as git prints it, with paths that it does not quote.
use rwx.Prelude.{
  ℕ, nat_eq, leb, Bool, true, false, ◌&&◌, not, Option, none, some, List, [], ◌∷◌, ◌++◌, ◌==◌,
  bytes_eq, bytes_beq, Bytes, codes, has_prefix, trim_prefix, split, drop, all, all-append, All,
  map, has_byte, append_assoc, ◌≡◌, refl, ap, ◌∙◌, arith,
}
use rwx.Prelude.Cut.{split-append, has_byte-append}
use rwx.SandboxSync.Patches.{
  diff_git, new_file_mode, header_path, files_of_lines, parse_patch_files, scan_line,
  new_files_of_lines, parse_new_file_paths,
}

-- The change of one file: its path, whether it is a new file with which mode, and the other lines
-- below the header.
pub record FileDiff : Type 0 where
  pub path : Bytes
  pub mode : Option Bytes
  pub body : List Bytes

abbrev header : Bytes → Bytes
header path = codes "diff --git a/" ++ (path ++ (codes " b/" ++ path))

abbrev mode_lines : Option Bytes → List Bytes
mode_lines none = []
mode_lines (some mode) = (new_file_mode ++ (b' ' ∷ mode)) ∷ []

abbrev diff_lines : FileDiff → List Bytes
diff_lines d = header d.path ∷ (mode_lines d.mode ++ d.body)

abbrev pub unlines : List Bytes → Bytes
unlines [] = []
unlines (line ∷ lines) = line ++ (b'\n' ∷ unlines lines)

abbrev pub all_lines : List FileDiff → List Bytes
all_lines [] = []
all_lines (d ∷ diffs) = diff_lines d ++ all_lines diffs

-- The patch, with every path printed as it is.
unfoldable pub print_patch : List FileDiff → Bytes
print_patch diffs = unlines (all_lines diffs)

-- A byte that git prints as it is; a path with any other byte stands in quotes, as C writes a string.
abbrev pub is_unquoted : ℕ → Bool
is_unquoted c = leb b' ' c && leb c b'~' && not (c == b'"') && not (c == b'\\')

-- A path that is not empty, that git does not quote, without spaces, and lines that are neither a header nor a
-- file mode.
abbrev pub is_name : Bytes → Bool
is_name s = not (s == []) && not (has_byte b' ' s) && not (has_byte b'\n' s) && all is_unquoted s

abbrev pub is_body : Bytes → Bool
is_body line =
    not (has_prefix line diff_git)
    && not (has_prefix line new_file_mode)
    && not (has_byte b'\n' line)

abbrev pub is_mode : Option Bytes → Bool
is_mode none = true
is_mode (some mode) = not (has_byte b'\n' mode)

abbrev pub IsDiff : FileDiff → Type 0
IsDiff d = (is_name d.path ≡ true) × (is_mode d.mode ≡ true) × (all is_body d.body ≡ true)

-- The path that the block of a file adds.
abbrev pub new_path : Bytes → Option Bytes → List Bytes
new_path path none = []
new_path path (some mode) = path ∷ []

abbrev pub new_paths : List FileDiff → List Bytes
new_paths [] = []
new_paths (d ∷ diffs) = new_path d.path d.mode ++ new_paths diffs

abbrev left_current : Bytes → Option Bytes → Bytes
left_current path none = path
left_current path (some mode) = []

split-unlines :
    (lines : List Bytes)
    → all (λ l. not (has_byte b'\n' l)) lines ≡ true
    → split b'\n' (unlines lines) ≡ lines ++ ([] ∷ [])
unfolding split
split-unlines [] h = refl
split-unlines (line ∷ lines) h =
    ground (arith, split-append b'\n' line (unlines lines), split-unlines lines)

split-single : (c : ℕ) (s : Bytes) → has_byte c s ≡ false → split c s ≡ s ∷ []
unfolding split has_byte
split-single c [] h = refl
split-single c (a ∷ s) h = ground (arith, split-single c s)

split-header :
    (path : Bytes)
    → has_byte b' ' path ≡ false
    → split b' ' (header path)
      ≡ codes "diff" ∷ codes "--git" ∷ (codes "a/" ++ path) ∷ (codes "b/" ++ path) ∷ []
unfolding has_byte
split-header path h =
    split-append b' ' (codes "diff") (drop 5 (header path)) refl
    ∙ ap (λ s. codes "diff" ∷ s)
        (split-append b' ' (codes "--git") (drop 11 (header path)) refl
          ∙ ap (λ s. codes "--git" ∷ s)
              (split-append b' ' (codes "a/" ++ path) (codes "b/" ++ path) h
                ∙ ap (λ s. (codes "a/" ++ path) ∷ s) (split-single b' ' (codes "b/" ++ path) h)))

header_path-header :
    (path : Bytes) → has_byte b' ' path ≡ false → header_path (header path) ≡ some path
unfolding header_path trim_prefix has_prefix
header_path-header path h = ground (arith, split-header path h)

body-parts :
    (a b c d : Bool)
    → (not a && not b && not c) && d ≡ true
    → (a ≡ false) × (b ≡ false) × (c ≡ false) × (d ≡ true)
body-parts false false false true h = (refl, refl, refl, refl)
body-parts true b c d h = ground arith
body-parts false true c d h = ground arith
body-parts false false true d h = ground arith
body-parts false false false false h = ground arith

header-free : (path : Bytes) → has_byte b'\n' path ≡ false → has_byte b'\n' (header path) ≡ false
unfolding has_byte
header-free path h = simp (has_byte-append b'\n' path (codes " b/" ++ path), h)

-- the parts of a line that is neither a header nor a file mode
line-parts :
    (line : Bytes) (lines : List Bytes)
    → all is_body (line ∷ lines) ≡ true
    → (has_prefix line diff_git ≡ false)
      × (has_prefix line new_file_mode ≡ false)
      × (has_byte b'\n' line ≡ false)
      × (all is_body lines ≡ true)
line-parts line lines h =
    body-parts (has_prefix line diff_git) (has_prefix line new_file_mode) (has_byte b'\n' line)
      (all is_body lines) h

files_of_lines-body :
    (lines rest : List Bytes)
    → all is_body lines ≡ true
    → files_of_lines (lines ++ rest) ≡ files_of_lines rest
unfolding files_of_lines
files_of_lines-body [] rest h = refl
files_of_lines-body (line ∷ lines) rest h =
    let parts = line-parts line lines h in simp (parts.0, files_of_lines-body lines rest parts.3)

new_files_of_lines-body :
    (lines rest : List Bytes) (current : Bytes)
    → all is_body lines ≡ true
    → new_files_of_lines current (lines ++ rest) ≡ new_files_of_lines current rest
unfolding new_files_of_lines scan_line
new_files_of_lines-body [] rest current h = refl
new_files_of_lines-body (line ∷ lines) rest current h =
    let parts = line-parts line lines h in
    simp (parts.0, parts.1, new_files_of_lines-body lines rest current parts.3)

lines-free :
    (lines : List Bytes) → all is_body lines ≡ true → all (λ l. not (has_byte b'\n' l)) lines ≡ true
lines-free [] h = refl
lines-free (line ∷ lines) h =
    let parts = line-parts line lines h in simp (parts.2, lines-free lines parts.3)

files_of_lines-header :
    (path : Bytes) (rest : List Bytes)
    → has_byte b' ' path ≡ false
    → files_of_lines (header path ∷ rest) ≡ path ∷ files_of_lines rest
unfolding files_of_lines has_prefix
files_of_lines-header path rest h =
    ap
      (λ o. elim o as (λ _. List Bytes) [
        | none ↦ files_of_lines rest
        | some file ↦ file ∷ files_of_lines rest
      ])
      (header_path-header path h)

scan_line-header :
    (path current : Bytes)
    → has_byte b' ' path ≡ false
    → scan_line current (header path) ≡ (path, [])
unfolding scan_line has_prefix
scan_line-header path current h =
    ap (λ o. (elim o as (λ _. Bytes) [ none ↦ [] | some file ↦ file ], []))
      (header_path-header path h)

files_of_lines-mode :
    (mode : Option Bytes) (rest : List Bytes)
    → files_of_lines (mode_lines mode ++ rest) ≡ files_of_lines rest
unfolding files_of_lines has_prefix
files_of_lines-mode none rest = refl
files_of_lines-mode (some mode) rest = refl

files_of_lines-diff :
    (d : FileDiff) (rest : List Bytes)
    → has_byte b' ' d.path ≡ false
    → all is_body d.body ≡ true
    → files_of_lines (diff_lines d ++ rest) ≡ d.path ∷ files_of_lines rest
files_of_lines-diff d rest h b =
    ap files_of_lines (append_assoc (header d.path ∷ []) (mode_lines d.mode ++ d.body) rest)
    ∙ files_of_lines-header d.path ((mode_lines d.mode ++ d.body) ++ rest) h
    ∙ ap (λ f. d.path ∷ f)
        (ap files_of_lines (append_assoc (mode_lines d.mode) d.body rest)
          ∙ files_of_lines-mode d.mode (d.body ++ rest)
          ∙ files_of_lines-body d.body rest b)

new_files_of_lines-mode :
    (a : ℕ) (path : Bytes) (mode : Option Bytes) (rest : List Bytes)
    → new_files_of_lines (a ∷ path) (mode_lines mode ++ rest)
      ≡ new_path (a ∷ path) mode ++ new_files_of_lines (left_current (a ∷ path) mode) rest
unfolding new_files_of_lines scan_line has_prefix bytes_beq
new_files_of_lines-mode a path none rest = refl
new_files_of_lines-mode a path (some mode) rest = refl

new_files_of_lines-header :
    (path : Bytes) (current : Bytes) (rest : List Bytes)
    → has_byte b' ' path ≡ false
    → new_files_of_lines current (header path ∷ rest) ≡ new_files_of_lines path rest
unfolding new_files_of_lines
new_files_of_lines-header path current rest h =
    ap (λ s. s.1 ++ new_files_of_lines s.0 rest) (scan_line-header path current h)

name-parts :
    (path : Bytes)
    → is_name path ≡ true
    → ((path == []) ≡ false) × (has_byte b' ' path ≡ false) × (has_byte b'\n' path ≡ false)
name-parts path h =
    let parts =
      body-parts (path == []) (has_byte b' ' path) (has_byte b'\n' path) (all is_unquoted path) h in
    (parts.0, parts.1, parts.2)

new_files_of_lines-diff :
    (path : Bytes) (mode : Option Bytes) (body rest : List Bytes) (current : Bytes)
    → is_name path ≡ true
    → all is_body body ≡ true
    → new_files_of_lines current ((header path ∷ (mode_lines mode ++ body)) ++ rest)
      ≡ new_path path mode ++ new_files_of_lines (left_current path mode) rest
unfolding bytes_beq
new_files_of_lines-diff [] mode body rest current h b = absurd (ground arith)
new_files_of_lines-diff (a ∷ path) mode body rest current h b =
    let parts = name-parts (a ∷ path) h in
    new_files_of_lines-header (a ∷ path) current ((mode_lines mode ++ body) ++ rest) parts.1
    ∙ ap (new_files_of_lines (a ∷ path)) (append_assoc (mode_lines mode) body rest)
    ∙ new_files_of_lines-mode a path mode (body ++ rest)
    ∙ ap (λ f. new_path (a ∷ path) mode ++ f)
        (new_files_of_lines-body body rest (left_current (a ∷ path) mode) b)

new_files_of_lines-diffs :
    (diffs : List FileDiff) (current : Bytes)
    → All IsDiff diffs
    → new_files_of_lines current (all_lines diffs ++ ([] ∷ [])) ≡ new_paths diffs
unfolding new_files_of_lines scan_line has_prefix
new_files_of_lines-diffs [] current h = refl
new_files_of_lines-diffs (d ∷ diffs) current h =
    ap (new_files_of_lines current) (append_assoc (diff_lines d) (all_lines diffs) ([] ∷ []))
    ∙ new_files_of_lines-diff d.path d.mode d.body (all_lines diffs ++ ([] ∷ [])) current h.0.0
        h.0.2
    ∙ ap (λ f. new_path d.path d.mode ++ f)
        (new_files_of_lines-diffs diffs (left_current d.path d.mode) h.1)

files_of_lines-diffs :
    (diffs : List FileDiff)
    → All IsDiff diffs
    → files_of_lines (all_lines diffs ++ ([] ∷ [])) ≡ map (λ d. d.path) diffs
unfolding files_of_lines has_prefix
files_of_lines-diffs [] h = refl
files_of_lines-diffs (d ∷ diffs) h =
    ap files_of_lines (append_assoc (diff_lines d) (all_lines diffs) ([] ∷ []))
    ∙ files_of_lines-diff d (all_lines diffs ++ ([] ∷ [])) (name-parts d.path h.0.0).1 h.0.2
    ∙ ap (λ f. d.path ∷ f) (files_of_lines-diffs diffs h.1)

mode_lines-free :
    (mode : Option Bytes)
    → is_mode mode ≡ true
    → all (λ l. not (has_byte b'\n' l)) (mode_lines mode) ≡ true
unfolding has_byte
mode_lines-free none h = refl
mode_lines-free (some mode) h = ground (arith, h)

all_lines-free :
    (diffs : List FileDiff)
    → All IsDiff diffs
    → all (λ l. not (has_byte b'\n' l)) (all_lines diffs) ≡ true
all_lines-free [] h = refl
all_lines-free (d ∷ diffs) h =
    let free : Bytes → Bool = λ l. not (has_byte b'\n' l) in
    all-append free (diff_lines d) (all_lines diffs)
      (all-append free (header d.path ∷ []) (mode_lines d.mode ++ d.body)
        (simp (header-free d.path (name-parts d.path h.0.0).2))
        (all-append free (mode_lines d.mode) d.body (mode_lines-free d.mode h.0.1)
          (lines-free d.body h.0.2)))
      (all_lines-free diffs h.1)

-- From a patch whose paths git prints unquoted and without spaces, that is printable ASCII without
-- quotes and backslashes, the code reads the paths of all files in order, and as new files exactly
-- those with a line `new file mode`.
pub parse_patch_files-print_patch :
    (diffs : List FileDiff)
    → All IsDiff diffs
    → (parse_patch_files (print_patch diffs) ≡ map (λ d. d.path) diffs)
      × (parse_new_file_paths (print_patch diffs) ≡ new_paths diffs)
unfolding parse_patch_files parse_new_file_paths print_patch
parse_patch_files-print_patch diffs h =
    let cut = split-unlines (all_lines diffs) (all_lines-free diffs h) in
    (
      ap files_of_lines cut ∙ files_of_lines-diffs diffs h,
      ap (new_files_of_lines []) cut ∙ new_files_of_lines-diffs diffs [] h,
    )
