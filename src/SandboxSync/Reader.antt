-- ===== src/SandboxSync/Reader.antt =====
-- What a POSIX shell reads from quoted arguments.
use rwx.Prelude.{
  ℕ, Bool, ◌&&◌, ◌||◌, leb, Option, none, some, List, [], ◌∷◌, ◌++◌, ◌==◌, nat_eq, Bytes, codes,
  if◌then◌else◌, append_assoc, append-nil, ◌≡◌, refl, ap, sym, ◌∙◌, arith,
}
use rwx.SandboxSync.Shell.{escape, quote_shell_arg, quote_all, sandbox_worktree_root_command}

-- Between words, in a word, in single quotes within a word, behind a backslash within a word.
pub data Mode : Type 0 where
  blank plain quoted escaped : Mode

-- The words read, and the one that is being read.
pub record Reader : Type 0 where
  pub mode : Mode
  pub word : Bytes
  pub words : List Bytes

-- A character that stands for itself outside quotes.
unfoldable pub is_literal : ℕ → Bool
is_literal c =
    leb b'a' c && leb c b'z'
    || leb b'A' c && leb c b'Z'
    || leb b'/' c && leb c b'9'
    || c == b'-'
    || c == b'.'

-- One character; `none` where the shell would do more than read a word.
unfoldable pub advance : Reader → ℕ → Option Reader
unfolding is_literal
advance r c = elim r.mode [
  | quoted ↦
      some
        (if c == b'\'' then record r { mode = plain } else record r { word = r.word ++ (c ∷ []) })
  | escaped ↦ some (record r { mode = plain; word = r.word ++ (c ∷ []) })
  | plain ↦
      if c == b'\''
      then some (record r { mode = quoted })
      else if c == b'\\'
      then some (record r { mode = escaped })
      else if c == b' '
      then some (record { mode = blank; word = []; words = r.words ++ (r.word ∷ []) })
      else if is_literal c
      then some (record r { word = r.word ++ (c ∷ []) })
      else none
  | blank ↦
      if c == b'\''
      then some (record r { mode = quoted })
      else if c == b'\\'
      then some (record r { mode = escaped })
      else if c == b' '
      then some r
      else if is_literal c
      then some (record r { mode = plain; word = c ∷ [] })
      else none
]

unfoldable pub read_words : Reader → Bytes → Option (List Bytes)
unfolding advance
read_words r [] = elim r.mode [
  | blank ↦ some r.words
  | plain ↦ some (r.words ++ (r.word ∷ []))
  | quoted ↦ none
  | escaped ↦ none
]
read_words r (c ∷ s) = elim (advance r c) [ none ↦ none | some next ↦ read_words next s ]

unfoldable pub shell_words : Bytes → Option (List Bytes)
unfolding read_words
shell_words s = read_words (record { mode = blank; word = []; words = [] }) s

abbrev in_quotes : Bytes → List Bytes → Reader
in_quotes word words = record { mode = quoted; word = word; words = words }

abbrev in_word : Bytes → List Bytes → Reader
in_word word words = record { mode = plain; word = word; words = words }

abbrev between : List Bytes → Reader
between words = record { mode = blank; word = []; words = words }

read_words-escape :
    (s t word : Bytes) (words : List Bytes)
    → read_words (in_quotes word words) (escape s ++ (b'\'' ∷ t))
      ≡ read_words (in_word (word ++ s) words) t
unfolding read_words advance escape
read_words-escape [] t word words = ground (arith, append-nil word)
read_words-escape (c ∷ s) t word words =
    ground (arith, read_words-escape s t (word ++ (c ∷ [])) words, append_assoc word (c ∷ []) s)

read_words-quote_shell_arg :
    (s t : Bytes) (words : List Bytes)
    → read_words (between words) (quote_shell_arg s ++ t) ≡ read_words (in_word s words) t
unfolding quote_shell_arg read_words advance
read_words-quote_shell_arg s t words =
    ap (read_words (in_quotes [] words)) (append_assoc (escape s) (b'\'' ∷ []) t)
    ∙ read_words-escape s t [] words

read_words-quote_all :
    (path : Bytes) (paths : List Bytes) (words : List Bytes)
    → read_words (between words) (quote_all (path ∷ paths)) ≡ some (words ++ (path ∷ paths))
unfolding quote_all read_words
read_words-quote_all path [] words =
    ap (read_words (between words)) (sym (append-nil (quote_shell_arg path)))
    ∙ read_words-quote_shell_arg path [] words
read_words-quote_all path (next ∷ paths) words =
    read_words-quote_shell_arg path (b' ' ∷ quote_all (next ∷ paths)) words
    ∙ read_words-quote_all next paths (words ++ (path ∷ []))
    ∙ ap some (append_assoc words (path ∷ []) (next ∷ paths))

-- A shell reads the quoted arguments as exactly those arguments, whatever bytes they hold: none is
-- split, joined with the next, dropped or expanded.
pub shell_words-quote_all : (paths : List Bytes) → shell_words (quote_all paths) ≡ some paths
unfolding shell_words quote_all read_words
shell_words-quote_all [] = refl
shell_words-quote_all (path ∷ paths) = read_words-quote_all path paths []

-- The shell of the sandbox runs `/bin/sh -lc` with one argument, which is the script behind the
-- change to the worktree's root, whatever bytes the script holds.
pub shell_words-sandbox_worktree_root_command :
    (script : Bytes)
    → shell_words (sandbox_worktree_root_command script)
      ≡ some (
          codes "/bin/sh"
          ∷ codes "-lc"
          ∷ (codes
                "repo_root=$(/usr/bin/git rev-parse --show-toplevel) || exit 1; cd \"$repo_root\" || exit 1; "
              ++ script)
          ∷ [])
unfolding shell_words sandbox_worktree_root_command quote_all
shell_words-sandbox_worktree_root_command script =
    read_words-quote_all
      (codes
          "repo_root=$(/usr/bin/git rev-parse --show-toplevel) || exit 1; cd \"$repo_root\" || exit 1; "
        ++ script)
      [] (codes "/bin/sh" ∷ codes "-lc" ∷ [])
