-- ===== src/SandboxSync/Shell.antt =====
-- internal/cli/service_sandbox.go: the quoting of arguments in remote commands, and the lists of
-- paths that they print.
use rwx.Prelude.{List, [], ◌∷◌, ◌++◌, ◌==◌, nat_eq, Bytes, codes, if◌then◌else◌, split}
use rwx.Vcs.{drop_empty}

-- strings.ReplaceAll(s, "'", "'\\''")
unfoldable pub escape : Bytes → Bytes
escape [] = []
escape (c ∷ s) =
    let rest = escape s in if c == b'\'' then b'\'' ∷ b'\\' ∷ b'\'' ∷ b'\'' ∷ rest else c ∷ rest

unfoldable pub quote_shell_arg : Bytes → Bytes
unfolding escape
quote_shell_arg s = b'\'' ∷ (escape s ++ (b'\'' ∷ []))

-- The quoted arguments with a space between them.
unfoldable pub quote_all : List Bytes → Bytes
unfolding quote_shell_arg
quote_all [] = []
quote_all (path ∷ []) = quote_shell_arg path
quote_all (path ∷ next ∷ paths) = quote_shell_arg path ++ (b' ' ∷ quote_all (next ∷ paths))

-- A script that runs in the root of the sandbox's worktree.
unfoldable pub sandbox_worktree_root_command : Bytes → Bytes
unfolding quote_shell_arg
sandbox_worktree_root_command script =
    codes "/bin/sh -lc "
    ++ quote_shell_arg (
        codes
          "repo_root=$(/usr/bin/git rev-parse --show-toplevel) || exit 1; cd \"$repo_root\" || exit 1; "
        ++ script)

unfoldable pub split_nul_strings : Bytes → List Bytes
unfolding split drop_empty
split_nul_strings [] = []
split_nul_strings (c ∷ output) = drop_empty (split 0 (c ∷ output))
