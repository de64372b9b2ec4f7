-- ===== src/Sandbox/Key.antt =====
-- internal/cli/sandbox_storage.go: the keys of stored sessions, `branch:configFile`. The cwd of
-- `filepath.Abs` and the answers of the version control client are arguments.
pub mod RoundTrip
pub mod Migration
use rwx.Prelude.{
  ℕ, suc, Bool, true, false, ◌&&◌, ◌||◌, not, Option, none, some, List, [], ◌∷◌, ◌++◌, ◌==◌, Bytes,
  bytes_eq, bytes_beq, codes, has_prefix, has_suffix, index, last_index, take, drop, length,
  if◌then◌else◌,
}
use rwx.Prelude.FilePath.{is_abs, join}
use rwx.Prelude.Result.{Result, ok, err, ◌>>=◌}

-- A Go panic, with the reason that the code gives.
pub data Panic : Type 0 where
  relative_config : Panic

abbrev pub or_detached : Bytes → Bytes
unfolding bytes_beq
or_detached branch = if branch == [] then codes "detached" else branch

unfoldable pub session_key : Bytes → Bytes → Result Panic Bytes
unfolding bytes_beq is_abs
session_key branch config_file =
    let branch = or_detached branch in
    if not (config_file == []) && not (is_abs config_file)
    then err relative_config
    else ok (branch ++ (b':' ∷ config_file))

-- `cwd` is what `os.Getwd` returns inside `filepath.Abs`, `none` its error.
unfoldable pub abs_config_file : Option Bytes → Bytes → Bytes
unfolding bytes_beq is_abs
abs_config_file cwd config_file =
    if config_file == [] || is_abs config_file
    then config_file
    else elim cwd [ none ↦ config_file | some dir ↦ join dir config_file ]

unfoldable pub is_detached_branch : Bytes → Bool
unfolding bytes_beq has_prefix
is_detached_branch branch = branch == codes "detached" || has_prefix branch (codes "detached@")

unfoldable pub detached_short_sha : Bytes → Bytes
unfolding has_prefix
detached_short_sha branch =
    if has_prefix branch (codes "detached@") then drop (length (codes "detached@")) branch else []

-- `GetCurrentBranch` over the answers of `GetBranch` and `GetShortHead`
unfoldable pub get_current_branch : Bytes → Bytes → Bytes
unfolding bytes_beq
get_current_branch branch short_sha =
    if branch == []
    then (if short_sha == [] then codes "detached" else codes "detached@" ++ short_sha)
    else branch

-- the fallback for relative config files or malformed keys
parse_last_colon : Bytes → Bytes × Bytes
parse_last_colon key = elim (last_index key b':') [
  | none ↦ (key, [])
  | some last_colon ↦ (take last_colon key, drop (suc last_colon) key)
]

unfoldable pub parse_session_key : Bytes → Bytes × Bytes
unfolding parse_last_colon
parse_session_key key = elim (index key (codes ":/")) [
  | some idx ↦ (take idx key, drop (suc idx) key)
  | none ↦ parse_last_colon key
]

unfoldable pub is_yaml : Bytes → Bool
unfolding has_suffix
is_yaml config_file =
    has_suffix config_file (codes ".yml") || has_suffix config_file (codes ".yaml")

-- the three parts of a legacy key, `cwd:branch:configFile`
unfoldable pub migrate_parts : Bytes → Bytes → Bytes → Bytes → Result Panic Bytes
unfolding session_key is_yaml has_prefix
migrate_parts key cwd branch config_file =
    if has_prefix cwd (codes "/") && is_yaml config_file
    then session_key branch (if is_abs config_file then config_file else join cwd config_file)
    else ok key

unfoldable pub migrate_session_key : Bytes → Result Panic Bytes
unfolding migrate_parts
migrate_session_key key = elim (last_index key b':') [
  | none ↦ ok key
  | some last_colon ↦
      let rest = take last_colon key in
      elim (last_index rest b':') [
        | none ↦ ok key
        | some second ↦
            migrate_parts key (take second rest) (drop (suc second) rest)
              (drop (suc last_colon) key)
      ]
]
