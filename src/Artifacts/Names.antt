-- ===== src/Artifacts/Names.antt =====
-- The names of output directories and files (internal/cli/service_download_output.go and
-- `artifactOutputDirs` of internal/cli/service_artifacts.go).
use rwx.Prelude.{
  ℕ, zero, suc, ◌+◌, Bool, ◌||◌, not, Option, none, some, List, [], ◌∷◌, ◌++◌, ◌==◌, nat_eq,
  bytes_eq, Bytes, codes, any, map, length, last_index, drop, trim_left, trim_right, trim_space,
  trim_suffix, if◌then◌else◌,
}
use rwx.Prelude.Decimal.{decimal}
use rwx.Prelude.Dict.{Dict, get, put}

-- One byte under strings.NewReplacer("/", "_", "\\", "_").
unfoldable pub replaced : ℕ → ℕ
replaced c = if c == b'/' || c == b'\\' then b'_' else c

-- strings.Trim(s, ".")
unfoldable pub trim_dots : Bytes → Bytes
trim_dots s = trim_right (λ c. c == b'.') (trim_left (λ c. c == b'.') s)

unfoldable pub safe_path_component : Bytes → Bytes → Bytes
safe_path_component name fallback = elim (trim_dots (trim_space (map replaced name))) [
  | [] ↦ fallback
  | c ∷ component ↦ c ∷ component
]

-- filepath.Base
unfoldable pub base_of_path : Bytes → Bytes
base_of_path [] = codes "."
base_of_path (c ∷ path) = elim (trim_right (λ b. b == b'/') (c ∷ path)) [
  | [] ↦ codes "/"
  | b ∷ trimmed ↦ elim (last_index (b ∷ trimmed) b'/') [
    | none ↦ b ∷ trimmed
    | some i ↦ drop (suc i) (b ∷ trimmed)
  ]
]

unfoldable pub download_filename : Bytes → Bytes
download_filename filename =
    if base_of_path filename == codes "." || base_of_path filename == codes "/"
    then codes "download"
    else base_of_path filename

unfoldable pub artifact_stem : Bytes → Bytes
artifact_stem filename =
    safe_path_component (trim_suffix (download_filename filename) (codes ".tar")) (codes "artifact")

unfoldable pub download_all_artifacts_dir_name : Bytes → Bytes → Bytes → Bytes
download_all_artifacts_dir_name task_id run_id task_key =
    if not (task_id == [])
    then safe_path_component (task_id ++ codes "-artifacts") (codes "artifacts")
    else if run_id == [] || task_key == []
    then codes "artifacts"
    else safe_path_component (run_id ++ codes "-" ++ task_key ++ codes "-artifacts")
        (codes "artifacts")

-- The base names of the artifacts' keys, the first of which is number `i + 1`.
unfoldable pub base_names : ℕ → List Bytes → List Bytes
base_names i [] = []
base_names i (key ∷ keys) =
    safe_path_component key (codes "artifact-" ++ decimal (i + 1)) ∷ base_names (i + 1) keys

unfoldable pub is_in : List Bytes → Bytes → Bool
is_in names name = any (λ n. n == name) names

abbrev pub numbered : Bytes → ℕ → Bytes
numbered base_name suffix = base_name ++ (b'-' ∷ decimal suffix)

-- The loop over suffixes: the first name that is free, and the next suffix; `none` where the rounds
-- are used up.
unfoldable pub free_name : ℕ → List Bytes → Bytes → ℕ → Option (Bytes × ℕ)
free_name zero taken base_name suffix = none
free_name (suc rounds) taken base_name suffix =
    let later = free_name rounds taken base_name (suffix + 1) in
    if is_in taken (numbered base_name suffix)
    then later
    else some (numbered base_name suffix, suffix + 1)

-- The suffix to begin with; a stored one is never 0.
unfoldable pub first_suffix : Option ℕ → ℕ
first_suffix none = 2
first_suffix (some suffix) = suffix

-- A base name that is used already gets a suffix, from the one after that of its last use, or 2.
unfoldable pub choose_name :
    List Bytes → List Bytes → Dict Bytes ℕ → Bytes → Option (Bytes × Dict Bytes ℕ)
choose_name reserved used next_suffix base_name =
    let first = first_suffix (get next_suffix base_name) in
    if is_in used base_name
    then elim (free_name (suc (length (reserved ++ used))) (reserved ++ used) base_name first) [
      | none ↦ none
      | some (name, suffix) ↦ some (name, put next_suffix base_name suffix)
    ]
    else some (base_name, next_suffix)

unfoldable pub choose_names :
    List Bytes → List Bytes → Dict Bytes ℕ → List Bytes → Option (List Bytes)
choose_names reserved used next_suffix [] = some []
choose_names reserved used next_suffix (base_name ∷ base_names) =
    elim (choose_name reserved used next_suffix base_name) [
      | none ↦ none
      | some (name, next_suffix') ↦
          elim (choose_names reserved (name ∷ used) next_suffix' base_names) [
            | none ↦ none
            | some names ↦ some (name ∷ names)
          ]
    ]

-- The names of the directories; `none` if a search for a name ran out of rounds.
unfoldable pub output_names : List Bytes → Option (List Bytes)
output_names keys = choose_names (base_names 0 keys) [] [] (base_names 0 keys)
