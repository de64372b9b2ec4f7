-- ===== src/Config.antt =====
-- The configuration files: a directory to write to and older ones to read from
-- (internal/config/backend.go, file_backend.go, memory_backend.go).
mod Trim
mod FileLaws
mod Migration
mod Backend
mod Tokens
mod Tests
use rwx.Prelude.{
  ℕ, ◌/◌, ◌%◌, Bool, true, false, not, ◌||◌, Option, none, some, List, [], ◌∷◌, ◌==◌, nat_eq, Bytes,
  bytes_eq, bytes_beq, codes, has_prefix, trim_prefix, trim_space, take, drop, length, ◌++◌,
  if◌then◌else◌, ◌≡◌, refl, arith,
}
use rwx.Prelude.Dict.{Dict, get, put}
use rwx.Prelude.Result.{Result, ok, err, ◌>>=◌, ◌>>◌}
use rwx.Prelude.FilePath.{join}

pub record FileBackend : Type 0 where
  pub primary_directory : Bytes
  pub fallback_directories : List Bytes

-- A file of the user, with its permission bits.
pub record File : Type 0 where
  pub contents : Bytes
  pub mode : ℕ

pub record Fs : Type 0 where
  pub files : Dict Bytes File
  pub directories : Dict Bytes ℕ

-- 0o700, 0o600 and the owner's right to read
abbrev pub file_backend_dir_mode : ℕ
file_backend_dir_mode = 448

abbrev pub file_backend_file_mode : ℕ
file_backend_file_mode = 384

abbrev pub readable : ℕ → Bool
readable mode = mode / 256 % 2 == 1

-- The steps of `Set` that may fail; a failing write has written some bytes.
pub data SetStep : Type 0 where
  mkdir_all : SetStep
  chmod_directory : SetStep
  open_file : SetStep
  chmod_file : SetStep
  write_string : ℕ → SetStep

pub data ConfigError : Type 0 where
  not_exist : ConfigError
  unreadable : ConfigError
  no_directories : ConfigError
  no_home : ConfigError
  not_set : SetStep → ConfigError
  unable_to_migrate : ConfigError → ConfigError

-- `expandTilde`, with the home directory if there is one
unfoldable pub expand_tilde : Option Bytes → Bytes → Result ConfigError Bytes
unfolding bytes_beq has_prefix trim_prefix
expand_tilde home dir =
    if not (dir == codes "~" || has_prefix dir (codes "~/")) then ok dir else elim home [
      | none ↦ err no_home
      | some home_dir ↦
          if dir == codes "~"
          then ok home_dir
          else ok (join home_dir (trim_prefix dir (codes "~/")))
    ]

unfoldable pub expand_all : Option Bytes → List Bytes → Result ConfigError (List Bytes)
unfolding expand_tilde
expand_all home [] = ok []
expand_all home (dir ∷ dirs) =
    let rest = expand_all home dirs in
    do fallback_dir ← expand_tilde home dir; fallback_dirs ← rest; ok (fallback_dir ∷ fallback_dirs)

unfoldable pub new_file_backend : Option Bytes → List Bytes → Result ConfigError FileBackend
unfolding expand_tilde expand_all
new_file_backend home [] = err no_directories
new_file_backend home (dir ∷ dirs) = do
  primary_directory ← expand_tilde home dir
  fallback_directories ← expand_all home dirs
  ok (record { primary_directory = primary_directory; fallback_directories = fallback_directories })

-- `getFrom`
unfoldable pub get_from : Fs → Bytes → Bytes → Result ConfigError Bytes
unfolding bytes_beq trim_space
get_from fs dir filename = elim (get fs.files (join dir filename)) [
  | none ↦ err not_exist
  | some file ↦ if readable file.mode then ok (trim_space file.contents) else err unreadable
]

-- A write at the beginning of a file keeps what is behind it.
unfoldable pub overwritten : Option File → Bytes → Bytes
overwritten none value = value
overwritten (some file) value = value ++ drop (length value) file.contents

-- What a new file or directory gets of the mode asked for: the process's umask.
module _ (umask : ℕ → ℕ) where
  -- os.MkdirAll of the directory itself, and os.Chmod of it
  unfoldable pub made_directory : Fs → Bytes → Fs
  unfolding bytes_beq
  made_directory fs dir = elim (get fs.directories dir) [
    | none ↦ record fs { directories = put fs.directories dir (umask file_backend_dir_mode) }
    | some _ ↦ fs
  ]

  unfoldable pub chmodded_directory : Fs → Bytes → Fs
  unfolding bytes_beq
  chmodded_directory fs dir = record fs {
    directories = put fs.directories dir file_backend_dir_mode;
  }

  -- os.OpenFile with O_CREATE and O_TRUNC: an old file keeps its mode
  unfoldable pub opened_file : Fs → Bytes → Fs
  unfolding bytes_beq
  opened_file fs path = record fs {
    files = put fs.files path (record {
      contents = [];
      mode = (elim (get fs.files path) [
        | none ↦ umask file_backend_file_mode
        | some file ↦ file.mode
      ]);
    });
  }

  -- fd.Chmod, and io.WriteString over what the opened file holds
  unfoldable pub written_file : Fs → Bytes → Bytes → Fs
  unfolding bytes_beq overwritten
  written_file fs path value = record fs {
    files = put fs.files path (record {
      contents = overwritten (get fs.files path) value;
      mode = file_backend_file_mode;
    });
  }

  -- `FileBackend.Set`; `refused` is the step that fails, if one does.
  unfoldable pub set :
      Option SetStep → FileBackend → Fs → Bytes → Bytes → Fs × Result ConfigError (Unit {0})
  unfolding made_directory chmodded_directory opened_file written_file
  set refused f fs filename value =
      let path = join f.primary_directory filename in
      let made = made_directory fs f.primary_directory in
      let chmodded = chmodded_directory made f.primary_directory in
      let opened = opened_file chmodded path in
      elim refused [
        | none ↦ (written_file opened path value, ok tt)
        | some step ↦ elim step [
          | mkdir_all ↦ (fs, err (not_set mkdir_all))
          | chmod_directory ↦ (made, err (not_set chmod_directory))
          | open_file ↦ (chmodded, err (not_set open_file))
          | chmod_file ↦ (opened, err (not_set chmod_file))
          | write_string n ↦
              (written_file opened path (take n value), err (not_set (write_string n)))
        ]
      ]

  -- The loop of `FileBackend.Get` over the fallback directories: a value found is migrated.
  unfoldable pub get_fallback :
      Option SetStep → FileBackend → Fs → Bytes → List Bytes → Fs × Result ConfigError Bytes
  unfolding get_from set
  get_fallback refused f fs filename [] = (fs, ok [])
  get_fallback refused f fs filename (dir ∷ dirs) =
      let later = get_fallback refused f fs filename dirs in
      elim (get_from fs dir filename) [
        | ok value ↦
            let (fs', outcome) = set refused f fs filename value in
            elim outcome [ ok _ ↦ (fs', ok value) | err e ↦ (fs', err (unable_to_migrate e)) ]
        | err e ↦ elim e [
          | not_exist ↦ later
          | unreadable ↦ (fs, err unreadable)
          | no_directories ↦ (fs, err no_directories)
          | no_home ↦ (fs, err no_home)
          | not_set step ↦ (fs, err (not_set step))
          | unable_to_migrate d ↦ (fs, err (unable_to_migrate d))
        ]
      ]

  -- `FileBackend.Get`
  unfoldable pub get_value :
      Option SetStep → FileBackend → Fs → Bytes → Fs × Result ConfigError Bytes
  unfolding get_from get_fallback
  get_value refused f fs filename = elim (get_from fs f.primary_directory filename) [
    | ok value ↦ (fs, ok value)
    | err e ↦ elim e [
      | not_exist ↦ get_fallback refused f fs filename f.fallback_directories
      | unreadable ↦ (fs, err unreadable)
      | no_directories ↦ (fs, err no_directories)
      | no_home ↦ (fs, err no_home)
      | not_set step ↦ (fs, err (not_set step))
      | unable_to_migrate d ↦ (fs, err (unable_to_migrate d))
    ]
  ]

-- `MemoryBackend`
unfoldable pub memory_get : Dict Bytes Bytes → Bytes → Bytes
unfolding bytes_beq
memory_get data_map filename = elim (get data_map filename) [ none ↦ [] | some value ↦ value ]

unfoldable pub memory_set : Dict Bytes Bytes → Bytes → Bytes → Dict Bytes Bytes
unfolding bytes_beq
memory_set data_map filename value = put data_map filename value
