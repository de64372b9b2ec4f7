-- ===== src/Config/Migration.antt =====
-- Which value `Get` returns, and that a migration from a fallback directory is done once.
use rwx.Prelude.{
  ℕ, Bool, true, false, Option, none, Option-cases, List, [], ◌∷◌, Bytes, bytes_eq, trim_space,
  if◌then◌else◌, ◌≡◌, refl, ◌⊎◌, inl, inr, arith,
}
use rwx.Prelude.Dict.{get}
use rwx.Prelude.Result.{Result, ok, err, Result-cases}
use rwx.Prelude.FilePath.{join}
use rwx.Config.{
  FileBackend, Fs, SetStep, ConfigError, not_exist, unreadable, no_directories, no_home, not_set,
  unable_to_migrate, get_from, set, get_fallback, get_value,
}
use rwx.Config.Trim.{trim_space_twice}
use rwx.Config.FileLaws.{set-ok, get_from-set_done}

abbrev is_not_exist : ConfigError → Bool
is_not_exist not_exist = true
is_not_exist unreadable = false
is_not_exist no_directories = false
is_not_exist no_home = false
is_not_exist (not_set _) = false
is_not_exist (unable_to_migrate _) = false

-- The first value that the directories hold.
unfoldable pub first_value : Fs → Bytes → List Bytes → Result ConfigError Bytes
unfolding get_from
first_value fs filename [] = ok []
first_value fs filename (dir ∷ dirs) =
    let later = first_value fs filename dirs in
    elim (get_from fs dir filename) [
      | ok value ↦ ok value
      | err e ↦ if is_not_exist e then later else err e
    ]

module _ (umask : ℕ → ℕ) where
  get_fallback-first_value :
      (f : FileBackend) (fs : Fs) (filename : Bytes) (dirs : List Bytes)
      → (get_fallback umask none f fs filename dirs).1 ≡ first_value fs filename dirs
  unfolding get_fallback first_value set
  get_fallback-first_value f fs filename [] = refl
  get_fallback-first_value f fs filename (dir ∷ dirs) =
      ground (arith, get_fallback-first_value f fs filename dirs)

  -- Where no step of a migration fails, `Get` returns the trimmed contents of the first file of this
  -- name in the primary directory and then the fallbacks in order, nothing if there is none, and the
  -- error of the first file that exists and cannot be read.
  pub get_value-first_value :
      (f : FileBackend) (fs : Fs) (filename : Bytes)
      → (get_value umask none f fs filename).1
        ≡ first_value fs filename (f.primary_directory ∷ f.fallback_directories)
  unfolding get_value first_value
  get_value-first_value f fs filename =
      ground (arith, get_fallback-first_value f fs filename f.fallback_directories)

  get_from-trimmed :
      (fs : Fs) (dir filename : Bytes) {v : Bytes}
      → get_from fs dir filename ≡ ok v
      → trim_space v ≡ v
  unfolding get_from
  get_from-trimmed fs dir filename h = elim (Option-cases (get fs.files (join dir filename))) [
    | inl e ↦ ground (arith, e, h)
    | inr (file, e) ↦ ground (arith, e, h, trim_space_twice file.contents)
  ]

  -- A fallback either had no file, or its value was set in the primary directory.
  get_fallback-ok :
      (refused : Option SetStep) (f : FileBackend) (fs : Fs) (filename : Bytes) (dirs : List Bytes)
      {fs' : Fs} {v : Bytes}
      → get_fallback umask refused f fs filename dirs ≡ (fs', ok v)
      → ((fs' ≡ fs)
          × (v ≡ [])
          × ((r : Option SetStep) → get_fallback umask r f fs filename dirs ≡ (fs, ok [])))
        ⊎ ((set umask refused f fs filename v ≡ (fs', ok tt)) × (trim_space v ≡ v))
  unfolding get_fallback
  get_fallback-ok refused f fs filename [] h = inl (ground (arith, h), ground (arith, h), λ r. refl)
  get_fallback-ok refused f fs filename (dir ∷ dirs) {fs'} {v} h =
      elim (Result-cases (get_from fs dir filename)) [
        | inl (value, e) ↦ inr (elim (Result-cases (set umask refused f fs filename value).1) [
          | inl (u, d) ↦
              (ground (arith, e, d, h), ground (arith, e, d, h, get_from-trimmed fs dir filename e))
          | inr (c, d) ↦ ground (arith, e, d, h)
        ])
        | inr (not_exist, e) ↦
            elim (get_fallback-ok refused f fs filename dirs {fs' = fs'} {v = v}
              (ground (arith, e, h))) [
                | inl (a, b, c) ↦ inl (a, b, λ r. ground (arith, e, c r))
                | inr x ↦ inr x
              ]
        | inr (unreadable, e) ↦ ground (arith, e, h)
        | inr (no_directories, e) ↦ ground (arith, e, h)
        | inr (no_home, e) ↦ ground (arith, e, h)
        | inr (not_set s, e) ↦ ground (arith, e, h)
        | inr (unable_to_migrate c, e) ↦ ground (arith, e, h)
      ]

  -- `Get` is stable: once it has returned a value, be it from the primary directory, by a migration
  -- from a fallback or as nothing found, the next `Get` returns the same value and changes nothing,
  -- whatever step would then fail.
  pub get_value_twice :
      (refused r : Option SetStep) (f : FileBackend) (fs : Fs) (filename : Bytes) {fs' : Fs}
      {v : Bytes}
      → get_value umask refused f fs filename ≡ (fs', ok v)
      → get_value umask r f fs' filename ≡ (fs', ok v)
  unfolding get_value
  get_value_twice refused r f fs filename {fs'} {v} h =
      elim (Result-cases (get_from fs f.primary_directory filename)) [
        | inl (value, e) ↦ ground (arith, e, h)
        | inr (not_exist, e) ↦
            elim (get_fallback-ok refused f fs filename f.fallback_directories {fs' = fs'} {v = v}
              (ground (arith, e, h))) [
                | inl (a, b, c) ↦ ground (arith, e, h, a, b, c r)
                | inr (done, trimmed) ↦ ground (
                  arith,
                  get_from-set_done umask f fs filename v,
                  set-ok umask refused f fs filename v done,
                  trimmed,
                )
              ]
        | inr (unreadable, e) ↦ ground (arith, e, h)
        | inr (no_directories, e) ↦ ground (arith, e, h)
        | inr (no_home, e) ↦ ground (arith, e, h)
        | inr (not_set s, e) ↦ ground (arith, e, h)
        | inr (unable_to_migrate c, e) ↦ ground (arith, e, h)
      ]
