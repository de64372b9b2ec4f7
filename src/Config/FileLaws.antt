-- ===== src/Config/FileLaws.antt =====
-- Reads after writes and after migrations in the configuration's directories.
use rwx.Prelude.{
  ℕ, zero, suc, Option, none, some, [], ◌==◌, drop, length, append-nil, refl, Bytes, bytes_eq,
  trim_space, take, if◌then◌else◌, ◌≡◌, ap, ◌∙◌, arith,
}
use rwx.Prelude.Dict.{get, put, get-put, get-put_self}
use rwx.Prelude.Result.{ok}
use rwx.Prelude.FilePath.{join}
use rwx.Config.{
  FileBackend, File, Fs, overwritten, SetStep, mkdir_all, chmod_directory, open_file, chmod_file,
  write_string, get_from, made_directory, chmodded_directory, opened_file, written_file, set,
  get_value,
}

drop-nil : (n : ℕ) → drop {A = ℕ} n [] ≡ []
drop-nil zero = refl
drop-nil (suc n) = refl

module _ (umask : ℕ → ℕ) where
  -- The file that is opened is empty, so it holds what is written to it.
  overwritten-opened :
      (fs : Fs) (path value : Bytes)
      → overwritten (get (opened_file umask fs path).files path) value ≡ value
  unfolding opened_file overwritten
  overwritten-opened fs path value =
      rw
        (
          get-put_self fs.files path (record {
            contents = [];
            mode = (elim (get fs.files path) [ none ↦ umask 384 | some file ↦ file.mode ]);
          }),
          drop-nil (length value),
        )
        (append-nil value)

  written-opened :
      (fs : Fs) (path value : Bytes)
      → (written_file umask (opened_file umask fs path) path value).files
        ≡ put (opened_file umask fs path).files path (record { contents = value; mode = 384 })
  unfolding written_file
  written-opened fs path value =
      ap (λ c. put (opened_file umask fs path).files path (record { contents = c; mode = 384 }))
        (overwritten-opened fs path value)

  get-written_opened :
      (fs : Fs) (path value : Bytes)
      → get (written_file umask (opened_file umask fs path) path value).files path
        ≡ some (record { contents = value; mode = 384 })
  get-written_opened fs path value =
      ap (λ files. get files path) (written-opened fs path value)
      ∙ get-put_self (opened_file umask fs path).files path
          (record { contents = value; mode = 384 })

  -- The state that a `Set` without failures gives.
  pub set_done : FileBackend → Fs → Bytes → Bytes → Fs
  set_done f fs filename value =
      written_file umask
        (opened_file umask
          (chmodded_directory umask (made_directory umask fs f.primary_directory)
            f.primary_directory)
          (join f.primary_directory filename))
        (join f.primary_directory filename) value

  pub set-ok :
      (refused : Option SetStep) (f : FileBackend) (fs : Fs) (filename value : Bytes) {fs' : Fs}
      → set umask refused f fs filename value ≡ (fs', ok tt)
      → fs' ≡ set_done f fs filename value
  unfolding set set_done
  set-ok none f fs filename value h = ground (arith, h)
  set-ok (some mkdir_all) f fs filename value h = ground (arith, h)
  set-ok (some chmod_directory) f fs filename value h = ground (arith, h)
  set-ok (some open_file) f fs filename value h = ground (arith, h)
  set-ok (some chmod_file) f fs filename value h = ground (arith, h)
  set-ok (some (write_string n)) f fs filename value h = ground (arith, h)

  pub get_from-set_done :
      (f : FileBackend) (fs : Fs) (filename value : Bytes)
      → get_from (set_done f fs filename value) f.primary_directory filename ≡ ok (trim_space value)
  unfolding get_from set_done
  get_from-set_done f fs filename value = ground (
    arith,
    get-written_opened
        (chmodded_directory umask (made_directory umask fs f.primary_directory) f.primary_directory)
        (join f.primary_directory filename) value,
  )

  get_value-primary :
      (refused : Option SetStep) (f : FileBackend) (fs : Fs) (filename : Bytes) {v : Bytes}
      → get_from fs f.primary_directory filename ≡ ok v
      → get_value umask refused f fs filename ≡ (fs, ok v)
  unfolding get_value
  get_value-primary refused f fs filename h = ground (arith, h)

  -- What a successful `Set` leaves: `Get` returns the value without the white space around it, whatever
  -- the fallback directories hold and the directory held; the file's mode is 0600 and the
  -- directory's 0700, also where they were more open before.
  pub get_value-set :
      (refused r : Option SetStep) (f : FileBackend) (fs : Fs) (filename value : Bytes) {fs' : Fs}
      → set umask refused f fs filename value ≡ (fs', ok tt)
      → (get_value umask r f fs' filename ≡ (fs', ok (trim_space value)))
        × (get fs'.files (join f.primary_directory filename)
            ≡ some (record { contents = value; mode = 384 }))
        × (get fs'.directories f.primary_directory ≡ some 448)
  unfolding set_done written_file opened_file chmodded_directory
  get_value-set refused r f fs filename value {fs'} h =
      let e = set-ok refused f fs filename value h in
      let path = join f.primary_directory filename in
      let chmodded =
        chmodded_directory umask (made_directory umask fs f.primary_directory)
          f.primary_directory in
      (
        get_value-primary r f fs' filename (
            ap (λ s. get_from s f.primary_directory filename) e
            ∙ get_from-set_done f fs filename value),
        ap (λ s. get s.files path) e ∙ get-written_opened chmodded path value,
        ap (λ s. get s.directories f.primary_directory) e
            ∙ get-put_self (made_directory umask fs f.primary_directory).directories
                f.primary_directory 448,
      )

  files-made : (fs : Fs) (dir : Bytes) → (made_directory umask fs dir).files ≡ fs.files
  unfolding made_directory
  files-made fs dir = ground arith

  files-chmodded :
      (fs : Fs) (dir : Bytes)
      → (chmodded_directory umask (made_directory umask fs dir) dir).files ≡ fs.files
  unfolding chmodded_directory made_directory
  files-chmodded fs dir = ground arith

  get-opened :
      (fs : Fs) (dir path p : Bytes)
      → get
          (opened_file umask
            (chmodded_directory umask (made_directory umask fs dir) dir)
            path).files
          p
        ≡ (if path == p
            then some (record {
              contents = [];
              mode = (elim (get fs.files path) [ none ↦ umask 384 | some file ↦ file.mode ]);
            })
            else get fs.files p)
  unfolding opened_file
  get-opened fs dir path p =
      let base = chmodded_directory umask (made_directory umask fs dir) dir in
      get-put base.files path p (record {
        contents = [];
        mode = (elim (get base.files path) [ none ↦ umask 384 | some file ↦ file.mode ]);
      })
      ∙ ap
          (λ files.
            if path == p
            then some (record {
              contents = [];
              mode = (elim (get files path) [ none ↦ umask 384 | some file ↦ file.mode ]);
            })
            else get files p)
          (files-chmodded fs dir)

  get-written :
      (fs : Fs) (dir path p value : Bytes)
      → get
          (written_file umask
            (opened_file umask (chmodded_directory umask (made_directory umask fs dir) dir) path)
            path
            value).files
          p
        ≡ (if path == p then some (record { contents = value; mode = 384 }) else get fs.files p)
  get-written fs dir path p value =
      let base = chmodded_directory umask (made_directory umask fs dir) dir in
      let opened = opened_file umask base path in
      ap (λ files. get files p) (written-opened base path value)
      ∙ ground (
        arith,
        get-put opened.files path p (record { contents = value; mode = 384 }),
        get-opened fs dir path p,
      )

  -- A `Set` that fails or succeeds leaves every other file alone; one that fails before it opens its
  -- own file leaves that one as it was too, and one that fails later leaves of its value at most the
  -- bytes written before the failure.
  pub set_touches :
      (refused : Option SetStep) (f : FileBackend) (fs : Fs) (filename value path : Bytes)
      → get (set umask refused f fs filename value).0.files path ≡ (
          if join f.primary_directory filename == path
          then elim refused as (λ _. Option File) [
            | none ↦ some (record { contents = value; mode = 384 })
            | some step ↦ elim step as (λ _. Option File) [
              | mkdir_all ↦ get fs.files path
              | chmod_directory ↦ get fs.files path
              | open_file ↦ get fs.files path
              | chmod_file ↦ some (record {
                contents = [];
                mode = (elim (get fs.files (join f.primary_directory filename)) [
                  | none ↦ umask 384
                  | some file ↦ file.mode
                ]);
              })
              | write_string n ↦ some (record { contents = take n value; mode = 384 })
            ]
          ]
          else get fs.files path)
  unfolding set
  set_touches none f fs filename value path =
      get-written fs f.primary_directory (join f.primary_directory filename) path value
  set_touches (some mkdir_all) f fs filename value path = ground arith
  set_touches (some chmod_directory) f fs filename value path =
      ground (arith, files-made fs f.primary_directory)
  set_touches (some open_file) f fs filename value path =
      ground (arith, files-chmodded fs f.primary_directory)
  set_touches (some chmod_file) f fs filename value path =
      get-opened fs f.primary_directory (join f.primary_directory filename) path
  set_touches (some (write_string n)) f fs filename value path =
      get-written fs f.primary_directory (join f.primary_directory filename) path (take n value)
