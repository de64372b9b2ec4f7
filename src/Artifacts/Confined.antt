-- ===== src/Artifacts/Confined.antt =====
-- An archive writes nothing outside the directory that it is extracted to.
use rwx.Prelude.{ℕ, Bool, true, ◌&&◌, not, List, [], ◌∷◌, Bytes, bytes_eq, All, ◌≡◌, arith}
use rwx.Prelude.FilePath.{is_abs, dir, join, has_parent_part, join-has_parent_part}
use rwx.Prelude.Result.{Result}
use rwx.Prelude.Leads.{Leads, Leads-if, Leads-result, Leads-return, leads_rules}
use rwx.Errors.{GoError}
use rwx.Artifacts.Extract.{
  ArtifactEvent, make_directory, create_file, copy_contents, change_mode, Disk, EntryKind,
  directory, regular, other, TarEntry, is_inside, ask_disk, extract_file, extract_entry,
  extract_tar,
}

-- A path at the directory or below it, that does not lead through a parent directory.
unfoldable pub stays_inside : Bytes → Bytes → Bool
stays_inside dest_dir path = is_inside dest_dir path && not (has_parent_part path)

-- What may be asked of the disk: something about such a path, or to make the directory that holds it,
-- which for the destination itself is the one above.
pub data IsConfined (dest_dir : Bytes) : ArtifactEvent → Type 0 where
  directory_inside :
      {path : Bytes} → stays_inside dest_dir path ≡ true → IsConfined dest_dir (make_directory path)
  directory_of :
      (path : Bytes)
      → stays_inside dest_dir path ≡ true
      → IsConfined dest_dir (make_directory (dir path))
  file_inside :
      {path : Bytes} → stays_inside dest_dir path ≡ true → IsConfined dest_dir (create_file path)
  contents_inside :
      {path contents : Bytes}
      → stays_inside dest_dir path ≡ true
      → IsConfined dest_dir (copy_contents path contents)
  mode_inside :
      {path : Bytes} {mode : ℕ}
      → stays_inside dest_dir path ≡ true
      → IsConfined dest_dir (change_mode path mode)

-- All that was done was of these.
pub record Confined (dest_dir : Bytes) (h : List ArtifactEvent) : Type 0 where
  pub inside : All (IsConfined dest_dir) h

module _ (d : Disk) (dest_dir : Bytes) where
  attempt-Leads :
      (e : ArtifactEvent)
      → IsConfined dest_dir e
      → Leads (Confined dest_dir) (Confined dest_dir) (ask_disk d e)
  unfolding ask_disk
  attempt-Leads e i = record { at = λ h p. record { inside = (i, p.inside) } }

  module _ (path : Bytes) (i : stays_inside dest_dir path ≡ true) where
    attempt_directory :
        Leads (Confined dest_dir) (Confined dest_dir) (ask_disk d (make_directory path))
    attempt_directory = attempt-Leads (make_directory path) (directory_inside i)

    attempt_parent :
        Leads (Confined dest_dir) (Confined dest_dir) (ask_disk d (make_directory (dir path)))
    attempt_parent = attempt-Leads (make_directory (dir path)) (directory_of path i)

    attempt_file : Leads (Confined dest_dir) (Confined dest_dir) (ask_disk d (create_file path))
    attempt_file = attempt-Leads (create_file path) (file_inside i)

    attempt_contents :
        (contents : Bytes)
        → Leads (Confined dest_dir) (Confined dest_dir) (ask_disk d (copy_contents path contents))
    attempt_contents contents = attempt-Leads (copy_contents path contents) (contents_inside i)

    attempt_mode :
        (mode : ℕ)
        → Leads (Confined dest_dir) (Confined dest_dir) (ask_disk d (change_mode path mode))
    attempt_mode mode = attempt-Leads (change_mode path mode) (mode_inside i)

  ruleset attempt_rules =
      (leads_rules, attempt_directory, attempt_parent, attempt_file, attempt_contents, attempt_mode)

  extract_file-Leads :
      (path : Bytes) (entry : TarEntry)
      → stays_inside dest_dir path ≡ true
      → Leads (Confined dest_dir) (Confined dest_dir) (extract_file d path entry)
  unfolding extract_file
  extract_file-Leads path entry i = search attempt_rules depth 14 fits 4000

  extract_entry-Leads :
      (kind : EntryKind) (path : Bytes) (entry : TarEntry)
      → stays_inside dest_dir path ≡ true
      → Leads (Confined dest_dir) (Confined dest_dir) (extract_entry d kind path entry)
  unfolding extract_entry
  extract_entry-Leads directory path entry i = search attempt_rules depth 14 fits 4000
  extract_entry-Leads regular path entry i =
      search (leads_rules, extract_file-Leads) depth 14 fits 4000
  extract_entry-Leads other path entry i = search leads_rules

  join-stays_inside :
      (name : Bytes)
      → is_abs dest_dir ≡ true
      → is_inside dest_dir (join dest_dir name) ≡ true
      → stays_inside dest_dir (join dest_dir name) ≡ true
  unfolding stays_inside
  join-stays_inside name a i = ground (arith, i, join-has_parent_part dest_dir name a)

  extract_tar-Leads :
      (archive : List (Result GoError TarEntry))
      → is_abs dest_dir ≡ true
      → Leads (Confined dest_dir) (Confined dest_dir) (extract_tar d dest_dir archive)
  unfolding extract_tar
  extract_tar-Leads [] a = search leads_rules
  extract_tar-Leads (next ∷ archive) a =
      Leads-result (Confined dest_dir) (Confined dest_dir) next _ _
        (λ e. Leads-return (Confined dest_dir) _)
        (λ entry.
          Leads-if (Confined dest_dir) (Confined dest_dir)
            (is_inside dest_dir (join dest_dir entry.name)) _ _
            (λ i.
              search
                (
                  leads_rules,
                  extract_entry-Leads entry.kind (join dest_dir entry.name) entry
                      (join-stays_inside entry.name a i),
                  extract_tar-Leads archive a,
                )
                depth 14 fits 4000)
            (λ i. Leads-return (Confined dest_dir) _))

-- Whatever the entries of an archive are called, and whatever fails, an extraction into an absolute
-- directory only asks the disk for things at paths in it: the directory or a path below it, that does
-- not lead through a parent directory; or to make the directory that holds such a path, which for an
-- entry that names the destination itself is the one above.
pub extract_tar-IsConfined :
    (d : Disk) (dest_dir : Bytes) (archive : List (Result GoError TarEntry))
    → is_abs dest_dir ≡ true
    → All (IsConfined dest_dir) (extract_tar d dest_dir archive []).1
extract_tar-IsConfined d dest_dir archive a =
    ((extract_tar-Leads d dest_dir archive a).at [] (record { inside = tt })).inside
