-- ===== src/Vcs/Tests.antt =====
-- The version control helpers on concrete inputs.
use rwx.Prelude.{List, [], ◌∷◌, ◌==◌, Bytes, bytes_eq, bytes_beq, codes, if◌then◌else◌, ◌≡◌, refl}
use rwx.Vcs.{commit_mismatch_note, Attrs, printed}
use rwx.Vcs.Paths.{lfs_files}

no_note : commit_mismatch_note (codes "abc1234") (codes "abc1234def") ≡ []
unfolding commit_mismatch_note
no_note = refl

abbrev two_paths : List Bytes
two_paths = codes "a b" ∷ codes "c" ∷ []

abbrev attrs_of : Bytes → Attrs
unfolding bytes_beq
attrs_of file =
    if file == codes "c" then printed (codes "c: filter: lfs") else printed (codes "unspecified")

lfs_files_found : lfs_files attrs_of two_paths ≡ codes "c" ∷ []
unfolding lfs_files attrs_of
lfs_files_found = refl
