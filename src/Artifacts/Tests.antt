-- ===== src/Artifacts/Tests.antt =====
-- Names of artifacts and an extraction on concrete inputs.
use rwx.Prelude.FilePath.{clean, is_abs, join}
use rwx.Prelude.Traced.{on_result, ◌>>=◌, on_error, return}
use rwx.Prelude.Dict.{get}
use rwx.Prelude.Decimal.{decimal}
use rwx.Prelude.{
  true, none, some, List, [], ◌∷◌, bytes_eq, bytes_beq, Bytes, codes, ◌≡◌, refl, length, all,
  trim_suffix, trim_left, last_index, trim_right, trim_space, All,
}
use rwx.Prelude.Result.{Result, ok, err}
use rwx.Errors.{GoError, new_error}
use rwx.Artifacts.Names.{
  safe_path_component, download_filename, artifact_stem, output_names, is_in, base_names, free_name,
  trim_dots, base_of_path, first_suffix, choose_name, choose_names, replaced,
}
use rwx.Artifacts.Components.{is_component}
use rwx.Artifacts.Distinct.{distinct, output_names-distinct}
use rwx.Artifacts.Extract.{
  Disk, missing, TarEntry, regular, extract_tar, is_inside, extract_file, extract_entry, ask_disk,
}
use rwx.Artifacts.Confined.{IsConfined, extract_tar-IsConfined}

a_stem : artifact_stem (codes "out/report.v1.tar") ≡ codes "report.v1"
unfolding artifact_stem safe_path_component trim_dots trim_right trim_left trim_space trim_suffix
    download_filename base_of_path last_index replaced
a_stem = refl

-- The third artifact passes over the second's own name.
abbrev some_keys : List Bytes
some_keys = codes "a/b" ∷ codes "a_b-2" ∷ codes "a\\b" ∷ codes ".." ∷ []

some_names :
    output_names some_keys
    ≡ some (codes "a_b" ∷ codes "a_b-2" ∷ codes "a_b-3" ∷ codes "artifact-4" ∷ [])
unfolding output_names choose_names base_names choose_name is_in bytes_beq safe_path_component
    trim_dots trim_right trim_left trim_space replaced free_name decimal first_suffix get
some_names = refl

output_names-distinct_example :
    (names : List Bytes) × (output_names some_keys ≡ some names)
    × (length names ≡ length some_keys)
    × (distinct names ≡ true)
    × (all is_component names ≡ true)
output_names-distinct_example = output_names-distinct some_keys

abbrev a_disk : Disk
a_disk = record { answer = λ h e. none; stat = λ h path. missing }

abbrev file_named : Bytes → Result GoError TarEntry
file_named name = ok (record { name = name; kind = regular; mode = 420; contents = codes "x" })

abbrev an_archive : List (Result GoError TarEntry)
an_archive = file_named (codes "log.txt") ∷ file_named (codes "../../etc/passwd") ∷ []

leaves :
    (extract_tar a_disk (codes "/out") an_archive []).0
    ≡ err (new_error (codes "invalid file path in tar: ../../etc/passwd"))
unfolding extract_tar on_result is_inside bytes_beq clean join ◌>>=◌ extract_entry on_error
    extract_file ask_disk return
leaves = refl

extract_tar-IsConfined_example :
    All (IsConfined (codes "/out")) (extract_tar a_disk (codes "/out") an_archive []).1
unfolding is_abs
extract_tar-IsConfined_example = extract_tar-IsConfined a_disk (codes "/out") an_archive refl

-- Into the root of the file system no file can be extracted.
no_root :
    (extract_tar a_disk (codes "/") (file_named (codes "log.txt") ∷ []) []).0
    ≡ err (new_error (codes "invalid file path in tar: log.txt"))
unfolding extract_tar on_result is_inside bytes_beq clean join return
no_root = refl
