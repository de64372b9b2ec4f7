-- ===== src/Artifacts/Failing.antt =====
-- A download that fails writes no file.
use rwx.Prelude.{
  Bool, true, false, Option, some, List, [], ◌∷◌, ◌++◌, Bytes, codes, any, map, subst, sym, ap, ◌≡◌,
  AnyOf, inl, inr, arith,
}
use rwx.Prelude.FilePath.{join}
use rwx.Prelude.Result.{Result, Result-cases, err}
use rwx.Prelude.Traced.{return, on_result}
use rwx.Prelude.Leads.{Leads, Leads-bind, Leads-option, leads_rules}
use rwx.Prelude.Gives.{Gives, Gives-bind, Gives-option, Gives-result, Gives-return, gives_rules}
use rwx.Errors.{GoError, wrap}
use rwx.Artifacts.Extract.{
  ArtifactEvent, make_directory, create_file, copy_contents, write_whole, change_mode, asked, slept,
  opened, recorded, PathInfo, a_directory, a_file, missing, unreadable, Disk, Extraction, ask_disk,
  stat_path, prepare, prepare_directory_output, prepare_directories, artifact_output_dirs,
}
use rwx.Artifacts.Ready.{DownloadRequest, Remote}
use rwx.Artifacts.Download.{DownloadConfig}
use rwx.Artifacts.DownloadAll.{collection_dir, fetch_all, download_found}
use rwx.Artifacts.Finish.{Gives-some, artifact_output_dirs-IsSome}

-- Whether an event creates or changes a file.
unfoldable pub is_on_file : ArtifactEvent → Bool
is_on_file (make_directory path) = false
is_on_file (create_file path) = true
is_on_file (copy_contents path contents) = true
is_on_file (write_whole path contents mode) = true
is_on_file (change_mode path mode) = true
is_on_file asked = false
is_on_file (slept ms) = false
is_on_file (opened path) = false
is_on_file (recorded count bytes) = false

-- No file was created or changed.
pub record NoFiles (h : List ArtifactEvent) : Type 0 where
  pub none_is : any is_on_file h ≡ false

pub data HasFailed : Option (Result GoError (List Bytes)) → Type 0 where
  failed_by : (e : GoError) → HasFailed (some (err e))

module _ (d : Disk) where
  make_directory-Leads : (path : Bytes) → Leads NoFiles NoFiles (ask_disk d (make_directory path))
  unfolding ask_disk is_on_file
  make_directory-Leads path = record { at = λ h p. record { none_is = p.none_is } }

  stat_path-Leads : (path : Bytes) → Leads NoFiles NoFiles (stat_path d path)
  unfolding stat_path
  stat_path-Leads path = record { at = λ h p. p }

  prepare-Leads : (info : PathInfo) (path : Bytes) → Leads NoFiles NoFiles (prepare d info path)
  unfolding prepare
  prepare-Leads a_directory path = search leads_rules
  prepare-Leads a_file path = search leads_rules
  prepare-Leads missing path = make_directory-Leads path
  prepare-Leads (unreadable e) path = search leads_rules

  prepare_directory_output-Leads :
      (path : Bytes) → Leads NoFiles NoFiles (prepare_directory_output d path)
  unfolding prepare_directory_output
  prepare_directory_output-Leads path = search (leads_rules, stat_path-Leads, prepare-Leads)

  prepare_directories-Leads :
      (dir : Bytes) (names : List Bytes) → Leads NoFiles NoFiles (prepare_directories d dir names)
  unfolding prepare_directories
  prepare_directories-Leads dir [] = search leads_rules
  prepare_directories-Leads dir (name ∷ names) =
      Leads-bind NoFiles NoFiles _ _ (prepare_directory_output-Leads (join dir name)) (λ failed.
        Leads-option NoFiles NoFiles failed _ _
          (Leads-bind NoFiles NoFiles _ _ (prepare_directories-Leads dir names)
            (λ made. search leads_rules))
          (λ e. search leads_rules))

  artifact_output_dirs-Leads :
      (dir : Bytes) (keys : List Bytes) → Leads NoFiles NoFiles (artifact_output_dirs d dir keys)
  unfolding artifact_output_dirs
  artifact_output_dirs-Leads dir keys =
      search (leads_rules, prepare_directories-Leads) depth 14 fits 4000

module _ (d : Disk) (r : Remote) (cfg : DownloadConfig) where
  -- What follows downloads of which one failed.
  module _ {fetched : Result GoError (List Bytes)} {e : GoError} (failed : fetched ≡ err e) where
    stopped-Leads :
        (rest : List Bytes → Extraction (Option (Result GoError (List Bytes))))
        → Leads NoFiles NoFiles (on_result fetched (λ e. return (some (err e))) rest)
    unfolding on_result
    stopped-Leads rest =
        subst (λ f. Leads NoFiles NoFiles (on_result f (λ e. return (some (err e))) rest))
          (sym failed) (search leads_rules)

    stopped-HasFailed :
        (rest : List Bytes → Extraction (Option (Result GoError (List Bytes))))
        → Gives HasFailed (on_result fetched (λ e. return (some (err e))) rest)
    unfolding on_result
    stopped-HasFailed rest =
        subst (λ f. Gives HasFailed (on_result f (λ e. return (some (err e))) rest)) (sym failed)
          (search (gives_rules, failed_by))

  unfetched-HasFailed :
      (requests : List DownloadRequest) (e : GoError)
      → fetch_all r requests ≡ err e
      → Gives HasFailed (download_found d r cfg requests)
  unfolding download_found
  unfetched-HasFailed requests e failed = Gives-bind HasFailed _ _ (λ unprepared.
      Gives-option HasFailed unprepared _ _
        (Gives-some HasFailed _ _ _
          (artifact_output_dirs-IsSome d r cfg (collection_dir d r cfg)
            (map (λ req. req.key) requests))
          (λ dirs.
            Gives-result HasFailed dirs _ _ (λ e. Gives-return HasFailed _ (failed_by _))
              (λ dirs. stopped-HasFailed failed _)))
        (λ e. Gives-return HasFailed _ (failed_by _)))

  unfetched-Leads :
      (requests : List DownloadRequest) (e : GoError)
      → fetch_all r requests ≡ err e
      → Leads NoFiles NoFiles (download_found d r cfg requests)
  unfolding download_found
  unfetched-Leads requests e failed =
      search
        (leads_rules, prepare_directory_output-Leads, artifact_output_dirs-Leads, stopped-Leads)
        depth 14 fits 4000

  -- A failed download is not passed over.
  fetch_all_fails :
      (requests : List DownloadRequest) (req : DownloadRequest) (e : GoError)
      → AnyOf (λ q. q ≡ req) requests
      → r.download req ≡ err e
      → (x : GoError) × (fetch_all r requests ≡ err x)
  unfolding fetch_all
  fetch_all_fails [] req e m failed = absurd m
  fetch_all_fails (q ∷ requests) req e (inl same) failed = (
    wrap (codes "unable to download artifact " ++ q.key) e,
    ground (arith, ap r.download same, failed),
  )
  fetch_all_fails (q ∷ requests) req e (inr m) failed = elim (Result-cases (r.download q)) [
    | inr (x, lost) ↦ (wrap (codes "unable to download artifact " ++ q.key) x, ground (arith, lost))
    | inl (contents, got) ↦
        let (x, later) = fetch_all_fails requests req e m failed in (x, ground (arith, got, later))
  ]

  -- If the download of an artifact fails, the download of all ends with an error, and no file is created
  -- or changed, not even for the artifacts whose download succeeds: what is made are the directories.
  pub download_found_unfetched :
      (requests : List DownloadRequest) (req : DownloadRequest) (e : GoError)
      (h : List ArtifactEvent)
      → AnyOf (λ q. q ≡ req) requests
      → r.download req ≡ err e
      → NoFiles h
      → HasFailed (download_found d r cfg requests h).0
        × NoFiles (download_found d r cfg requests h).1
  download_found_unfetched requests req e h m failed p =
      let (x, lost) = fetch_all_fails requests req e m failed in
      ((unfetched-HasFailed requests x lost).at h, (unfetched-Leads requests x lost).at h p)
