-- ===== src/Artifacts/DownloadTests.antt =====
-- The downloads of artifacts on a concrete server and disk.
use rwx.Prelude.{
  ℕ, ◌+◌, ◌≤◌, true, false, none, some, List, [], ◌∷◌, ◌==◌, bytes_eq, bytes_beq, codes,
  if◌then◌else◌, inl, inr, ◌≡◌, refl, arith,
}
use rwx.Prelude.Result.{ok, err}
use rwx.Errors.{new_error}
use rwx.Artifacts.Extract.{
  ArtifactEvent, make_directory, create_file, copy_contents, write_whole, change_mode, asked, slept,
  opened, recorded, Disk, missing, regular,
}
use rwx.Artifacts.Ready.{DownloadRequest, Answer, Remote}
use rwx.Artifacts.Download.{DownloadConfig}
use rwx.Artifacts.DownloadAll.{download_found, download_all_artifacts}
use rwx.Artifacts.DownloadOne.{download_one_artifact}
use rwx.Artifacts.Finish.{IsSome, downloads-IsSome}
use rwx.Artifacts.Failing.{NoFiles, HasFailed, download_found_unfetched}

abbrev a_disk : Disk
a_disk = record { answer = λ h e. none; stat = λ h path. missing }

-- The time slept.
elapsed : List ArtifactEvent → ℕ
elapsed [] = 0
elapsed (slept ms ∷ h) = elapsed h + ms
elapsed (_ ∷ h) = elapsed h

abbrev log_file : DownloadRequest
log_file = record {
  key = codes "log";
  kind = codes "file";
  filename = codes "log.tar";
  size_in_bytes = 10;
}

abbrev lost_file : DownloadRequest
lost_file = record {
  key = codes "lost";
  kind = codes "file";
  filename = codes "lost.tar";
  size_in_bytes = 20;
}

-- Artifacts that are never ready.
abbrev waiting_for : {A : Type 0} → A → Answer A
waiting_for a = ok (some (record { completed = false; backoff_ms = some 0 }), a)

abbrev a_remote : Remote
unfolding bytes_beq
a_remote = record {
  one_by_task_key = λ h run_id task_key key. waiting_for log_file;
  one_by_task_id = λ h task_id key. waiting_for log_file;
  all_by_task_key = λ h run_id task_key. waiting_for (log_file ∷ []);
  all_by_task_id = λ h task_id. waiting_for (log_file ∷ []);
  clock = elapsed;
  download =
      λ req. if req.key == codes "lost" then err (new_error (codes "gone")) else ok (codes "tar");
  read_tar = λ contents.
      ok (record { name = codes "log.txt"; kind = regular; mode = 420; contents = contents }) ∷ [];
}

abbrev a_config : DownloadConfig
a_config = record {
  task_id = codes "task-1";
  run_id = [];
  task_key = [];
  output = codes "/out";
  output_explicitly_set = true;
  auto_extract = false;
  open_files = false;
}

elapsed-monotone : (h : List ArtifactEvent) (e : ArtifactEvent) → elapsed h ≤ elapsed (e ∷ h)
unfolding elapsed
elapsed-monotone h (make_directory path) = omega arith
elapsed-monotone h (create_file path) = omega arith
elapsed-monotone h (copy_contents path contents) = omega arith
elapsed-monotone h (write_whole path contents mode) = omega arith
elapsed-monotone h (change_mode path mode) = omega arith
elapsed-monotone h asked = omega arith
elapsed-monotone h (slept ms) = omega arith
elapsed-monotone h (opened path) = omega arith
elapsed-monotone h (recorded count bytes) = omega arith

elapsed-slept : (h : List ArtifactEvent) (ms : ℕ) → elapsed h + ms ≤ elapsed (slept ms ∷ h)
unfolding elapsed
elapsed-slept h ms = omega arith

downloads-IsSome_example :
    IsSome (download_all_artifacts a_disk a_remote a_config []).0
    × IsSome (download_one_artifact a_disk a_remote a_config (codes "log") []).0
unfolding a_remote elapsed
downloads-IsSome_example =
    downloads-IsSome a_disk a_remote a_config (codes "log") []
      (record { monotone = elapsed-monotone; sleeps = elapsed-slept })

lost : a_remote.download lost_file ≡ err (new_error (codes "gone"))
unfolding a_remote bytes_beq
lost = refl

download_found_unfetched_example :
    HasFailed (download_found a_disk a_remote a_config (log_file ∷ lost_file ∷ []) []).0
    × NoFiles (download_found a_disk a_remote a_config (log_file ∷ lost_file ∷ []) []).1
download_found_unfetched_example =
    download_found_unfetched a_disk a_remote a_config (log_file ∷ lost_file ∷ []) lost_file
      (new_error (codes "gone")) [] (inr (inl refl)) lost (record { none_is = refl })
