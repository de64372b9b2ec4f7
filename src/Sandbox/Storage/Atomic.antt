-- ===== src/Sandbox/Storage/Atomic.antt =====
-- A save replaces the storage file at once, or leaves it.
use rwx.Prelude.{
  ℕ, Bool, true, false, Option, none, some, List, [], ◌∷◌, ◌++◌, Bytes, ◌≡◌, refl, ap, ◌⊎◌, inl,
  inr,
}
use rwx.Prelude.Dict.{Dict}
use rwx.Prelude.Result.{Result, ok, err}
use rwx.Prelude.Traced.{Traced, ◌>>=◌, ◌>>◌, log, return}
use rwx.Sandbox.Storage.{SandboxSession, SandboxStorage}
use rwx.Sandbox.Storage.Persist.{
  sandbox_storage_version, StoredFile, decoded, load_sandbox_storage, has_changes, has_migration,
}
use rwx.Sandbox.Storage.Saving.{
  SaveStep, storage_path, storage_dir, create_temp, encode, sync, close, rename, remove, temporary,
  SaveEvent, found_path, made_dir, created, removed, files_after, change_files, contents,
  with_contents, appended, found_file, Saved, step_result, do_step, encode_step, write_temp,
  remove_temp, finished, save,
}

step_result-cases :
    {V : Type 0} (P : V × List SaveEvent → Type 0) (b : Bool) (traces : List SaveEvent)
    (done : SaveEvent) (failed rest : Traced SaveEvent V) (h : List SaveEvent)
    → (b ≡ true → P (failed (traces ++ h)))
    → (b ≡ false → P (rest (done ∷ h)))
    → P (step_result b traces done failed rest h)
unfolding step_result
step_result-cases P true traces done failed rest h f g = f refl
step_result-cases P false traces done failed rest h f g = g refl

-- At each moment the storage file is as before, or the new one as a whole.
pub data EveryMoment (before : Option Bytes) (new : Bytes) : List SaveEvent → Type 0 where
  no_moment : EveryMoment before new []
  as_before :
      {e : SaveEvent} {h : List SaveEvent}
      → (files_after before (e ∷ h)).stored_file ≡ before
      → EveryMoment before new h
      → EveryMoment before new (e ∷ h)
  now_new :
      {e : SaveEvent} {h : List SaveEvent}
      → (files_after before (e ∷ h)).stored_file ≡ some new
      → EveryMoment before new h
      → EveryMoment before new (e ∷ h)

module _ (refuses : SaveStep → Bool) (partial : Bytes)
    (encode_json : ℕ → Dict Bytes SandboxSession → Bytes) (s : SandboxStorage)
    (before : Option Bytes) where
  abbrev new_file : Bytes
  new_file = encode_json sandbox_storage_version s.sandboxes

  abbrev Moments : List SaveEvent → Type 0
  Moments = EveryMoment before new_file

  stamped : SandboxStorage
  stamped = record s { version = sandbox_storage_version }

  -- What has been written when the deferred removal starts.
  abbrev Written : Result SaveStep (Unit {0}) × List SaveEvent → Type 0
  Written r =
      Moments r.1
      × ((r.0 ≡ ok tt)
            × ((files_after before r.1).stored_file ≡ some new_file)
            × ((files_after before r.1).temporary_file ≡ none)
          ⊎ (step : SaveStep) × (refuses step ≡ true)
            × (r.0 ≡ err step)
            × ((files_after before r.1).stored_file ≡ before))

  write_temp-Written :
      (h : List SaveEvent)
      → Moments h
      → (files_after before h).stored_file ≡ before
      → (files_after before h).temporary_file ≡ some []
      → Written (write_temp refuses partial encode_json stamped h)
  unfolding write_temp do_step encode_step stamped files_after change_files contents with_contents
      appended log return ◌>>◌
  write_temp-Written h m k t =
      step_result-cases Written (refuses encode) _ _ _ _ h
        (λ r. (as_before k (as_before k m), inr (encode, r, refl, k)))
        (λ _.
          step_result-cases Written (refuses sync) _ _ _ _ _
            (λ r. (as_before k (as_before k m), inr (sync, r, refl, k)))
            (λ _.
              step_result-cases Written (refuses close) _ _ _ _ _
                (λ r. (as_before k (as_before k m), inr (close, r, refl, k)))
                (λ _.
                  step_result-cases Written (refuses rename) _ _ _ _ _
                    (λ r. (as_before k (as_before k (as_before k m)), inr (rename, r, refl, k)))
                    (λ _.
                      let now = ap (λ c. appended c new_file) t in
                      (
                        now_new now (as_before k (as_before k (as_before k m))),
                        inl (refl, now, refl),
                      )))))

  -- How a save has ended, with what `decode` reads in the storage file.
  abbrev pub Ended : (Bytes → StoredFile) → Saved × List SaveEvent → Type 0
  Ended decode r =
      Moments r.1
      × ((r.0.outcome ≡ ok tt)
            × (has_changes r.0.storage ≡ false)
            × (has_migration r.0.storage ≡ false)
            × ((files_after before r.1).temporary_file ≡ none)
            × (load_sandbox_storage true (found_file decode (files_after before r.1).stored_file)
                ≡ ok (record {
                  version = sandbox_storage_version;
                  sandboxes = s.sandboxes;
                  changed = false;
                  migrated = false;
                }))
          ⊎ (step : SaveStep) × (refuses step ≡ true)
            × (r.0.outcome ≡ err step)
            × ((files_after before r.1).stored_file ≡ before)
            × (r.0.storage.sandboxes ≡ s.sandboxes)
            × (has_changes r.0.storage ≡ has_changes s)
            × (has_migration r.0.storage ≡ has_migration s)
            × (((files_after before r.1).temporary_file ≡ none) ⊎ (refuses remove ≡ true)))

  module _ (decode : Bytes → StoredFile)
      (reads : decode new_file ≡ decoded sandbox_storage_version (some s.sandboxes)) where
    loads :
        (f : Option Bytes)
        → f ≡ some new_file
        → load_sandbox_storage true (found_file decode f)
          ≡ ok (record {
            version = sandbox_storage_version;
            sandboxes = s.sandboxes;
            changed = false;
            migrated = false;
          })
    unfolding load_sandbox_storage found_file
    loads f e = rw (e, reads) refl

    removed-Moments : (h : List SaveEvent) → Moments h → Moments (removed temporary ∷ h)
    unfolding files_after change_files with_contents
    removed-Moments [] m = as_before refl m
    removed-Moments (e ∷ h) (as_before k m) = as_before k (as_before k m)
    removed-Moments (e ∷ h) (now_new k m) = now_new k (now_new k m)

    remove_temp-Ended :
        (outcome : Result SaveStep (Unit {0})) (h : List SaveEvent)
        → Written (outcome, h)
        → Ended decode (finished stamped outcome, (remove_temp refuses partial encode_json h).1)
    unfolding remove_temp do_step finished has_changes has_migration stamped files_after
        change_files with_contents return
    remove_temp-Ended (ok tt) h (m, inl (o, k, t)) =
        step_result-cases (λ r. Ended decode (finished stamped (ok tt), r.1)) (refuses remove) _ _ _
          _ h (λ _. (m, inl (refl, refl, refl, t, loads _ k)))
          (λ _. (removed-Moments h m, inl (refl, refl, refl, refl, loads _ k)))
    remove_temp-Ended (ok tt) h (m, inr (step, r, o, k)) = absurd cc
    remove_temp-Ended (err x) h (m, inl (o, k, t)) = absurd cc
    remove_temp-Ended (err x) h (m, inr (step, r, o, k)) =
        step_result-cases (λ r. Ended decode (finished stamped (err x), r.1)) (refuses remove) _ _ _
          _ h (λ e. (m, inr (step, r, ap err cc, k, refl, refl, refl, inr e)))
          (λ _. (removed-Moments h m, inr (step, r, ap err cc, k, refl, refl, refl, inl refl)))

    -- At every moment of a save the storage file is as it was before or the whole new encoding. When
    -- the save succeeds the flags are reset, no temporary file is left, and a load of the file gives
    -- the same sessions, at the current version and with no migration, provided that the decoder reads
    -- in this encoding what was encoded. When it fails, the step that was refused is reported, the
    -- file, the sessions and the flags are as before, and no temporary file is left unless its
    -- removal is refused too.
    pub save_is_atomic : Ended decode (save refuses partial encode_json s [])
    unfolding save do_step finished has_changes has_migration files_after change_files with_contents
        return ◌>>=◌ ◌>>◌ stamped
    save_is_atomic =
        step_result-cases (Ended decode) (refuses storage_path) _ _ _ _ []
          (λ r. (no_moment, inr (storage_path, r, refl, refl, refl, refl, refl, inl refl)))
          (λ _.
            step_result-cases (Ended decode) (refuses storage_dir) _ _ _ _ _
              (λ r. (
                as_before refl no_moment,
                inr (storage_dir, r, refl, refl, refl, refl, refl, inl refl),
              ))
              (λ _.
                step_result-cases (Ended decode) (refuses create_temp) _ _ _ _ _
                  (λ r. (two_before, inr (create_temp, r, refl, refl, refl, refl, refl, inl refl)))
                  (λ _. remove_temp-Ended _ _ (
                    write_temp-Written (created temporary ∷ made_dir ∷ found_path ∷ [])
                      (as_before refl two_before) refl refl))))
      where
        two_before : Moments (made_dir ∷ found_path ∷ [])
        two_before = as_before refl (as_before refl no_moment)
