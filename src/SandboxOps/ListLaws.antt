-- ===== src/SandboxOps/ListLaws.antt =====
-- What `ListSandboxes` reports, and what it leaves stored.
use rwx.Prelude.{
  ℕ, Bool, true, false, Option, none, some, List, [], ◌∷◌, ◌==◌, bytes_eq, bytes_beq, bytes_beq_iff,
  Bytes, codes, Option-cases, AnyOf, if◌then◌else◌, ◌⊎◌, inl, inr, ◌≡◌, refl, ap, ◌∙◌, arith,
}
use rwx.Prelude.Dict.{Dict, get, get-del}
use rwx.Prelude.FilePath.{is_abs}
use rwx.Prelude.Result.{ok, err, Result-cases}
use rwx.Prelude.Traced.{◌>>=◌, ◌>>◌, return, log, on_error, on_result}
use rwx.Sandbox.Key.{relative_config, session_key}
use rwx.Errors.{GoError}
use rwx.Sandbox.Storage.{SandboxSession, SandboxStorage, get_session}
use rwx.SandboxOps.World.{
  RunSummary, locked, panics, attempt_lock, lock_sandbox_storage_with_info, load_sessions,
  list_sandbox_runs, recorded, warned, Past, Outside, after_save, save_sessions,
}
use rwx.SandboxOps.Stop.{delete_key, pass_panic}
use rwx.SandboxOps.Listing.{
  Walked, info_of, is_active, add_walked, walk_sessions, prune, or_pruned, save_if_changed,
  list_merged, list_loaded, list_sandboxes, merge_run, merge_runs,
}
use rwx.SandboxOps.StopLaws.{Saves, stores, warns, has_key, entry, drop_either}

-- A run whose CLI state has a config file that is not absolute here.
pub data IsForeign (run : RunSummary) : Type 0 where
  is_foreign :
      (branch : Bytes) (c : ℕ) (config_file : Bytes)
      → run.cli_state ≡ some (branch, c ∷ config_file)
      → is_abs (c ∷ config_file) ≡ false
      → IsForeign run

module _ (o : Outside) where
  -- A session of the walk is reported, or expired.
  abbrev Found : Walked → Bytes → SandboxSession → Type 0
  Found walked key session =
      AnyOf (λ i. i ≡ info_of key session) walked.active ⊎ (has_key key walked.expired ≡ true)

  Found-add_walked :
      (b : Bool) (k : Bytes) (s : SandboxSession) (later : Walked) (key : Bytes)
      (session : SandboxSession)
      → (entry k s ≡ entry key session) ⊎ Found later key session
      → Found (add_walked b k s later) key session
  unfolding add_walked info_of
  Found-add_walked true k s later key session (inl e) = inl (inl (ap (λ p. info_of p.0 p.1) e))
  Found-add_walked true k s later key session (inr (inl m)) = inl (inr m)
  Found-add_walked true k s later key session (inr (inr m)) = inr m
  Found-add_walked false k s later key session (inl e) =
      inr (ground (arith, (bytes_beq_iff k key).1 (ap (λ p. p.0) e)))
  Found-add_walked false k s later key session (inr (inl m)) = inl m
  Found-add_walked false k s later key session (inr (inr m)) = inr (ground (arith, m))

  walk_sessions-Found :
      (runs : List RunSummary) (d : Dict Bytes SandboxSession) (h : Past) (key : Bytes)
      (session : SandboxSession)
      → AnyOf (λ e. e ≡ entry key session) d
      → Found (walk_sessions o runs d h).0 key session
  unfolding walk_sessions ◌>>=◌ return
  walk_sessions-Found runs [] h key session m = absurd m
  walk_sessions-Found runs ((k, s) ∷ d) h key session m =
      Found-add_walked (is_active o runs s h).0 k s _ key session (elim m [
        | inl e ↦ inl e
        | inr n ↦ inr (walk_sessions-Found runs d (is_active o runs s h).1 key session n)
      ])

  prune-get :
      (s : SandboxStorage) (expired : List (Bytes × Bytes)) (h : Past) (key : Bytes)
      → get (prune o s expired h).0.sandboxes key
        ≡ (if has_key key expired then none else get s.sandboxes key)
  unfolding prune ◌>>◌ return delete_key
  prune-get s [] h key = refl
  prune-get s ((k, run_id) ∷ expired) h key =
      prune-get (delete_key s k) expired _ key
      ∙ ap (λ g. if has_key key expired then none else g) (get-del s.sandboxes k key)
      ∙ drop_either (k == key) (has_key key expired) (get s.sandboxes key)

  note-Saves :
      (t : SandboxStorage) (text : GoError → Bytes) (past : Past) (failed : Option GoError)
      → o.save past t ≡ failed
      → Saves o t
          ((after_save failed t >>= λ failed.
              on_error failed (λ e. log (warned (text e))) (return tt))
            past).1
  unfolding after_save ◌>>=◌ on_error log return
  note-Saves t text past none e = stores e
  note-Saves t text past (some x) e = warns x (text x) e

  save_if_changed-Saves : (t : SandboxStorage) (h : Past) → Saves o t (save_if_changed o t true h).1
  unfolding save_if_changed ◌>>=◌ save_sessions
  save_if_changed-Saves t h = note-Saves t _ h (o.save h t) refl

  or_pruned-has_key :
      (expired : List (Bytes × Bytes)) (changed : Bool) (key : Bytes)
      → has_key key expired ≡ true
      → or_pruned expired changed ≡ true
  unfolding or_pruned
  or_pruned-has_key [] changed key h = ground arith
  or_pruned-has_key (e ∷ expired) changed key h = refl

  -- `ListSandboxes` reports every session, the ones merged from the server's list too, as active; or it
  -- tries to save the sessions without it before it records its event: these are stored then, or the
  -- save is refused, the file stays as it was, and a warning is printed.
  pub list_merged-reported :
      (runs : List RunSummary) (s : SandboxStorage) (changed : Bool) (h : Past) (key : Bytes)
      (session : SandboxSession)
      → AnyOf (λ e. e ≡ entry key session) s.sandboxes
      → AnyOf (λ i. i ≡ info_of key session) (list_merged o runs (s, changed) h).0
        ⊎ ((t : SandboxStorage) × (past : Past) × Saves o t past
            × (get t.sandboxes key ≡ none)
            × ((list_merged o runs (s, changed) h).1 ≡ recorded (codes "sandbox.list") ∷ past))
  unfolding list_merged ◌>>=◌ ◌>>◌ log return
  list_merged-reported runs s changed h key session m =
      let walked = walk_sessions o runs s.sandboxes h in
      elim (walk_sessions-Found runs s.sandboxes h key session m) [
        | inl shown ↦ inl shown
        | inr gone ↦
            let pruned = prune o s walked.0.expired walked.1 in
            let flag = or_pruned-has_key walked.0.expired changed key gone in
            inr (
              pruned.0,
              (save_if_changed o pruned.0 true pruned.1).1,
              save_if_changed-Saves pruned.0 pruned.1,
              prune-get s walked.0.expired walked.1 key
                  ∙ ap (λ b. if b then none else get s.sandboxes key) gone,
              ap (λ b. recorded (codes "sandbox.list") ∷ (save_if_changed o pruned.0 b pruned.1).1)
                  flag,
            )
      ]

  merge_run-foreign :
      (merged : SandboxStorage × Bool) (run : RunSummary)
      → IsForeign run
      → merge_run merged run ≡ err relative_config
  unfolding merge_run get_session session_key bytes_beq
  merge_run-foreign (s, changed) run (is_foreign branch c config_file e a) = ground (arith, e, a)

  merge_runs-foreign :
      (runs : List RunSummary) (merged : SandboxStorage × Bool)
      → AnyOf IsForeign runs
      → merge_runs merged runs ≡ err relative_config
  unfolding merge_runs
  merge_runs-foreign [] merged m = absurd m
  merge_runs-foreign (run ∷ runs) merged (inl f) = ground (arith, merge_run-foreign merged run f)
  merge_runs-foreign (run ∷ runs) merged (inr m) = elim (Result-cases (merge_run merged run)) [
    | inl (next, e) ↦ ground (arith, e, merge_runs-foreign runs next m)
    | inr (relative_config, e) ↦ ground (arith, e)
  ]

  listed_foreign :
      (h : Past) (s : SandboxStorage) (runs : List RunSummary)
      → lock_sandbox_storage_with_info o h ≡ (none, locked ∷ h)
      → o.load (locked ∷ h) ≡ ok s
      → o.runs (locked ∷ h) ≡ ok runs
      → AnyOf IsForeign runs
      → (list_sandboxes o h).0 ≡ err (panics relative_config)
  unfolding list_sandboxes list_loaded ◌>>=◌ ◌>>◌ return on_error on_result load_sessions
      list_sandbox_runs pass_panic
  listed_foreign h s runs l k r f = simp (l, k, r, merge_runs-foreign runs (s, false) f)

  -- However the lock is had and wherever it stands in the server's list, one run whose CLI state has a
  -- config file that is not absolute here, such as one of another operating system, ends the whole
  -- listing in a panic, if the sessions load and the server answers.
  pub list_sandboxes-foreign :
      (h : Past) (s : SandboxStorage) (runs : List RunSummary)
      → (lock_sandbox_storage_with_info o h).0 ≡ none
      → o.load (locked ∷ h) ≡ ok s
      → o.runs (locked ∷ h) ≡ ok runs
      → AnyOf IsForeign runs
      → (list_sandboxes o h).0 ≡ err (panics relative_config)
  unfolding lock_sandbox_storage_with_info attempt_lock
  list_sandboxes-foreign h s runs l k r f = elim (Option-cases (o.try_lock h)) [
    | inl got ↦ listed_foreign h s runs (ground (arith, got)) k r f
    | inr (contended, e) ↦ elim (Option-cases (o.lock h)) [
      | inl waited ↦ listed_foreign h s runs (ground (arith, e, waited)) k r f
      | inr (x, refused) ↦ ground (arith, l, e, refused)
    ]
  ]
