-- ===== src/Sandbox/Storage/Changes.antt =====
-- The operations as steps, and what `HasChanges` and the map's keys say after any of them.
use rwx.Prelude.{
  Bool, true, false, Option, List, [], ◌∷◌, Bytes, bytes_eq, ◌≡◌, refl, ◌⊎◌, inl, inr, arith, subst,
}
use rwx.Prelude.Result.{ok, >>=-eq-ok}
use rwx.Sandbox.Key.{session_key}
use rwx.Sandbox.Storage.Persist.{has_changes}
use rwx.Sandbox.Storage.{
  SandboxSession, SandboxStorage, set_session, set_at, delete_session, delete_at,
  delete_session_by_run_id,
}
use rwx.Sandbox.Storage.Ancestry.{
  get_session_by_ancestry, get_sessions_for_branch_by_ancestry, rekey, rekey_all, to_rekey,
}

-- One operation of a running command; `set_session` and the like may panic, which ends the program.
pub data Step : SandboxStorage → SandboxStorage → Type 0 where
  set :
      {s t : SandboxStorage} (branch config : Bytes) (x : SandboxSession)
      → set_session s branch config x ≡ ok t
      → Step s t
  delete :
      {s t : SandboxStorage} (branch config : Bytes)
      → delete_session s branch config ≡ ok t
      → Step s t
  delete_run : {s : SandboxStorage} (run_id : Bytes) → Step s (delete_session_by_run_id s run_id).0
  by_ancestry :
      {s t : SandboxStorage} (is_ancestor : Bytes → Bytes → Bool) (branch config : Bytes)
      (found : Option SandboxSession)
      → get_session_by_ancestry is_ancestor s branch config ≡ ok (t, found)
      → Step s t
  branch_by_ancestry :
      {s t : SandboxStorage} (is_ancestor : Bytes → Bytes → Bool) (branch : Bytes)
      (found : List SandboxSession)
      → get_sessions_for_branch_by_ancestry is_ancestor s branch ≡ ok (t, found)
      → Step s t

pub data Reach (s : SandboxStorage) : SandboxStorage → Type 0 where
  here : Reach s s
  next : {t u : SandboxStorage} → Reach s t → Step t u → Reach s u

abbrev Kept : SandboxStorage → SandboxStorage → Type 0
Kept s t = (t ≡ s) ⊎ (t.changed ≡ true)

set_at-Kept : (s : SandboxStorage) (k : Bytes) (x : SandboxSession) → Kept s (set_at s k x)
unfolding set_at
set_at-Kept s k x = ground arith

delete_at-Kept : (s : SandboxStorage) (k : Bytes) → Kept s (delete_at s k)
unfolding delete_at
delete_at-Kept s k = ground arith

module _ (is_ancestor : Bytes → Bytes → Bool) where
  -- A property of the storage that each re-keying keeps.
  rekey_all_induction :
      (P : SandboxStorage → Type 0)
      → ((s : SandboxStorage) (old_key new_key : Bytes) (x : SandboxSession)
          → P s
          → P (rekey is_ancestor s old_key new_key x))
      → (s : SandboxStorage) (branch : Bytes) (l : List (Bytes × Bytes × SandboxSession))
        (r : SandboxStorage × List SandboxSession)
      → P s
      → rekey_all is_ancestor s branch l ≡ ok r
      → P r.0
  unfolding rekey_all
  rekey_all_induction P keep s branch [] r h e = subst P (cc) h
  rekey_all_induction P keep s branch ((old_key, config, x) ∷ l) r h e =
      let (k, ek, e') = >>=-eq-ok (session_key branch config) _ e in
      let s' = rekey is_ancestor s old_key k x in
      let (later, el, eq) = >>=-eq-ok (rekey_all is_ancestor s' branch l) _ e' in
      subst P (ground arith)
        (rekey_all_induction P keep s' branch l later (keep s old_key k x h) el)

  rekey_all-Kept :
      (s : SandboxStorage) (branch : Bytes) (l : List (Bytes × Bytes × SandboxSession))
      (r : SandboxStorage × List SandboxSession)
      → rekey_all is_ancestor s branch l ≡ ok r
      → Kept s r.0
  rekey_all-Kept s branch l = λ r e.
      rekey_all_induction (Kept s) (λ t k j x h. inr (unfold rekey in refl)) s branch l r (inl refl)
        e

Step-Kept : {s t : SandboxStorage} → Step s t → Kept s t
unfolding set_session delete_session
Step-Kept (set {s} branch config x e) =
    let (k, ek, e') = >>=-eq-ok (session_key branch config) _ e in ground (arith, set_at-Kept s k x)
Step-Kept (delete {s} branch config e) =
    let (k, ek, e') = >>=-eq-ok (session_key branch config) _ e in
    ground (arith, delete_at-Kept s k)
Step-Kept (delete_run {s} run_id) = unfold delete_session_by_run_id in ground arith
Step-Kept (by_ancestry {s} is_ancestor branch config found e) =
    unfold get_session_by_ancestry in ground arith
Step-Kept (branch_by_ancestry {s} {t} is_ancestor branch found e) =
    unfold get_sessions_for_branch_by_ancestry in
    ground
      (arith, rekey_all-Kept is_ancestor s branch (to_rekey is_ancestor s.sandboxes) (t, found))

Reach-Kept : {s t : SandboxStorage} → Reach s t → Kept s t
Reach-Kept here = inl refl
Reach-Kept (next r st) = ground (arith, Reach-Kept r, Step-Kept st)

-- After any operations, a storage that reports no changes is the one that they began with: a save
-- that is skipped because `HasChanges` is false loses nothing.
pub Reach-unchanged : {s t : SandboxStorage} → Reach s t → has_changes t ≡ false → t ≡ s
unfolding has_changes
Reach-unchanged r h = ground (arith, Reach-Kept r)
