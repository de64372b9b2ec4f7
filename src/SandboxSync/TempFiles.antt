-- ===== src/SandboxSync/TempFiles.antt =====
-- The files with the key of the sandbox and its host key.
use rwx.Prelude.{
  Bool, true, Option, none, some, List, [], ◌∷◌, ◌++◌, ◌==◌, bytes_eq, bytes_beq, bytes_beq_iff,
  Bytes, all, any, all-append, any-append, beq_refl, if◌then◌else◌, append_assoc, append-nil,
  Option-cases, inl, inr, ◌≡◌, refl, ap, ◌∙◌, subst, arith,
}
use rwx.Prelude.Result.{Result-cases}
use rwx.Prelude.Traced.{◌>>=◌, ◌>>◌, return, on_error, on_result, log}
use rwx.SandboxSync.Session.{
  PushRefOptions, create_temp, remove, History, World, send, run, execute_command, sync_start,
}
use rwx.SandboxSync.Push.{
  SandboxConnectionInfo, create_file, close_file, write, temp_file, known_hosts_line, push,
  push_marked, sandbox_has_commit, sandbox_git_push_options, remove_all, push_local_head_to_sandbox,
}

abbrev drop_name : Bytes → List Bytes → List Bytes
drop_name path [] = []
drop_name path (p ∷ ps) = let rest = drop_name path ps in if p == path then rest else p ∷ rest

-- The temporary files created and not removed since.
unfoldable pub leftover : History → List Bytes
unfolding bytes_beq
leftover [] = []
leftover (create_temp path ∷ h) = path ∷ leftover h
leftover (remove path ∷ h) = drop_name path (leftover h)
leftover (_ ∷ h) = leftover h

-- every name in a part of a list is in the list
is_among : List Bytes → Bytes → Bool
is_among paths p = any (λ q. q == p) paths

covered_self : (before l after : List Bytes) → all (is_among (before ++ (l ++ after))) l ≡ true
unfolding is_among
covered_self before [] after = refl
covered_self before (x ∷ l) after = ground (
  arith,
  any-append (λ q. q == x) before (x ∷ (l ++ after)),
  beq_refl x,
  subst (λ paths. all (is_among paths) l ≡ true) (append_assoc before (x ∷ []) (l ++ after))
      (covered_self (before ++ (x ∷ [])) l after),
)

covered_by_self : (l : List Bytes) → all (is_among l) l ≡ true
covered_by_self l =
    subst (λ paths. all (is_among paths) l ≡ true) (append-nil l) (covered_self [] l [])

covered_by_both : (a b : List Bytes) → all (is_among (a ++ b)) (b ++ a) ≡ true
covered_by_both a b =
    all-append (is_among (a ++ b)) b a
      (subst (λ l. all (is_among (a ++ l)) b ≡ true) (append-nil b) (covered_self a b []))
      (covered_self [] a b)

module _ (w : World) where
  leftover-temp_file :
      (contents : Bytes) (h : History)
      → leftover (temp_file w contents h).1 ≡ (temp_file w contents h).0.1 ++ leftover h
  unfolding temp_file create_file close_file write ◌>>=◌ on_result on_error return leftover
  leftover-temp_file contents h = elim (Result-cases (w.create_temp h)) [
    | inr (f, e) ↦ ground (arith, e)
    | inl (path, e) ↦
        let created : History = create_temp path ∷ h in
        elim (Option-cases (w.close_temp created)) [
          | inr (f, closed) ↦ ground (arith, e, closed)
          | inl closed ↦ elim (Option-cases (w.write_file created)) [
            | inr (f, written) ↦ ground (arith, e, closed, written)
            | inl written ↦ ground (arith, e, closed, written)
          ]
        ]
  ]

  leftover-push_marked :
      (head : Bytes) (o : PushRefOptions) (h : History)
      → leftover (push_marked w head o h).1 ≡ leftover h
  unfolding push_marked sandbox_has_commit push ◌>>=◌ ◌>>◌ on_error return run send leftover
  leftover-push_marked head o h = elim (Option-cases (w.push (execute_command sync_start ∷ h) o)) [
    | inl e ↦ simp e
    | inr (f, e) ↦ simp e
  ]

  leftover-sandbox_git_push_options :
      (head : Bytes) (conn : SandboxConnectionInfo) (h : History)
      → leftover h ≡ []
      → all
          (is_among (sandbox_git_push_options w head conn h).0.1)
          (leftover (sandbox_git_push_options w head conn h).1)
        ≡ true
  unfolding sandbox_git_push_options ◌>>=◌ on_result return
  leftover-sandbox_git_push_options head conn h none_left =
      let key = temp_file w conn.private_user_key h in
      let hosts = temp_file w (known_hosts_line w conn) key.1 in
      let from_key : leftover key.1 ≡ key.0.1 =
        leftover-temp_file conn.private_user_key h
        ∙ ap (λ l. key.0.1 ++ l) none_left
        ∙ append-nil key.0.1 in
      let from_hosts : leftover hosts.1 ≡ hosts.0.1 ++ key.0.1 =
        leftover-temp_file (known_hosts_line w conn) key.1 ∙ ap (λ l. hosts.0.1 ++ l) from_key in
      elim (Result-cases (w.split_host_port conn.address)) [
        | inr (f, e) ↦ simp (e, none_left)
        | inl (at, e) ↦ elim (Result-cases key.0.0) [
          | inr (f, k) ↦ simp (e, k, from_key, covered_by_self key.0.1)
          | inl (path, k) ↦ simp (e, k, from_hosts, covered_by_both key.0.1 hosts.0.1)
        ]
      ]

-- The names that none of the paths is.
abbrev drop_names : List Bytes → List Bytes → List Bytes
drop_names [] l = l
drop_names (path ∷ paths) l = drop_names paths (drop_name path l)

leftover-remove_all :
    (paths : List Bytes) (h : History)
    → leftover (remove_all paths h).1 ≡ drop_names paths (leftover h)
unfolding remove_all return ◌>>◌ log leftover
leftover-remove_all [] h = refl
leftover-remove_all (path ∷ paths) h = leftover-remove_all paths (remove path ∷ h)

drop_names-none : (paths : List Bytes) → drop_names paths [] ≡ []
drop_names-none [] = refl
drop_names-none (path ∷ paths) = drop_names-none paths

-- a name is dropped if it is among the paths, and the others are not touched by it
drop_name-covered :
    (path : Bytes) (paths l : List Bytes)
    → all (is_among (path ∷ paths)) l ≡ true
    → all (is_among paths) (drop_name path l) ≡ true
unfolding is_among
drop_name-covered path paths [] h = refl
drop_name-covered path paths (x ∷ l) h =
    ground (arith, drop_name-covered path paths l, bytes_beq_iff x path, bytes_beq_iff path x)

drop_names-covered :
    (paths l : List Bytes) → all (is_among paths) l ≡ true → drop_names paths l ≡ []
unfolding is_among
drop_names-covered [] [] h = refl
drop_names-covered [] (x ∷ l) h = ground arith
drop_names-covered (path ∷ paths) l h =
    drop_names-covered paths (drop_name path l) (drop_name-covered path paths l h)

-- After a push of commits that is given no file to clean up, no temporary file is left, whatever fails: the
-- private key and the host key are removed on every path.
pub push_local_head_to_sandbox-leftover :
    (w : World) (head : Bytes) (conn : Option SandboxConnectionInfo) (h : History)
    → leftover h ≡ []
    → leftover (push_local_head_to_sandbox w head conn h).1 ≡ []
unfolding push_local_head_to_sandbox ◌>>=◌ ◌>>◌ on_result return
push_local_head_to_sandbox-leftover w head none h e = e
push_local_head_to_sandbox-leftover w head (some conn) h e =
    let options = sandbox_git_push_options w head conn h in
    let paths = options.0.1 in
    let gone : drop_names paths (leftover options.1) ≡ [] =
      drop_names-covered paths (leftover options.1)
        (leftover-sandbox_git_push_options w head conn h e) in
    elim (Result-cases options.0.0) [
      | inr (f, failed) ↦ simp (failed, leftover-remove_all paths options.1, gone)
      | inl (o, made) ↦ simp (
        made,
        leftover-remove_all paths (push_marked w head o options.1).1,
        leftover-push_marked w head o options.1,
        gone,
      )
    ]
