-- ===== src/Sandbox/Storage/Ancestry.antt =====
-- internal/cli/sandbox_storage.go: sessions of a detached HEAD, found by ancestry and stored again
-- under the current key. `is_ancestor` is the `IsAncestor` of the version control client.
use rwx.Prelude.{
  Bool, true, ◌&&◌, ◌||◌, not, Option, none, some, List, [], ◌∷◌, ◌==◌, Bytes, bytes_eq, bytes_beq,
  codes, if◌then◌else◌,
}
use rwx.Prelude.Dict.{Dict, put, del}
use rwx.Prelude.Result.{Result, ok, ◌>>=◌}
use rwx.Sandbox.Key.{Panic, session_key, parse_session_key, is_detached_branch, detached_short_sha}
use rwx.Sandbox.Storage.{SandboxSession, SandboxStorage}

module _ (is_ancestor : Bytes → Bytes → Bool) where
  -- the tests of both loops on a stored branch
  unfoldable pub is_ancestral : Bytes → Bool
  unfolding bytes_beq
  is_ancestral stored_branch =
      is_detached_branch stored_branch
      && not (detached_short_sha stored_branch == [])
      && is_ancestor (detached_short_sha stored_branch) (codes "HEAD")

  unfoldable pub find_ancestral :
      Bytes → Dict Bytes SandboxSession → Option (Bytes × SandboxSession)
  unfolding is_ancestral
  find_ancestral config_file [] = none
  find_ancestral config_file ((key, session) ∷ rest) =
      let (stored_branch, stored_config) = parse_session_key key in
      if stored_config == config_file && is_ancestral stored_branch
      then some (key, session)
      else find_ancestral config_file rest

  -- `delete(s.Sandboxes, key)`, then the session under its new key
  unfoldable pub rekey : SandboxStorage → Bytes → Bytes → SandboxSession → SandboxStorage
  rekey s old_key new_key session = record s {
    sandboxes = put (del s.sandboxes old_key) new_key session;
    changed = true;
  }

  unfoldable pub get_session_by_ancestry :
      SandboxStorage → Bytes → Bytes → Result Panic (SandboxStorage × Option SandboxSession)
  unfolding bytes_beq find_ancestral rekey
  get_session_by_ancestry s branch config_file =
      if not (is_detached_branch branch) || detached_short_sha branch == []
      then ok (s, none)
      else elim (find_ancestral config_file s.sandboxes) [
        | none ↦ ok (s, none)
        | some (key, session) ↦ do
          new_key ← session_key branch config_file
          ok (rekey s key new_key session, some session)
      ]

  -- the entries that the second function moves: old key, config file, session
  unfoldable pub to_rekey : Dict Bytes SandboxSession → List (Bytes × Bytes × SandboxSession)
  unfolding is_ancestral
  to_rekey [] = []
  to_rekey ((key, session) ∷ rest) =
      let (stored_branch, stored_config) = parse_session_key key in
      let later = to_rekey rest in
      if is_ancestral stored_branch then (key, stored_config, session) ∷ later else later

  unfoldable pub rekey_all :
      SandboxStorage
      → Bytes
      → List (Bytes × Bytes × SandboxSession)
      → Result Panic (SandboxStorage × List SandboxSession)
  unfolding rekey
  rekey_all s branch [] = ok (s, [])
  rekey_all s branch ((old_key, config, session) ∷ rest) = do
    new_key ← session_key branch config
    later ← rekey_all (rekey s old_key new_key session) branch rest
    ok (later.0, session ∷ later.1)

  unfoldable pub get_sessions_for_branch_by_ancestry :
      SandboxStorage → Bytes → Result Panic (SandboxStorage × List SandboxSession)
  unfolding bytes_beq to_rekey rekey_all
  get_sessions_for_branch_by_ancestry s branch =
      if not (is_detached_branch branch) || detached_short_sha branch == []
      then ok (s, [])
      else rekey_all s branch (to_rekey s.sandboxes)
