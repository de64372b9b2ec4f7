-- ===== src/Sandbox/Tests.antt =====
-- The theorems about stored sessions at concrete storages, and tests of the key functions.
use rwx.Prelude.{
  ℕ, Option, ◌==◌, ◌++◌, if◌then◌else◌, Bool, true, false, none, some, [], ◌∷◌, ◌≡◌, refl, Bytes,
  bytes_eq, bytes_beq, bytes_beq_iff, codes, contains, has_byte, has_prefix, index, last_index,
}
use rwx.Prelude.Traced.{◌>>=◌, ◌>>◌, log, return}
use rwx.Prelude.Dict.{Dict, get, put, del}
use rwx.Prelude.FilePath.{is_abs, join}
use rwx.Prelude.Result.{ok, err}
use rwx.Sandbox.Key.{
  or_detached, session_key, parse_session_key, migrate_session_key, is_yaml, is_detached_branch,
  detached_short_sha, get_current_branch, abs_config_file,
}
use rwx.Sandbox.Key.RoundTrip.{parse_session_key-session_key}
use rwx.Sandbox.Key.Migration.{migrate_session_key_legacy, resolved, legacy_key}
use rwx.Sandbox.Storage.{SandboxSession, SandboxStorage, get_session, set_session, delete_session}
use rwx.Sandbox.Storage.Ancestry.{
  get_session_by_ancestry, get_sessions_for_branch_by_ancestry, is_ancestral,
}
use rwx.Sandbox.Storage.Frame.{get_session-set_session}
use rwx.Sandbox.Storage.Changes.{here, next, set, Reach-unchanged}
use rwx.Sandbox.Storage.Rekey.{
  Moved, get_session_by_ancestry-some, get_sessions_for_branch_by_ancestry_collision,
}
use rwx.Sandbox.Storage.Persist.{
  migrate_entries, migrate_old_session_keys, StoredFile, malformed, decoded, load_sandbox_storage,
  has_changes,
}
use rwx.Sandbox.Storage.Saving.{
  SaveStep, sync, save, do_step, step_result, write_temp, encode_step, remove_temp, finished,
}
use rwx.Sandbox.Storage.Atomic.{Ended, save_is_atomic}
use rwx.Sandbox.Storage.SaveLoad.{load_sandbox_storage-migrated}

abbrev main_branch : Bytes
main_branch = codes "main"

abbrev config : Bytes
config = codes "/repo/ci.yml"

abbrev session_of : Bytes → SandboxSession
session_of run = record {
  run_id = run;
  config_file = config;
  scoped_token = [];
  run_url = [];
  config_hash = [];
  created_at = none;
  last_exec_at = some 5;
  exec_count = 1;
  reset_nag_shown = false;
}

abbrev first_session : SandboxSession
first_session = session_of (codes "run-1")

abbrev second_session : SandboxSession
second_session = session_of (codes "run-2")

abbrev storage_of : Bytes → SandboxSession → SandboxStorage
storage_of key x = record {
  version = 1;
  sandboxes = (key, x) ∷ [];
  changed = false;
  migrated = false;
}

abbrev one_stored : SandboxStorage
one_stored = storage_of (codes "main:/repo/ci.yml") first_session

branches :
    (get_current_branch [] (codes "abc") ≡ codes "detached@abc")
    × (detached_short_sha (codes "detached@abc") ≡ codes "abc")
unfolding get_current_branch detached_short_sha
branches = (refl, refl)

config_files : abs_config_file (some (codes "/repo")) (codes "ci.yml") ≡ config
unfolding abs_config_file join
config_files = refl

parse_session_key-session_key_example :
    parse_session_key (codes "main:/repo/ci.yml") ≡ (or_detached main_branch, config)
unfolding contains has_prefix session_key bytes_beq is_abs
parse_session_key-session_key_example = parse_session_key-session_key main_branch config refl refl

migrate_session_key_legacy_example :
    (key : Bytes) × (migrate_session_key (legacy_key (codes "/repo") main_branch (codes "ci.yml"))
      ≡ ok key)
    × (parse_session_key key ≡ (or_detached main_branch, resolved (codes "/repo") (codes "ci.yml")))
    × (is_abs main_branch ≡ false → migrate_session_key key ≡ ok key)
unfolding is_abs is_yaml has_byte
migrate_session_key_legacy_example =
    migrate_session_key_legacy (codes "/repo") main_branch (codes "ci.yml") refl refl refl refl

abbrev rewritten : SandboxStorage
rewritten = record one_stored {
  sandboxes = (codes "main:/repo/ci.yml", second_session) ∷ [];
  changed = true;
}

set_runs : set_session one_stored main_branch config second_session ≡ ok rewritten
unfolding set_session session_key is_abs get put bytes_beq
set_runs = refl

get_session-set_session_example :
    get_session rewritten (codes "dev") config ≡ get_session one_stored (codes "dev") config
unfolding contains has_prefix bytes_beq
get_session-set_session_example =
    get_session-set_session one_stored rewritten main_branch config (codes "dev") config
      second_session refl refl set_runs

abbrev emptied : SandboxStorage
emptied = record one_stored { sandboxes = []; changed = true }

delete_runs : delete_session one_stored main_branch config ≡ ok emptied
unfolding delete_session session_key is_abs get del bytes_beq
delete_runs = refl

same_set : set_session one_stored main_branch config first_session ≡ ok one_stored
unfolding set_session session_key is_abs get put bytes_beq
same_set = refl

Reach-unchanged_example : one_stored ≡ one_stored
unfolding has_changes
Reach-unchanged_example =
    Reach-unchanged (next here (set main_branch config first_session same_set)) refl

-- Every commit counts as an ancestor of HEAD.
abbrev all_ancestors : Bytes → Bytes → Bool
all_ancestors sha head = true

abbrev detached_now : Bytes
detached_now = codes "detached@bbb"

abbrev detached_stored : SandboxStorage
detached_stored = storage_of (codes "detached@aaa:/repo/ci.yml") first_session

abbrev moved_now : SandboxStorage
moved_now = record detached_stored {
  sandboxes = (codes "detached@bbb:/repo/ci.yml", first_session) ∷ [];
  changed = true;
}

ancestry_runs :
    get_session_by_ancestry all_ancestors detached_stored detached_now config
    ≡ ok (moved_now, some first_session)
unfolding get_session_by_ancestry parse_session_key index last_index is_detached_branch
    detached_short_sha session_key is_abs del put
ancestry_runs = refl

get_session_by_ancestry-some_example :
    (old : Bytes) × (new : Bytes) × (session_key detached_now config ≡ ok new)
    × Moved all_ancestors detached_stored moved_now config old new first_session
    × (get_session moved_now detached_now config ≡ ok (some first_session))
get_session_by_ancestry-some_example =
    get_session_by_ancestry-some all_ancestors detached_stored moved_now detached_now config
      first_session ancestry_runs

ancestry_misses :
    get_session_by_ancestry all_ancestors one_stored detached_now config ≡ ok (one_stored, none)
unfolding get_session_by_ancestry parse_session_key index last_index is_detached_branch
    detached_short_sha
ancestry_misses = refl

abbrev other_key : Bytes
other_key = codes "detached@ccc:/repo/ci.yml"

get_sessions_for_branch_by_ancestry_collision_example :
    get_sessions_for_branch_by_ancestry all_ancestors
      (record detached_stored {
        sandboxes =
            (codes "detached@aaa:/repo/ci.yml", first_session) ∷ (other_key, second_session) ∷ [];
      })
      detached_now
    ≡ ok (
      record detached_stored {
        sandboxes = (codes "detached@bbb:/repo/ci.yml", second_session) ∷ [];
        changed = true;
      },
      first_session ∷ second_session ∷ [],
    )
unfolding bytes_beq is_ancestral parse_session_key index is_detached_branch detached_short_sha
    session_key is_abs
get_sessions_for_branch_by_ancestry_collision_example =
    get_sessions_for_branch_by_ancestry_collision all_ancestors detached_stored detached_now config
      (codes "detached@aaa:/repo/ci.yml") other_key (codes "detached@bbb:/repo/ci.yml")
      first_session second_session refl (λ e. cc e) refl
      (λ e. cc ((bytes_beq_iff (codes "detached@aaa:/repo/ci.yml") other_key).1 e)) (refl, refl)
      (refl, refl)

-- An encoding of the keys alone, which is read back where it is that of `one_stored`.
abbrev encode_keys : ℕ → Dict Bytes SandboxSession → Bytes
encode_keys version [] = version ∷ []
encode_keys version ((key, session) ∷ rest) = key ++ encode_keys version rest

abbrev decode_keys : Bytes → StoredFile
decode_keys bytes =
    if bytes == encode_keys 1 one_stored.sandboxes
    then decoded 1 (some one_stored.sandboxes)
    else malformed

abbrev old_file : Option Bytes
old_file = some (codes "old")

abbrev sync_fails : SaveStep → Bool
sync_fails sync = true
sync_fails _ = false

sync_refused :
    (save sync_fails [] encode_keys one_stored []).0
    ≡ record { storage = one_stored; outcome = err sync }
unfolding save do_step step_result write_temp encode_step remove_temp finished ◌>>=◌ ◌>>◌ log return
sync_refused = refl

save_is_atomic_example :
    Ended
      (λ step. false)
      []
      encode_keys
      one_stored
      old_file
      decode_keys
      (save (λ step. false) [] encode_keys one_stored [])
unfolding bytes_beq
save_is_atomic_example =
    save_is_atomic (λ step. false) [] encode_keys one_stored old_file decode_keys refl

abbrev legacy : Bytes
legacy = codes "/repo:main:ci.yml"

abbrev loaded : SandboxStorage
loaded = record one_stored { changed = true; migrated = true }

load_runs : load_sandbox_storage true (decoded 0 (some ((legacy, first_session) ∷ []))) ≡ ok loaded
unfolding load_sandbox_storage migrate_old_session_keys migrate_entries migrate_session_key
    last_index join put
load_runs = refl

migrate_runs : migrate_session_key legacy ≡ ok (codes "main:/repo/ci.yml")
unfolding migrate_session_key last_index join
migrate_runs = refl

load_sandbox_storage-migrated_example :
    get loaded.sandboxes (codes "main:/repo/ci.yml") ≡ some first_session
load_sandbox_storage-migrated_example =
    load_sandbox_storage-migrated ((legacy, first_session) ∷ []) loaded legacy
      (codes "main:/repo/ci.yml") first_session (tt, tt) load_runs (unfold get bytes_beq in refl)
      migrate_runs
