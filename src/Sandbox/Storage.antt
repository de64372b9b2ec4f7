-- ===== src/Sandbox/Storage.antt =====
-- internal/cli/sandbox_storage.go: the stored sessions and their operations. The map's entries
-- stand in the order in which `range` meets them. A time is the number that stands for it.
pub mod Ancestry
pub mod Persist
pub mod Saving
pub mod Atomic
pub mod Frame
pub mod Changes
pub mod Rekey
pub mod Branches
pub mod SaveLoad
use rwx.Prelude.{
  ℕ, suc, Bool, true, false, ◌&&◌, ◌||◌, not, Option, none, some, List, [], ◌∷◌, ◌++◌, ◌==◌, Bytes,
  Eq, bytes_eq, nat_eq, bytes_beq, codes, has_prefix, if◌then◌else◌, ◌≡◌, ◌↔◌, arith, bytes_beq_iff,
  ltb,
}
use rwx.Prelude.Dict.{Dict, get, put, del}
use rwx.Prelude.Result.{Result, ok, err, ◌>>=◌}
use rwx.Sandbox.Key.{
  Panic, session_key, parse_session_key, is_detached_branch, detached_short_sha,
  migrate_session_key, or_detached,
}

pub record SandboxSession : Type 0 where
  pub run_id : Bytes
  pub config_file : Bytes
  pub scoped_token : Bytes
  pub run_url : Bytes
  pub config_hash : Bytes
  pub created_at : Option ℕ
  pub last_exec_at : Option ℕ
  pub exec_count : ℕ
  pub reset_nag_shown : Bool

time_beq : Option ℕ → Option ℕ → Bool
time_beq none none = true
time_beq (some a) (some b) = a == b
time_beq _ _ = false

bool_beq : Bool → Bool → Bool
bool_beq a b = if a then b else not b

-- `reflect.DeepEqual` of two sessions
pub session_beq : SandboxSession → SandboxSession → Bool
session_beq a b =
    a.run_id == b.run_id
    && a.config_file == b.config_file
    && a.scoped_token == b.scoped_token
    && a.run_url == b.run_url
    && a.config_hash == b.config_hash
    && time_beq a.created_at b.created_at
    && time_beq a.last_exec_at b.last_exec_at
    && a.exec_count == b.exec_count
    && bool_beq a.reset_nag_shown b.reset_nag_shown

pub session_beq_iff : (a b : SandboxSession) → (session_beq a b ≡ true) ↔ (a ≡ b)
unfolding session_beq time_beq bool_beq
session_beq_iff a b = ground (
  arith,
  bytes_beq_iff a.run_id b.run_id,
  bytes_beq_iff a.config_file b.config_file,
  bytes_beq_iff a.scoped_token b.scoped_token,
  bytes_beq_iff a.run_url b.run_url,
  bytes_beq_iff a.config_hash b.config_hash,
)

instance abbrev pub session_eq : Eq SandboxSession
unfolding session_beq time_beq bool_beq
session_eq = record { same = session_beq; same_iff = session_beq_iff }

pub record SandboxStorage : Type 0 where
  pub version : ℕ
  pub sandboxes : Dict Bytes SandboxSession
  pub changed : Bool
  pub migrated : Bool

unfoldable pub get_session : SandboxStorage → Bytes → Bytes → Result Panic (Option SandboxSession)
get_session s branch config_file = do key ← session_key branch config_file; ok (get s.sandboxes key)

sessions_with_prefix : Bytes → Dict Bytes SandboxSession → List SandboxSession
sessions_with_prefix prefix [] = []
sessions_with_prefix prefix ((key, session) ∷ rest) =
    let later = sessions_with_prefix prefix rest in
    if has_prefix key prefix then session ∷ later else later

-- all sessions of a branch, whatever their config file
unfoldable pub get_sessions_for_branch : SandboxStorage → Bytes → List SandboxSession
unfolding sessions_with_prefix
get_sessions_for_branch s branch =
    sessions_with_prefix (or_detached branch ++ b':' ∷ []) s.sandboxes

store : SandboxStorage → Bytes → SandboxSession → SandboxStorage
store s key session = record s { sandboxes = put s.sandboxes key session; changed = true }

discard : SandboxStorage → Bytes → SandboxStorage
discard s key = record s { sandboxes = del s.sandboxes key; changed = true }

-- `SetSession` behind its key: an equal session that is there already changes nothing.
set_at : SandboxStorage → Bytes → SandboxSession → SandboxStorage
unfolding store session_eq
set_at s key session = elim (get s.sandboxes key) [
  | none ↦ store s key session
  | some existing ↦ if existing == session then s else store s key session
]

unfoldable pub set_session :
    SandboxStorage → Bytes → Bytes → SandboxSession → Result Panic SandboxStorage
unfolding set_at
set_session s branch config_file session = do
  key ← session_key branch config_file
  ok (set_at s key session)

delete_at : SandboxStorage → Bytes → SandboxStorage
unfolding discard
delete_at s key = elim (get s.sandboxes key) [ none ↦ s | some _ ↦ discard s key ]

unfoldable pub delete_session : SandboxStorage → Bytes → Bytes → Result Panic SandboxStorage
unfolding delete_at
delete_session s branch config_file = do key ← session_key branch config_file; ok (delete_at s key)

-- the first entry, in the order of `range`, with the run
unfoldable pub find_entry : Bytes → Dict Bytes SandboxSession → Option (Bytes × SandboxSession)
find_entry run_id [] = none
find_entry run_id ((key, session) ∷ rest) =
    if session.run_id == run_id then some (key, session) else find_entry run_id rest

unfoldable pub find_by_run_id : SandboxStorage → Bytes → Option (Bytes × SandboxSession)
unfolding find_entry
find_by_run_id s run_id = find_entry run_id s.sandboxes

unfoldable pub delete_session_by_run_id : SandboxStorage → Bytes → SandboxStorage × Bool
unfolding find_entry discard
delete_session_by_run_id s run_id = elim (find_entry run_id s.sandboxes) [
  | none ↦ (s, false)
  | some (key, _) ↦ (discard s key, true)
]
