-- ===== src/Sandbox/Storage/Branches.antt =====
-- `GetSessionsForBranch` finds a branch's sessions by a key prefix: on well-formed keys that is the
-- same as parsing each key.
use rwx.Prelude.{
  true, false, List, [], ◌∷◌, ◌++◌, ◌==◌, Bytes, bytes_eq, bytes_beq, has_byte, has_prefix, All,
  nat_eq, if◌then◌else◌, ◌≡◌, refl, ◌⊎◌, arith,
}
use rwx.Prelude.Dict.{Dict}
use rwx.Prelude.FilePath.{is_abs}
use rwx.Sandbox.Key.{parse_session_key, or_detached}
use rwx.Sandbox.Key.RoundTrip.{parse_session_key-key, contains-free, or_detached-has_byte}
use rwx.Sandbox.Storage.{
  SandboxSession, SandboxStorage, get_sessions_for_branch, sessions_with_prefix,
}

-- A key of a branch with no colon in its name, and an absolute config file or none.
pub record IsTidyKey (key : Bytes) : Type 0 where
  pub branch : Bytes
  pub config : Bytes
  pub no_colon : has_byte b':' branch ≡ false
  pub config_is : (config ≡ []) ⊎ (is_abs config ≡ true)
  pub key_is : key ≡ branch ++ (b':' ∷ config)

has_prefix-branch :
    (b a config : Bytes)
    → has_byte b':' b ≡ false
    → has_byte b':' a ≡ false
    → has_prefix (b ++ (b':' ∷ config)) (a ++ b':' ∷ []) ≡ (b == a)
unfolding has_byte has_prefix bytes_beq
has_prefix-branch [] [] config hb ha = refl
has_prefix-branch [] (y ∷ a) config hb ha = ground arith
has_prefix-branch (x ∷ b) [] config hb ha = ground arith
has_prefix-branch (x ∷ b) (y ∷ a) config hb ha = ground (arith, has_prefix-branch b a config)

-- The sessions whose key parses to the branch.
abbrev pub sessions_parsed : Bytes → Dict Bytes SandboxSession → List SandboxSession
sessions_parsed branch [] = []
sessions_parsed branch ((key, session) ∷ rest) =
    let later = sessions_parsed branch rest in
    if (parse_session_key key).0 == branch then session ∷ later else later

sessions_with_prefix_lem :
    (a : Bytes) (m : Dict Bytes SandboxSession)
    → has_byte b':' a ≡ false
    → All (λ e. IsTidyKey e.0) m
    → sessions_with_prefix (a ++ b':' ∷ []) m ≡ sessions_parsed a m
unfolding sessions_with_prefix
sessions_with_prefix_lem a [] ha h = refl
sessions_with_prefix_lem a ((key, x) ∷ m) ha (t, h) = ground (
  arith,
  sessions_with_prefix_lem a m ha h,
  has_prefix-branch t.branch a t.config t.no_colon ha,
  parse_session_key-key t.branch t.config (contains-free t.branch t.no_colon) t.config_is,
  t.key_is,
)

-- On keys of colon-free branches, `GetSessionsForBranch` returns exactly the sessions whose key
-- parses to the branch (`detached` for the empty name), in the order of the map.
pub get_sessions_for_branch_parsed :
    (s : SandboxStorage) (branch : Bytes)
    → has_byte b':' branch ≡ false
    → All (λ e. IsTidyKey e.0) s.sandboxes
    → get_sessions_for_branch s branch ≡ sessions_parsed (or_detached branch) s.sandboxes
unfolding get_sessions_for_branch
get_sessions_for_branch_parsed s branch hb h =
    sessions_with_prefix_lem (or_detached branch) s.sandboxes (or_detached-has_byte branch hb) h
