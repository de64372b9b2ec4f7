-- ===== src/Errors.antt =====
-- internal/errors/errors.go: error values with their chains, and `wrapSentinel`. Stack traces and
-- the `%+v` rendering are not modelled.
pub mod Sentinels
use mathlib.Core.Bool.{decide}
use rwx.Prelude.{
  Bool, true, false, ◌||◌, Option, none, some, ◌++◌, Bytes, codes, if◌then◌else◌, ◌≡◌, refl, arith,
}

-- The sentinels of the `var` block.
pub data Sentinel : Type 0 where
  file_not_exists bad_request not_found gone retry sandbox_no_git_dir : Sentinel
  sandbox_setup_failure shallow_clone ssh patch timeout lsp : Sentinel
  ambiguous_task_key ambiguous_definition_path sandbox_definition_required : Sentinel
  network_transient unauthenticated internal_server_error : Sentinel

pub Sentinel-discrete : Discrete Sentinel
Sentinel-discrete = hlevel

-- What an error without inner errors is: a sentinel, one of the network errors that the program
-- asks about (with `IsTemporary`, with `Timeout()`), or any other.
pub data Kind : Type 0 where
  plain conn_reset conn_refused eof unexpected_eof : Kind
  sentinel : Sentinel → Kind
  dns net : Bool → Kind

-- Targets of `errors.Is`.
pub data Target : Type 0 where
  conn_reset conn_refused eof unexpected_eof : Target
  sentinel : Sentinel → Target

-- An error: a leaf with its text, `fmt.Errorf("…: %w", err)` or `errors.Wrap` with the text that
-- stands in front, or a `sentinelError`.
pub data GoError : Type 0 where
  leaf : Kind → Bytes → GoError
  wrap : Bytes → GoError → GoError
  marked : GoError → GoError → GoError

-- fmt.Errorf and errors.New without an inner error
abbrev pub new_error : Bytes → GoError
new_error text = leaf Kind.plain text

same_sentinel : Sentinel → Sentinel → Bool
same_sentinel a b = elim (Sentinel-discrete a b) [ yes _ ↦ true | no _ ↦ false ]

-- `err == target`
kind_is : Kind → Target → Bool
unfolding same_sentinel
kind_is Kind.conn_reset Target.conn_reset = true
kind_is Kind.conn_refused Target.conn_refused = true
kind_is Kind.eof Target.eof = true
kind_is Kind.unexpected_eof Target.unexpected_eof = true
kind_is (Kind.sentinel s) (Target.sentinel t) = same_sentinel s t
kind_is _ _ = false

-- `errors.Is`: the error, or one that it unwraps to, is the target.
unfoldable pub is : GoError → Target → Bool
unfolding kind_is
is (leaf k _) target = kind_is k target
is (wrap _ e) target = is e target
is (marked inner s) target = is inner target || is s target

-- err.Error()
unfoldable pub error : GoError → Bytes
error (leaf _ text) = text
error (wrap text e) = text ++ (codes ": " ++ error e)
error (marked inner _) = error inner

sentinel_text : Sentinel → Bytes
sentinel_text file_not_exists = codes "file does not exist"
sentinel_text bad_request = codes "bad request"
sentinel_text not_found = codes "not found"
sentinel_text gone = codes "gone"
sentinel_text retry = codes "retry"
sentinel_text sandbox_no_git_dir =
    codes "no .git directory found in sandbox. Set 'preserve-git-dir: true' on your git/clone task"
sentinel_text sandbox_setup_failure = codes "sandbox setup failure"
sentinel_text shallow_clone = codes "shallow clone error"
sentinel_text ssh = codes "ssh error"
sentinel_text patch = codes "patch error"
sentinel_text timeout = codes "timeout"
sentinel_text lsp = codes "lsp error"
sentinel_text ambiguous_task_key = codes "ambiguous task key"
sentinel_text ambiguous_definition_path = codes "ambiguous definition path"
sentinel_text sandbox_definition_required = codes "sandbox definition required"
sentinel_text network_transient = codes "network transient error"
sentinel_text unauthenticated = codes "unauthenticated"
sentinel_text internal_server_error = codes "internal server error"

-- the value of an `Err…` variable
unfoldable pub sentinel_error : Sentinel → GoError
unfolding sentinel_text
sentinel_error s = leaf (Kind.sentinel s) (sentinel_text s)

-- `wrapSentinel` of an error that is not nil
unfoldable pub mark : GoError → Sentinel → GoError
mark e s = if is e (Target.sentinel s) then e else marked e (sentinel_error s)

-- `wrapSentinel`; `none` is nil.
unfoldable pub wrap_sentinel : Option GoError → Sentinel → Option GoError
unfolding mark
wrap_sentinel none s = none
wrap_sentinel (some e) s = some (mark e s)
