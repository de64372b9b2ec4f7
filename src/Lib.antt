-- ===== src/Lib.antt =====
-- The rwx command line client (Go): what it stores between runs, how it works with sandboxes, the
-- server and the language server, and the helpers that decide what it does and shows.
--
-- The parts, each a module with the code it is about (paths from the repository's root):
--   Sandbox         internal/cli/sandbox_storage.go. Sandbox/Key: the keys of sessions (SessionKey,
--                   ParseSessionKey, the legacy keys). Sandbox/Storage: SandboxStorage as a map with
--                   its two flags, one function for each method; Storage/Ancestry: the search by
--                   ancestry and its re-keying; Storage/Persist: LoadSandboxStorage;
--                   Storage/Saving: SaveWithMetrics as what it does to the files, in order. The
--                   theorems: Key/RoundTrip, Key/Migration and Storage/Frame, Changes, Rekey,
--                   SaveLoad, Atomic.
--   SandboxSync     internal/cli/service_sandbox.go: syncLocalChangesToSandbox and
--                   pullChangesFromSandbox. Shell: quoteShellArg and the remote commands; Patches:
--                   parsePatchFiles, parseNewFilePaths; Session: what is asked of SSH, git and the
--                   file system, event by event; Push: ensureSandboxHasCommit and
--                   pushLocalHeadToSandbox; Lfs, Apply, Sync: the rest of the push; Pull: the pull. The
--                   theorems: Markers, MarkedSync, MarkedPull, TempFiles, Success, Reader, PatchLaws.
--   SandboxOps      internal/cli/service_sandbox.go on the sessions of Sandbox: Check
--                   (CheckExistingSandbox), Listing (ListSandboxes), Stop (StopSandbox), Start
--                   (StartSandbox), Reset (ResetSandbox) and Waiting (the two waits), over World, which
--                   answers for the API, SSH, the clock, the lock and the storage file. The theorems:
--                   the modules Lock..., ListLaws, StopLaws, WaitLaws.
--   Artifacts       internal/cli/service_artifacts.go, service_download_output.go. Names:
--                   safePathComponent and the names of output directories; Extract: artifactOutputDirs
--                   and extractTar over a disk that may refuse each step; Ready: the wait until
--                   artifacts are ready; DownloadAll and DownloadOne, which share Download:
--                   DownloadAllArtifacts and DownloadArtifact. The theorems: Confined, Distinct,
--                   Finish, Failing.
--   Errors          internal/errors/errors.go: chains of errors, errors.Is and WrapSentinel.
--   Retry           internal/retry: IsTransient, the Backoff of polling loops and the retrying
--                   RoundTripper, which marks its last error by Errors.
--   RetryRequest    internal/cli/service_retry.go: the choice of a retry request from flags, options
--                   and the prompt. RetryRequest/Sending: the calls of Service.Retry.
--   ApiClient       internal/api/client.go: Client.RoundTrip with retryAfterDelay; Download: DownloadLogs.
--   Wait            internal/cli/service_wait.go: the polling loop of GetRunStatus.
--   InitParameters  cmd/rwx/parsers.go: ParseInitParameters.
--   Lsp             internal/lsp/jsonrpc.go. Lsp: frames (send, readMessage). Lsp/Connection: the
--                   pending table with a step for each critical section of request and readLoop,
--                   where the read loop's delivery counts as part of its own.
--   Telemetry       internal/telemetry: Collector, StatsRoundTripper, Sender.Flush, Telemetry.Flush;
--                   Telemetry/Agent: detectAgent and detectCI.
--   Vcs             internal/vcs/vcstypes/vcstypes.go: repository names, path lists, LFS files,
--                   patches and the reasons of their failures.
--   Config          internal/config: FileBackend over a file system with modes, MemoryBackend.
--                   Config/Backend is the interface that Config/Tokens (internal/accesstoken,
--                   internal/docstoken) takes; both backends fill it.
--   Wrap            internal/text/wrap.go: Truncate and WrapText.
--   Prelude         lists, byte strings, maps, decimal numbers, paths and results that these share.
--                   Prelude/Traced: code as what it does in order; Prelude/Leads: what holds of the
--                   events before and after it, a rule for each way to build it.
--
-- SandboxOps works on the storage of Sandbox, SandboxSync finds the files of a patch with Vcs, and the
-- errors of all parts are those of Errors.
--
-- How the code is written down. A Go string is a list of bytes (of runes in Truncate), an int that is
-- never negative is a native natural number, a map is an association list with one entry to a key, a
-- pointer that may be nil is an Option, and a panic or an error is a value. State is passed on
-- explicitly; where goroutines share it, the operations are the critical sections, and a step
-- relation takes them in any order. White space and letter case are those of ASCII texts.
--
-- Bounds and fuel. Lsp reads Content-Length within the 64 bits of strconv.Atoi, so its round trip
-- is for bodies below 2 ^ 63 bytes; the ApiClient's delays stay within a Duration. The loops that
-- are not structural run on fuel: both round trips need five rounds, WrapText one for each byte,
-- the download of logs one for each second of its duration and two more, the polling of Wait one
-- more than the answers that ask again, the wait for a stopped run 30001, for it sleeps a
-- millisecond at least in each of its 30 seconds, the wait for artifacts 30002 likewise, and the
-- search for a directory name one more than the names that are taken; the theorems on them say that
-- the loops end. The wait for a sandbox to be ready has no bound in the code; its fuel is an
-- argument, and running out of it is an outcome of its own.
--
-- What is a parameter: git's is-ancestor, the server's answers and their times, the prompt, the
-- environment, the umask, git check-attr and the decoding of JSON, each as an arbitrary function or
-- value; which step of a file operation fails is an argument too, and the storage file is encoded by an
-- arbitrary function, of which the decoder reads back the new file. SandboxSync, SandboxOps, Artifacts
-- and RetryRequest's sending take what is outside as functions of all that was asked of it before:
-- the SSH client, git, the file system, the API, the lock, the clock and the reader of tar archives.
--
-- What is not modelled: the commands of cmd/rwx, the other operations of the API client and its
-- wire types, the other operations of internal/cli, among them exec in a sandbox
-- (prepareSandboxOperation, ExecSandbox), its tunnels and background processes; the git, jj, ssh
-- and docker clients, mocks and tests; what a remote command does to the sandbox; the lock file,
-- durations of stored sessions, spinners and printed results, stack traces and the texts of most
-- error messages; internal/dotenv, a copy of godotenv.
pub mod Prelude
pub mod Sandbox
pub mod SandboxSync
pub mod SandboxOps
pub mod Artifacts
pub mod Errors
pub mod Retry
pub mod Telemetry
pub mod Vcs
pub mod Wait
pub mod InitParameters
pub mod Config
pub mod Lsp
pub mod ApiClient
pub mod Wrap
pub mod RetryRequest
