-- ===== src/Telemetry/Agent.antt =====
-- Which coding agent and which CI system the environment names (internal/telemetry/agent.go).
use rwx.Prelude.{
  Bool, false, ◌||◌, not, Option, none, some, List, [], ◌∷◌, ◌==◌, Bytes, bytes_eq, bytes_beq,
  codes, to_lower, trim_space, if◌then◌else◌, any,
}
use rwx.Prelude.Dict.{Dict}

abbrev pub Env : Type 0
Env = Bytes → Option Bytes

abbrev pub generic_agent : Bytes
generic_agent = codes "agent"

abbrev pub agent_env_vars : Dict Bytes (List Bytes)
agent_env_vars =
    (codes "claude_code", codes "CLAUDECODE" ∷ codes "CLAUDE_CODE" ∷ [])
    ∷ (codes "cursor", codes "CURSOR_AGENT" ∷ [])
    ∷ (codes "codex", codes "CODEX_THREAD_ID" ∷ codes "CODEX_SANDBOX" ∷ codes "CODEX_CI" ∷ [])
    ∷ (codes "gemini_cli", codes "GEMINI_CLI" ∷ [])
    ∷ (codes "copilot_cli", codes "COPILOT_CLI" ∷ [])
    ∷ (codes "amp", codes "AMP_THREAD_ID" ∷ [])
    ∷ (codes "opencode", codes "OPENCODE" ∷ [])
    ∷ (generic_agent, codes "AI_AGENT" ∷ [])
    ∷ (codes "emdash", codes "EMDASH_TASK_ID" ∷ [])
    ∷ []

abbrev pub ci_env_vars : Dict Bytes (List Bytes)
ci_env_vars =
    (codes "github_actions", codes "GITHUB_ACTIONS" ∷ [])
    ∷ (codes "gitlab_ci", codes "GITLAB_CI" ∷ [])
    ∷ (codes "circleci", codes "CIRCLECI" ∷ [])
    ∷ (codes "buildkite", codes "BUILDKITE" ∷ [])
    ∷ (codes "jenkins", codes "JENKINS_URL" ∷ codes "JENKINS_HOME" ∷ [])
    ∷ (codes "travis_ci", codes "TRAVIS" ∷ [])
    ∷ (codes "azure_pipelines", codes "TF_BUILD" ∷ [])
    ∷ (codes "bitbucket_pipelines", codes "BITBUCKET_BUILD_NUMBER" ∷ [])
    ∷ (codes "teamcity", codes "TEAMCITY_VERSION" ∷ [])
    ∷ (codes "rwx", codes "RWX" ∷ [])
    ∷ (codes "ci", codes "CI" ∷ [])
    ∷ []

-- A value that turns a variable off.
unfoldable pub is_falsy : Bytes → Bool
unfolding bytes_beq
is_falsy value = value == [] || value == codes "0" || value == codes "false"

unfoldable pub env_set : Env → Bytes → Bool
unfolding is_falsy to_lower trim_space
env_set env name = elim (env name) [
  | none ↦ false
  | some v ↦ not (is_falsy (to_lower (trim_space v)))
]

unfoldable pub generic_agent_name : Bytes → Bytes
unfolding bytes_beq to_lower trim_space
generic_agent_name value =
    let name = to_lower (trim_space value) in
    if name == codes "1" || name == codes "true" || name == codes "yes" then generic_agent else name

-- os.Getenv
abbrev pub getenv : Env → Bytes → Bytes
getenv env name = elim (env name) [ none ↦ [] | some v ↦ v ]

-- The two loops of `detectAgent`, over one row and over the table.
unfoldable pub detect_in_row : Env → Bytes → List Bytes → Option Bytes
unfolding bytes_beq env_set generic_agent_name
detect_in_row env agent [] = none
detect_in_row env agent (v ∷ vs) =
    let later = detect_in_row env agent vs in
    if env_set env v
    then some (if agent == generic_agent then generic_agent_name (getenv env v) else agent)
    else later

unfoldable pub detect_in_rows : Env → Dict Bytes (List Bytes) → Bytes
unfolding detect_in_row
detect_in_rows env [] = []
detect_in_rows env ((agent, vars) ∷ rows) =
    let later = detect_in_rows env rows in
    elim (detect_in_row env agent vars) [ none ↦ later | some name ↦ name ]

unfoldable pub detect_agent : Env → Bytes
unfolding detect_in_rows
detect_agent env = detect_in_rows env agent_env_vars

-- The two loops of `detectCI`.
unfoldable pub first_set : Env → Dict Bytes (List Bytes) → Bytes
unfolding env_set
first_set env [] = []
first_set env ((ci, vars) ∷ rows) =
    let later = first_set env rows in if any (env_set env) vars then ci else later

unfoldable pub detect_ci : Env → Bytes
unfolding first_set
detect_ci env = first_set env ci_env_vars
