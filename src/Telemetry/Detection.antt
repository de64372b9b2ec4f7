-- ===== src/Telemetry/Detection.antt =====
-- Which agent and which CI system are found, in every environment.
use rwx.Prelude.{
  Bool, true, false, ◌&&◌, ◌||◌, not, Option, none, some, Option-cases, List, [], ◌∷◌, ◌++◌, ◌==◌,
  Bytes, bytes_eq, bytes_beq, bytes_beq_iff, codes, if◌then◌else◌, ◌≡◌, refl, inl, inr, arith, any,
  take, ap, ◌∙◌,
}
use rwx.Prelude.Dict.{Dict}
use rwx.Telemetry.Agent.{
  Env, generic_agent, agent_env_vars, ci_env_vars, is_falsy, env_set, generic_agent_name, getenv,
  detect_in_row, detect_in_rows, detect_agent, first_set, detect_ci,
}

-- A variable of some row is set.
abbrev pub any_set : Env → Dict Bytes (List Bytes) → Bool
any_set env [] = false
any_set env ((name, vars) ∷ rows) = any (env_set env) vars || any_set env rows

-- Every row has a name.
abbrev pub named : Dict Bytes (List Bytes) → Bool
unfolding bytes_beq
named [] = true
named ((name, vars) ∷ rows) = not (name == []) && named rows

generic_agent_name-set :
    (env : Env) (v : Bytes)
    → env_set env v ≡ true
    → (generic_agent_name (getenv env v) == []) ≡ false
unfolding env_set generic_agent_name is_falsy bytes_beq
generic_agent_name-set env v h = elim (Option-cases (env v)) [
  | inl e ↦ ground (arith, e)
  | inr (value, e) ↦ ground (arith, e)
]

-- A name is found, and it is not empty, exactly where a variable of the row is set.
found : Option Bytes → Bool
unfolding bytes_beq
found none = false
found (some name) = not (name == [])

detect_in_row-any :
    (env : Env) (agent : Bytes) (vars : List Bytes)
    → (agent == []) ≡ false
    → found (detect_in_row env agent vars) ≡ any (env_set env) vars
      × (detect_in_row env agent vars ≡ some [] → ⊥)
unfolding detect_in_row found
detect_in_row-any env agent [] h = ground arith
detect_in_row-any env agent (v ∷ vs) h =
    ground (arith, detect_in_row-any env agent vs h, generic_agent_name-set env v)

detect_in_rows-any_set :
    (env : Env) (rows : Dict Bytes (List Bytes))
    → named rows ≡ true
    → not (detect_in_rows env rows == []) ≡ any_set env rows
unfolding detect_in_rows found
detect_in_rows-any_set env [] h = refl
detect_in_rows-any_set env ((name, vars) ∷ rows) h =
    elim (Option-cases (detect_in_row env name vars)) [
      | inl e ↦ ground (
        arith,
        e,
        h,
        detect_in_row-any env name vars,
        detect_in_rows-any_set env rows,
        bytes_beq_iff name [],
      )
      | inr (x, e) ↦
          ground (
            arith,
            e,
            h,
            detect_in_row-any env name vars,
            bytes_beq_iff name [],
            bytes_beq_iff x [],
          )
    ]

first_set-any_set :
    (env : Env) (rows : Dict Bytes (List Bytes))
    → named rows ≡ true
    → not (first_set env rows == []) ≡ any_set env rows
unfolding first_set
first_set-any_set env [] h = refl
first_set-any_set env ((name, vars) ∷ rows) h = ground (arith, h, first_set-any_set env rows)

-- In every environment, an agent is named, and its name is not empty, exactly where one of the
-- agents' variables is set to something other than white space, 0 or false (in any case); and a CI
-- system likewise for the variables of the CI systems.
pub detect_agent-any_set :
    (env : Env)
    → (not (detect_agent env == []) ≡ any_set env agent_env_vars)
      × (not (detect_ci env == []) ≡ any_set env ci_env_vars)
unfolding detect_agent detect_ci bytes_beq
detect_agent-any_set env =
    (detect_in_rows-any_set env agent_env_vars refl, first_set-any_set env ci_env_vars refl)

detect_in_rows-append :
    (env : Env) (rows rest : Dict Bytes (List Bytes))
    → named rows ≡ true
    → detect_in_rows env (rows ++ rest)
      ≡ (if any_set env rows then detect_in_rows env rows else detect_in_rows env rest)
unfolding detect_in_rows found
detect_in_rows-append env [] rest h = refl
detect_in_rows-append env ((name, vars) ∷ rows) rest h =
    elim (Option-cases (detect_in_row env name vars)) [
      | inl e ↦
          ground (arith, e, h, detect_in_row-any env name vars, detect_in_rows-append env rows rest)
      | inr (x, e) ↦
          ground (
            arith,
            e,
            h,
            detect_in_row-any env name vars,
            bytes_beq_iff name [],
            bytes_beq_iff x [],
          )
    ]

-- The rows of the agents that have variables of their own, before the generic ones.
abbrev pub specific_agents : Dict Bytes (List Bytes)
specific_agents = take 7 agent_env_vars

abbrev generic_agents : Dict Bytes (List Bytes)
generic_agents =
    (generic_agent, codes "AI_AGENT" ∷ []) ∷ (codes "emdash", codes "EMDASH_TASK_ID" ∷ []) ∷ []

detect_in_rows-generic_agents :
    (env : Env)
    → detect_in_rows env generic_agents ≡ (
        if env_set env (codes "AI_AGENT")
        then generic_agent_name (getenv env (codes "AI_AGENT"))
        else if env_set env (codes "EMDASH_TASK_ID")
        then codes "emdash"
        else [])
unfolding detect_in_rows detect_in_row bytes_beq
detect_in_rows-generic_agents env =
    go (env_set env (codes "AI_AGENT")) (env_set env (codes "EMDASH_TASK_ID"))
      (generic_agent_name (getenv env (codes "AI_AGENT")))
  where
    go :
        (ai emdash : Bool) (name : Bytes)
        → (elim (if ai then some name else none) as (λ _. Bytes) [
          | none ↦ elim (if emdash then some (codes "emdash") else none) as (λ _. Bytes) [
            | none ↦ []
            | some x ↦ x
          ]
          | some x ↦ x
        ])
          ≡ (if ai then name else if emdash then codes "emdash" else [])
    go true _ name = refl
    go false true name = refl
    go false false name = refl

-- Where a variable of one of the seven specific agents is set, the agent found is the one that
-- these rows alone give: what `AI_AGENT` and `EMDASH_TASK_ID` are does not matter. Where none is
-- set, `AI_AGENT` names the agent if it is set, by its own trimmed and lower-cased value or as
-- "agent" for a mere flag; otherwise `EMDASH_TASK_ID` decides between "emdash" and no agent.
pub detect_agent_precedence :
    (env : Env)
    → detect_agent env ≡ (
        if any_set env specific_agents
        then detect_in_rows env specific_agents
        else if env_set env (codes "AI_AGENT")
        then generic_agent_name (getenv env (codes "AI_AGENT"))
        else if env_set env (codes "EMDASH_TASK_ID")
        then codes "emdash"
        else [])
unfolding detect_agent
detect_agent_precedence env =
    detect_in_rows-append env specific_agents generic_agents refl
    ∙ ap
        (λ later. if any_set env specific_agents then detect_in_rows env specific_agents else later)
        (detect_in_rows-generic_agents env)
