-- ===== src/Telemetry/Tests.antt =====
-- The telemetry on concrete inputs.
use rwx.Prelude.{
  none, some, List, [], ◌∷◌, bytes_eq, bytes_beq, ◌==◌, codes, if◌then◌else◌, ◌≡◌, refl, map,
}
use rwx.Telemetry.{CallStats, summary}
use rwx.Telemetry.Aggregate.{summary-entry_for, entry_for, calls_of, keys_met}
use rwx.Telemetry.Agent.{Env, detect_agent}

abbrev runs_call : CallStats
runs_call = record {
  path = codes "/runs";
  method = codes "GET";
  status_code = 200;
  duration_ms = 30;
}

abbrev failed_call : CallStats
failed_call = record {
  path = codes "/runs";
  method = codes "GET";
  status_code = 0;
  duration_ms = 5;
}

abbrev token_call : CallStats
token_call = record {
  path = codes "/token";
  method = codes "POST";
  status_code = 201;
  duration_ms = 7;
}

abbrev some_calls : List CallStats
some_calls = runs_call ∷ token_call ∷ failed_call ∷ []

summary-entry_for_example :
    summary some_calls
    ≡ some (map (λ k. entry_for k (calls_of k some_calls)) (keys_met [] some_calls))
summary-entry_for_example = summary-entry_for some_calls

abbrev an_env : Env
unfolding bytes_beq
an_env name = if name == codes "AI_AGENT" then some (codes " OpenCode ") else none

an_agent : detect_agent an_env ≡ codes "opencode"
unfolding detect_agent
an_agent = refl
