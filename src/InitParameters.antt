-- ===== src/InitParameters.antt =====
-- The init parameters of a run: `key=value` texts from the environment and the flags (cmd/rwx/parsers.go).
mod Precedence
mod Tests
use rwx.Prelude.{
  Bool, true, false, List, [], ◌∷◌, ◌++◌, Bytes, bytes_eq, bytes_beq, codes, split, has_prefix,
  trim_prefix, if◌then◌else◌,
}
use rwx.Prelude.Dict.{Dict, put}
use rwx.Prelude.Result.{Result, ok, err, ◌>>=◌}

-- strings.Join by one byte
unfoldable pub join_with : Bytes → List Bytes → Bytes
join_with c [] = []
join_with c (part ∷ []) = part
join_with c (part ∷ next ∷ parts) = part ++ c ++ join_with c (next ∷ parts)

-- `parse`; the error is the text that has no `=`.
unfoldable pub parse : Dict Bytes Bytes → Bytes → Result Bytes (Dict Bytes Bytes)
unfolding split join_with bytes_beq
parse parsed_params p = elim (split 61 p) [
  | [] ↦ err p
  | key ∷ values ↦ elim values [
    | [] ↦ err p
    | v ∷ vs ↦ ok (put parsed_params key (join_with (codes "=") (v ∷ vs)))
  ]
]

unfoldable pub parse_env : Bytes → Dict Bytes Bytes → List Bytes → Result Bytes (Dict Bytes Bytes)
unfolding parse has_prefix trim_prefix
parse_env prefix parsed_params [] = ok parsed_params
parse_env prefix parsed_params (env_var ∷ environ) =
    if has_prefix env_var prefix
    then (parse parsed_params (trim_prefix env_var prefix) >>= λ parsed.
        parse_env prefix parsed environ)
    else parse_env prefix parsed_params environ

unfoldable pub parse_flags : Dict Bytes Bytes → List Bytes → Result Bytes (Dict Bytes Bytes)
unfolding parse
parse_flags parsed_params [] = ok parsed_params
parse_flags parsed_params (param ∷ params) = do
  parsed ← parse parsed_params param
  parse_flags parsed params

unfoldable pub parse_init_parameters : List Bytes → List Bytes → Result Bytes (Dict Bytes Bytes)
unfolding parse_env parse_flags
parse_init_parameters environ params = do
  from_mint ← parse_env (codes "MINT_INIT_") [] environ
  from_rwx ← parse_env (codes "RWX_INIT_") from_mint environ
  parse_flags from_rwx params
