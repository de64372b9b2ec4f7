-- ===== src/InitParameters/Tests.antt =====
-- Init parameters on a concrete environment.
use rwx.Prelude.{none, some, List, [], ◌∷◌, Bytes, bytes_eq, codes, ◌≡◌, refl}
use rwx.Prelude.Dict.{Dict, get}
use rwx.Prelude.Result.{Result, ok, err}
use rwx.InitParameters.{parse_init_parameters}
use rwx.InitParameters.Precedence.{
  first_bad, texts, assigned, last_value, parse_init_parameters-texts,
}

abbrev an_environ : List Bytes
an_environ = codes "RWX_INIT_ref=a=b" ∷ codes "HOME=/" ∷ codes "MINT_INIT_ref=c" ∷ []

abbrev some_flags : List Bytes
some_flags = codes "sha=1" ∷ []

the_ref : last_value (codes "ref") (texts an_environ some_flags) none ≡ some (codes "a=b")
unfolding last_value texts
the_ref = refl

parse_init_parameters-texts_example :
    (parse_init_parameters an_environ some_flags
      ≡ (elim (first_bad (texts an_environ some_flags)) as (λ _. Result Bytes (Dict Bytes Bytes)) [
        | none ↦ ok (assigned [] (texts an_environ some_flags))
        | some p ↦ err p
      ]))
    × (get (assigned [] (texts an_environ some_flags)) (codes "ref")
        ≡ last_value (codes "ref") (texts an_environ some_flags) none)
parse_init_parameters-texts_example =
    parse_init_parameters-texts an_environ some_flags (codes "ref")
