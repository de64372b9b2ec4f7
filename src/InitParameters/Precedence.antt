-- ===== src/InitParameters/Precedence.antt =====
-- Which value an init parameter has in the end.
use rwx.Prelude.{
  ℕ, true, false, Option, none, some, Option-cases, List, [], ◌∷◌, ◌++◌, ◌==◌, nat_eq, Bytes,
  bytes_eq, bytes_beq, codes, split, has_prefix, trim_prefix, if◌then◌else◌, ◌≡◌, refl, ◌∙◌, inl,
  inr, arith,
}
use rwx.Prelude.Dict.{Dict, get, put, get-put}
use rwx.Prelude.Result.{Result, ok, err, ◌>>=◌, Result-cases}
use rwx.Prelude.Cut.{split-nonempty}
use rwx.InitParameters.{join_with, parse, parse_env, parse_flags, parse_init_parameters}

-- A text cut at its first `=`.
unfoldable pub cut : Bytes → Option (Bytes × Bytes)
cut [] = none
cut (a ∷ s) = elim (a == 61) [
  | true ↦ some ([], s)
  | false ↦ elim (cut s) [ none ↦ none | some (key, value) ↦ some (a ∷ key, value) ]
]

join-head :
    (a : ℕ) (p : Bytes) (ps : List Bytes)
    → join_with (codes "=") ((a ∷ p) ∷ ps) ≡ a ∷ join_with (codes "=") (p ∷ ps)
unfolding join_with
join-head a p [] = refl
join-head a p (q ∷ ps) = refl

join-empty :
    (p : Bytes) (ps : List Bytes)
    → join_with (codes "=") ([] ∷ p ∷ ps) ≡ 61 ∷ join_with (codes "=") (p ∷ ps)
unfolding join_with
join-empty p ps = refl

join-split : (s : Bytes) → join_with (codes "=") (split 61 s) ≡ s
unfolding join_with split
join-split [] = refl
join-split (a ∷ s) =
    let (p, ps, e) = split-nonempty 61 s in
    ground (arith, e, join-split s, join-head a p ps, join-empty p ps)

split-cut :
    (s : Bytes)
    → split 61 s ≡ (elim (cut s) [ none ↦ s ∷ [] | some (key, value) ↦ key ∷ split 61 value ])
unfolding split cut
split-cut [] = refl
split-cut (a ∷ s) = ground (arith, split-cut s)

parse-cut :
    (m : Dict Bytes Bytes) (p : Bytes)
    → parse m p ≡ (elim (cut p) as (λ _. Result Bytes (Dict Bytes Bytes)) [
      | none ↦ err p
      | some (key, value) ↦ ok (put m key value)
    ])
unfolding parse
parse-cut m p = elim (Option-cases (cut p)) [
  | inl e ↦ ground (arith, e, split-cut p)
  | inr ((key, value), e) ↦
      let (q, qs, d) = split-nonempty 61 value in
      ground (arith, e, d, split-cut p, join-split value)
]

-- The environment's texts behind a prefix, in order.
unfoldable pub stripped : Bytes → List Bytes → List Bytes
unfolding has_prefix trim_prefix
stripped prefix [] = []
stripped prefix (env_var ∷ environ) =
    let rest = stripped prefix environ in
    if has_prefix env_var prefix then trim_prefix env_var prefix ∷ rest else rest

-- Every text that is read, in the order in which it counts.
unfoldable pub texts : List Bytes → List Bytes → List Bytes
unfolding stripped
texts environ params =
    stripped (codes "MINT_INIT_") environ ++ (stripped (codes "RWX_INIT_") environ ++ params)

-- The first text without `=`.
unfoldable pub first_bad : List Bytes → Option Bytes
unfolding cut
first_bad [] = none
first_bad (t ∷ ts) = let later = first_bad ts in elim (cut t) [ none ↦ some t | some _ ↦ later ]

unfoldable pub assigned : Dict Bytes Bytes → List Bytes → Dict Bytes Bytes
unfolding cut bytes_beq
assigned m [] = m
assigned m (t ∷ ts) = elim (cut t) [ none ↦ m | some (key, value) ↦ assigned (put m key value) ts ]

-- The value of the last text for a key, if there is one; all texts have an `=`.
unfoldable pub last_value : Bytes → List Bytes → Option Bytes → Option Bytes
unfolding cut bytes_beq
last_value k [] default = default
last_value k (t ∷ ts) default = elim (cut t) [
  | none ↦ default
  | some (key, value) ↦ last_value k ts (if key == k then some value else default)
]

parse_flags-assigned :
    (m : Dict Bytes Bytes) (ts : List Bytes)
    → parse_flags m ts ≡ (elim (first_bad ts) as (λ _. Result Bytes (Dict Bytes Bytes)) [
      | none ↦ ok (assigned m ts)
      | some p ↦ err p
    ])
unfolding parse_flags first_bad assigned
parse_flags-assigned m [] = refl
parse_flags-assigned m (t ∷ ts) = elim (Option-cases (cut t)) [
  | inl e ↦ ground (arith, e, parse-cut m t)
  | inr ((key, value), e) ↦
      ground (arith, e, parse-cut m t, parse_flags-assigned (put m key value) ts)
]

parse_flags-append :
    (m : Dict Bytes Bytes) (ts us : List Bytes)
    → parse_flags m (ts ++ us) ≡ (parse_flags m ts >>= λ m'. parse_flags m' us)
unfolding parse_flags
parse_flags-append m [] us = refl
parse_flags-append m (t ∷ ts) us = elim (Result-cases (parse m t)) [
  | inl (m', e) ↦ ground (arith, e, parse_flags-append m' ts us)
  | inr (p, e) ↦ ground (arith, e)
]

parse_env-stripped :
    (prefix : Bytes) (m : Dict Bytes Bytes) (environ : List Bytes)
    → parse_env prefix m environ ≡ parse_flags m (stripped prefix environ)
unfolding parse_env parse_flags stripped
parse_env-stripped prefix m [] = refl
parse_env-stripped prefix m (v ∷ environ) = elim (Result-cases (parse m (trim_prefix v prefix))) [
  | inl (m', e) ↦
      ground (arith, e, parse_env-stripped prefix m environ, parse_env-stripped prefix m' environ)
  | inr (p, e) ↦ ground (arith, e, parse_env-stripped prefix m environ)
]

get-assigned :
    (m : Dict Bytes Bytes) (ts : List Bytes) (k : Bytes)
    → get (assigned m ts) k ≡ last_value k ts (get m k)
unfolding assigned last_value
get-assigned m [] k = refl
get-assigned m (t ∷ ts) k = elim (Option-cases (cut t)) [
  | inl e ↦ ground (arith, e)
  | inr ((key, value), e) ↦
      ground (arith, e, get-assigned (put m key value) ts k, get-put m key k value)
]

parse_init_parameters-flags :
    (environ params : List Bytes)
    → parse_init_parameters environ params ≡ parse_flags [] (texts environ params)
unfolding parse_init_parameters texts
parse_init_parameters-flags environ params =
    let mint = stripped (codes "MINT_INIT_") environ in
    let rwx_texts = stripped (codes "RWX_INIT_") environ in
    elim (Result-cases (parse_flags [] mint)) [
      | inl (m, e) ↦ ground (
        arith,
        e,
        parse_env-stripped (codes "MINT_INIT_") [] environ,
        parse_env-stripped (codes "RWX_INIT_") m environ,
        parse_flags-append [] mint (rwx_texts ++ params),
        parse_flags-append m rwx_texts params,
      )
      | inr (p, e) ↦ ground (
        arith,
        e,
        parse_env-stripped (codes "MINT_INIT_") [] environ,
        parse_flags-append [] mint (rwx_texts ++ params),
      )
    ]

-- The texts that count are the variables with the prefix `MINT_INIT_`, then those with `RWX_INIT_`,
-- then the flags. If one has no `=`, the first such text is the error. Otherwise every parameter has
-- the value of the last text for it, so flags outrank the environment and `RWX_INIT_` outranks
-- `MINT_INIT_`; a text's key ends at its first `=`, and its value is all that follows.
pub parse_init_parameters-texts :
    (environ params : List Bytes) (k : Bytes)
    → (parse_init_parameters environ params
        ≡ (elim (first_bad (texts environ params)) as (λ _. Result Bytes (Dict Bytes Bytes)) [
          | none ↦ ok (assigned [] (texts environ params))
          | some p ↦ err p
        ]))
      × (get (assigned [] (texts environ params)) k ≡ last_value k (texts environ params) none)
unfolding get
parse_init_parameters-texts environ params k = (
  parse_init_parameters-flags environ params ∙ parse_flags-assigned [] (texts environ params),
  get-assigned [] (texts environ params) k,
)
