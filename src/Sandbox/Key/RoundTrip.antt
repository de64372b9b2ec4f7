-- ===== src/Sandbox/Key/RoundTrip.antt =====
-- `ParseSessionKey` reads back what `SessionKey` writes.
use rwx.Prelude.{
  ℕ, suc, ◌≡◌, refl, true, false, [], ◌∷◌, ◌++◌, Bytes, bytes_eq, ◌⊎◌, bytes_beq, bytes_beq_iff,
  codes, has_prefix, contains, has_byte, drop, length, arith, take-length-append,
}
use rwx.Prelude.FilePath.{is_abs}
use rwx.Prelude.Cut.{index-append_pair, index-none-append, last_index-append}
use rwx.Prelude.Result.{ok}
use rwx.Sandbox.Key.{or_detached, session_key, parse_session_key}

pub drop-suc-append : (s : Bytes) (c : ℕ) (t : Bytes) → drop (suc (length s)) (s ++ (c ∷ t)) ≡ t
drop-suc-append [] c t = refl
drop-suc-append (x ∷ s) c t = drop-suc-append s c t

-- What `SessionKey` returns, and when.
pub session_key-ok :
    (branch config : Bytes) {key : Bytes}
    → session_key branch config ≡ ok key
    → (key ≡ or_detached branch ++ (b':' ∷ config)) × ((config ≡ []) ⊎ (is_abs config ≡ true))
unfolding session_key
session_key-ok branch config e = ground (arith, bytes_beq_iff config [])

-- A key whose branch part does not hold ":/" is cut behind the branch.
parse_session_key_empty :
    (branch : Bytes)
    → contains branch (codes ":/") ≡ false
    → parse_session_key (branch ++ (b':' ∷ [])) ≡ (branch, [])
unfolding parse_session_key
parse_session_key_empty branch h = ground (
  arith,
  index-none-append b':' b'/' branch refl h,
  last_index-append b':' branch [] (unfold has_byte in refl),
  take-length-append branch (b':' ∷ []),
  drop-suc-append branch b':' [],
)

parse_session_key_slash :
    (branch rest : Bytes)
    → contains branch (codes ":/") ≡ false
    → parse_session_key (branch ++ (b':' ∷ b'/' ∷ rest)) ≡ (branch, b'/' ∷ rest)
unfolding parse_session_key
parse_session_key_slash branch rest h = ground (
  arith,
  index-append_pair b':' b'/' branch rest refl h,
  take-length-append branch (b':' ∷ b'/' ∷ rest),
  drop-suc-append branch b':' (b'/' ∷ rest),
)

pub parse_session_key-key :
    (branch config : Bytes)
    → contains branch (codes ":/") ≡ false
    → (config ≡ []) ⊎ (is_abs config ≡ true)
    → parse_session_key (branch ++ (b':' ∷ config)) ≡ (branch, config)
unfolding is_abs has_prefix
parse_session_key-key branch [] h c = parse_session_key_empty branch h
parse_session_key-key branch (x ∷ config) h c =
    let e : x ≡ b'/' = ground arith in rw e (parse_session_key_slash branch config h)

or_detached-free :
    (branch : Bytes)
    → contains branch (codes ":/") ≡ false
    → contains (or_detached branch) (codes ":/") ≡ false
unfolding bytes_beq contains
or_detached-free [] h = refl
or_detached-free (x ∷ branch) h = h

-- Whatever `SessionKey` returns is parsed into the branch, `detached` for the empty one, and the
-- config file, if the branch does not hold ":/".
pub parse_session_key-session_key :
    (branch config : Bytes) {key : Bytes}
    → contains branch (codes ":/") ≡ false
    → session_key branch config ≡ ok key
    → parse_session_key key ≡ (or_detached branch, config)
parse_session_key-session_key branch config {key} h e = ground (
  arith,
  session_key-ok branch config e,
  parse_session_key-key (or_detached branch) config (or_detached-free branch h),
)

pub contains-free : (s : Bytes) → has_byte b':' s ≡ false → contains s (codes ":/") ≡ false
unfolding has_byte contains has_prefix
contains-free [] h = refl
contains-free (x ∷ s) h = ground (arith, contains-free s)

pub or_detached-has_byte :
    (b : Bytes) → has_byte b':' b ≡ false → has_byte b':' (or_detached b) ≡ false
unfolding bytes_beq has_byte
or_detached-has_byte [] h = refl
or_detached-has_byte (x ∷ b) h = h
