-- ===== src/Sandbox/Storage/Frame.antt =====
-- What reads see after writes: `GetSession` after `SetSession` and `DeleteSession`.
use rwx.Prelude.{
  Bool, true, false, ◌&&◌, none, some, ◌==◌, Bytes, bytes_eq, bytes_beq_iff, codes, contains,
  if◌then◌else◌, ◌≡◌, inl, inr, arith, Option-cases,
}
use rwx.Prelude.Dict.{get, get-put, get-del}
use rwx.Prelude.Result.{ok, Result-cases, >>=-eq-ok}
use rwx.Sandbox.Key.{session_key, or_detached}
use rwx.Sandbox.Key.RoundTrip.{session_key-ok, parse_session_key-session_key}
use rwx.Sandbox.Storage.{
  SandboxSession, SandboxStorage, session_beq_iff, get_session, set_session, set_at, delete_session,
  delete_at,
}

-- A branch name as `SessionKey` can tell it apart.
abbrev pub IsBranch : Bytes → Type 0
IsBranch branch = contains branch (codes ":/") ≡ false

abbrev same_place : Bytes → Bytes → Bytes → Bytes → Bool
same_place branch config b c = or_detached branch == or_detached b && config == c

-- Two keys are one exactly for one branch and one config file.
session_key_eq :
    (branch config b c : Bytes) {k j : Bytes}
    → IsBranch branch
    → IsBranch b
    → session_key branch config ≡ ok k
    → session_key b c ≡ ok j
    → (k == j) ≡ same_place branch config b c
session_key_eq branch config b c {k} {j} hb hc ek ej = ground (
  arith,
  bytes_beq_iff k j,
  bytes_beq_iff (or_detached branch) (or_detached b),
  bytes_beq_iff config c,
  parse_session_key-session_key branch config hb ek,
  parse_session_key-session_key b c hc ej,
  session_key-ok branch config ek,
  session_key-ok b c ej,
)

session_key_same :
    (branch config b c : Bytes)
    → same_place branch config b c ≡ true
    → session_key branch config ≡ session_key b c
unfolding session_key
session_key_same branch config b c h =
    ground (arith, bytes_beq_iff (or_detached branch) (or_detached b), bytes_beq_iff config c)

get-set_at :
    (s : SandboxStorage) (k j : Bytes) (x : SandboxSession)
    → get (set_at s k x).sandboxes j ≡ (if k == j then some x else get s.sandboxes j)
unfolding set_at
get-set_at s k j x = elim (Option-cases (get s.sandboxes k)) [
  | inl e ↦ ground (arith, e, get-put s.sandboxes k j x)
  | inr (y, e) ↦
      ground (arith, e, get-put s.sandboxes k j x, session_beq_iff y x, bytes_beq_iff k j)
]

get-delete_at :
    (s : SandboxStorage) (k j : Bytes)
    → get (delete_at s k).sandboxes j ≡ (if k == j then none else get s.sandboxes j)
unfolding delete_at
get-delete_at s k j = elim (Option-cases (get s.sandboxes k)) [
  | inl e ↦ ground (arith, e, bytes_beq_iff k j)
  | inr (y, e) ↦ ground (arith, e, get-del s.sandboxes k j)
]

-- After `SetSession` of one branch and config file, `GetSession` returns that session there, and
-- what it returned before everywhere else, for branches without ":/".
pub get_session-set_session :
    (s t : SandboxStorage) (branch config b c : Bytes) (x : SandboxSession)
    → IsBranch branch
    → IsBranch b
    → set_session s branch config x ≡ ok t
    → get_session t b c ≡ (if same_place branch config b c then ok (some x) else get_session s b c)
unfolding set_session get_session
get_session-set_session s t branch config b c x hb hc e =
    let (k, ek, ok_t) = >>=-eq-ok (session_key branch config) _ e in
    elim (Result-cases (session_key b c)) [
      | inl (j, ej) ↦
          ground
            (arith, ek, ej, ok_t, session_key_eq branch config b c hb hc ek ej, get-set_at s k j x)
      | inr (p, ej) ↦ ground (arith, ek, ej, session_key_same branch config b c)
    ]

-- After `DeleteSession` of one branch and config file, `GetSession` finds nothing there, and what it
-- found before everywhere else, for branches without ":/".
pub get_session-delete_session :
    (s t : SandboxStorage) (branch config b c : Bytes)
    → IsBranch branch
    → IsBranch b
    → delete_session s branch config ≡ ok t
    → get_session t b c ≡ (if same_place branch config b c then ok none else get_session s b c)
unfolding delete_session get_session
get_session-delete_session s t branch config b c hb hc e =
    let (k, ek, ok_t) = >>=-eq-ok (session_key branch config) _ e in
    elim (Result-cases (session_key b c)) [
      | inl (j, ej) ↦
          ground
            (arith, ek, ej, ok_t, session_key_eq branch config b c hb hc ek ej, get-delete_at s k j)
      | inr (p, ej) ↦ ground (arith, ek, ej, session_key_same branch config b c)
    ]
