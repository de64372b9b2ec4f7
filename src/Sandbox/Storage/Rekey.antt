-- ===== src/Sandbox/Storage/Rekey.antt =====
-- What `GetSessionByAncestry` finds, and where the session stands afterwards.
use rwx.Prelude.{
  Bool, true, false, ◌||◌, not, none, some, [], ◌∷◌, ◌==◌, Bytes, bytes_eq, bytes_beq_iff,
  if◌then◌else◌, ◌≡◌, ◌≢◌, ◌⊎◌, inl, inr, arith, Option-cases, Bool-cases,
}
use rwx.Prelude.Dict.{Dict, get, put, del, get-put, get-del}
use rwx.Prelude.Result.{ok, Result-cases}
use rwx.Sandbox.Key.{session_key, parse_session_key, is_detached_branch, detached_short_sha}
use rwx.Sandbox.Storage.{SandboxSession, SandboxStorage, get_session}
use rwx.Sandbox.Storage.Ancestry.{
  is_ancestral, find_ancestral, rekey, get_session_by_ancestry, get_sessions_for_branch_by_ancestry,
  to_rekey, rekey_all,
}

module _ (is_ancestor : Bytes → Bytes → Bool) where
  -- A stored key of the config file whose branch is detached at an ancestor of HEAD.
  abbrev pub IsMatch : Bytes → Bytes → Type 0
  IsMatch config key =
      ((parse_session_key key).1 ≡ config)
      × (is_ancestral is_ancestor (parse_session_key key).0 ≡ true)

  find_ancestral-some :
      (config : Bytes) (m : Dict Bytes SandboxSession) (k : Bytes) (x : SandboxSession)
      → find_ancestral is_ancestor config m ≡ some (k, x)
      → (get m k ≡ some x) × IsMatch config k
  unfolding find_ancestral get
  find_ancestral-some config [] k x e = ground arith
  find_ancestral-some config ((j, y) ∷ m) k x e = ground (
    arith,
    find_ancestral-some config m k x,
    bytes_beq_iff j k,
    bytes_beq_iff (parse_session_key j).1 config,
  )

  find_ancestral-none :
      (config : Bytes) (m : Dict Bytes SandboxSession) (k : Bytes) (x : SandboxSession)
      → find_ancestral is_ancestor config m ≡ none
      → get m k ≡ some x
      → (parse_session_key k).1 ≡ config
      → is_ancestral is_ancestor (parse_session_key k).0 ≡ false
  unfolding find_ancestral get
  find_ancestral-none config [] k x e g c = ground arith
  find_ancestral-none config ((j, y) ∷ m) k x e g c = ground (
    arith,
    find_ancestral-none config m k x,
    bytes_beq_iff j k,
    bytes_beq_iff (parse_session_key j).1 config,
  )

  -- The entry `old` of `s` moved to `new`, and nothing else did.
  pub record Moved (s t : SandboxStorage) (config old new : Bytes) (x : SandboxSession)
      : Type 0 where
    pub was_stored : get s.sandboxes old ≡ some x
    pub matches : IsMatch config old
    pub lookups :
        (j : Bytes)
        → get t.sandboxes j
          ≡ (if new == j then some x else if old == j then none else get s.sandboxes j)

  -- A session that `GetSessionByAncestry` returns was stored for the config file under a branch
  -- detached at an ancestor of HEAD. It now stands under the current key, where `GetSession` finds
  -- it; its old key is gone, and every other key is as before.
  pub get_session_by_ancestry-some :
      (s t : SandboxStorage) (branch config : Bytes) (x : SandboxSession)
      → get_session_by_ancestry is_ancestor s branch config ≡ ok (t, some x)
      → (old : Bytes) × (new : Bytes) × (session_key branch config ≡ ok new)
        × Moved s t config old new x
        × (get_session t branch config ≡ ok (some x))
  unfolding get_session_by_ancestry rekey
  get_session_by_ancestry-some s t branch config x e =
      elim (Option-cases (find_ancestral is_ancestor config s.sandboxes)) [
        | inl miss ↦ ground arith
        | inr ((k, y), hit) ↦ elim (Result-cases (session_key branch config)) [
          | inl (new, en) ↦ (
            k,
            new,
            en,
            record {
              was_stored = ground (arith, find_ancestral-some config s.sandboxes k y hit);
              matches = ground (arith, find_ancestral-some config s.sandboxes k y hit);
              lookups =
                  λ j. ground (arith, get-put (del s.sandboxes k) new j y, get-del s.sandboxes k j);
            },
            unfold get_session in
                ground (arith, get-put (del s.sandboxes k) new new y, bytes_beq_iff new new),
          )
          | inr (p, ep) ↦ ground arith
        ]
      ]

  -- When it returns none, the storage is as before, and no stored session of the config file is
  -- detached at an ancestor of HEAD, unless the current branch is not detached at a known commit.
  pub get_session_by_ancestry-none :
      (s t : SandboxStorage) (branch config : Bytes)
      → get_session_by_ancestry is_ancestor s branch config ≡ ok (t, none)
      → (t ≡ s)
        × ((is_detached_branch branch ≡ false)
            ⊎ (detached_short_sha branch ≡ [])
            ⊎ ((k : Bytes) (x : SandboxSession) → get s.sandboxes k ≡ some x → ¬ IsMatch config k))
  unfolding get_session_by_ancestry
  get_session_by_ancestry-none s t branch config e =
      elim (Bool-cases (not (is_detached_branch branch) || detached_short_sha branch == [])) [
        | inl stop ↦ ground (arith, bytes_beq_iff (detached_short_sha branch) [])
        | inr go ↦ elim (Option-cases (find_ancestral is_ancestor config s.sandboxes)) [
          | inl miss ↦ (
            ground arith,
            inr (inr λ k x g m. cc (m.1, find_ancestral-none config s.sandboxes k x miss g m.0)),
          )
          | inr ((k, y), hit) ↦ elim (Result-cases (session_key branch config)) [
            | inl (new, en) ↦ absurd (ground arith)
            | inr (p, ep) ↦ absurd (ground arith)
          ]
        ]
      ]

  to_rekey_pair :
      (config k j : Bytes) (x y : SandboxSession)
      → IsMatch config k
      → IsMatch config j
      → to_rekey is_ancestor ((k, x) ∷ (j, y) ∷ []) ≡ (k, config, x) ∷ (j, config, y) ∷ []
  unfolding to_rekey
  to_rekey_pair config k j x y mk mj = ground arith

  rekey_all_pair :
      (s : SandboxStorage) (branch config k j new : Bytes) (x y : SandboxSession)
      → session_key branch config ≡ ok new
      → rekey_all is_ancestor s branch ((k, config, x) ∷ (j, config, y) ∷ [])
        ≡ ok (rekey is_ancestor (rekey is_ancestor s k new x) j new y, x ∷ y ∷ [])
  unfolding rekey_all
  rekey_all_pair s branch config k j new x y e = ground arith

  rekey_pair :
      (s : SandboxStorage) (k j new : Bytes) (x y : SandboxSession)
      → k ≢ j
      → rekey is_ancestor
          (rekey is_ancestor (record s { sandboxes = (k, x) ∷ (j, y) ∷ [] }) k new x)
          j
          new
          y
        ≡ record s { sandboxes = (new, y) ∷ []; changed = true }
  unfolding rekey put del
  rekey_pair s k j new x y ne = ground (
    arith,
    bytes_beq_iff k j,
    bytes_beq_iff j k,
    bytes_beq_iff k k,
    bytes_beq_iff new j,
    bytes_beq_iff j new,
    bytes_beq_iff j j,
    bytes_beq_iff new new,
  )

  -- Two stored sessions of one config file that both match: both are returned, and the storage
  -- keeps the second alone, under the current key.
  pub get_sessions_for_branch_by_ancestry_collision :
      (s : SandboxStorage) (branch config k j new : Bytes) (x y : SandboxSession)
      → is_detached_branch branch ≡ true
      → detached_short_sha branch ≢ []
      → session_key branch config ≡ ok new
      → k ≢ j
      → IsMatch config k
      → IsMatch config j
      → get_sessions_for_branch_by_ancestry is_ancestor
          (record s { sandboxes = (k, x) ∷ (j, y) ∷ [] })
          branch
        ≡ ok (record s { sandboxes = (new, y) ∷ []; changed = true }, x ∷ y ∷ [])
  unfolding get_sessions_for_branch_by_ancestry
  get_sessions_for_branch_by_ancestry_collision s branch config k j new x y hd hs hk ne mk mj =
      let s' = record s { sandboxes = (k, x) ∷ (j, y) ∷ [] } in
      ground (
        arith,
        bytes_beq_iff (detached_short_sha branch) [],
        to_rekey_pair config k j x y mk mj,
        rekey_all_pair s' branch config k j new x y hk,
        rekey_pair s k j new x y ne,
      )
