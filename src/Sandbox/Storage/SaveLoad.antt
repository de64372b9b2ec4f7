-- ===== src/Sandbox/Storage/SaveLoad.antt =====
-- Loading the storage file, and the migration of legacy keys.
use rwx.Prelude.{
  ℕ, true, false, some, [], ◌∷◌, ◌≤◌, ◌==◌, Bytes, bytes_eq, bytes_beq_iff, ltb, ◌≡◌, ◌≢◌, refl,
  zero, suc, inl, inr, arith, All, Bool-cases, subst,
}
use rwx.Prelude.Dict.{Dict, get, put, get-put}
use rwx.Prelude.Result.{ok}
use rwx.Sandbox.Key.{migrate_session_key}
use rwx.Sandbox.Key.Migration.{migrate_session_key-total}
use rwx.Sandbox.Storage.{SandboxSession, SandboxStorage}
use rwx.Sandbox.Storage.Persist.{
  sandbox_storage_version, migrate_entries, migrate_old_session_keys, decoded, load_sandbox_storage,
  has_changes, has_migration,
}

migrate_entries-total :
    (migrated m : Dict Bytes SandboxSession)
    → (m' : Dict Bytes SandboxSession) × (migrate_entries migrated m ≡ ok m')
unfolding migrate_entries
migrate_entries-total migrated [] = (migrated, refl)
migrate_entries-total migrated ((key, x) ∷ m) =
    let (k, e) = migrate_session_key-total key in
    let (m', e') = migrate_entries-total (put migrated k x) m in (m', ground arith)

-- A decoded file always loads, without a panic. At the current version the sessions are as stored
-- and nothing is to be saved; at an older one the storage is marked as changed and migrated, so the
-- next save writes the new keys.
pub load_sandbox_storage-decoded :
    (version : ℕ) (m : Dict Bytes SandboxSession)
    → (s : SandboxStorage) × (load_sandbox_storage true (decoded version (some m)) ≡ ok s)
      × (sandbox_storage_version ≤ s.version)
      × (has_changes s ≡ ltb version sandbox_storage_version)
      × (has_migration s ≡ ltb version sandbox_storage_version)
      × (sandbox_storage_version ≤ version → s.sandboxes ≡ m)
unfolding load_sandbox_storage has_changes has_migration
load_sandbox_storage-decoded zero m =
    let (m', e) = migrate_entries-total [] m in
    (
      record { version = 1; sandboxes = m'; changed = true; migrated = true },
      unfold migrate_old_session_keys in ground arith,
      omega arith,
      refl,
      refl,
      λ h. absurd (omega arith),
    )
load_sandbox_storage-decoded (suc version) m = (
  record { version = suc version; sandboxes = m; changed = false; migrated = false },
  ground arith,
  omega arith,
  ground arith,
  ground arith,
  λ h. refl,
)

-- No two entries of a legacy map get the same new key.
abbrev pub IsFaithful : Dict Bytes SandboxSession → Type 0
IsFaithful [] = Unit
IsFaithful ((k, _) ∷ m) =
    All (λ e. migrate_session_key e.0 ≢ migrate_session_key k) m × IsFaithful m

migrate_entries-keep :
    (m migrated m' : Dict Bytes SandboxSession) (k' : Bytes) (x : SandboxSession)
    → All (λ e. migrate_session_key e.0 ≢ ok k') m
    → get migrated k' ≡ some x
    → migrate_entries migrated m ≡ ok m'
    → get m' k' ≡ some x
unfolding migrate_entries
migrate_entries-keep [] migrated m' k' x h g e = ground arith
migrate_entries-keep ((j, y) ∷ m) migrated m' k' x (h, hs) g e =
    let (j', ej) = migrate_session_key-total j in
    migrate_entries-keep m (put migrated j' y) m' k' x hs
      (ground (arith, get-put migrated j' k' y, bytes_beq_iff j' k')) (ground arith)

migrate_entries-get :
    (m migrated m' : Dict Bytes SandboxSession) (k k' : Bytes) (x : SandboxSession)
    → IsFaithful m
    → get m k ≡ some x
    → migrate_session_key k ≡ ok k'
    → migrate_entries migrated m ≡ ok m'
    → get m' k' ≡ some x
unfolding migrate_entries get
migrate_entries-get [] migrated m' k k' x f g ek e = ground arith
migrate_entries-get ((j, y) ∷ m) migrated m' k k' x (h, f) g ek e =
    let (j', ej) = migrate_session_key-total j in
    elim (Bool-cases (j == k)) [
      | inl same ↦
          let j_is : j ≡ k = (bytes_beq_iff j k).0 same in
          migrate_entries-keep m (put migrated j' y) m' k' x
            (subst (λ r. All (λ e. migrate_session_key e.0 ≢ r) m) (rw j_is ek) h)
            (ground (arith, get-put migrated j' k' y, bytes_beq_iff j' k')) (ground arith)
      | inr other ↦
          migrate_entries-get m (put migrated j' y) m' k k' x f (ground arith) ek (ground arith)
    ]

-- Where no two legacy keys migrate to one, loading an old file loses no session: each is found
-- under its key's migration.
pub load_sandbox_storage-migrated :
    (m : Dict Bytes SandboxSession) (s : SandboxStorage) (k k' : Bytes) (x : SandboxSession)
    → IsFaithful m
    → load_sandbox_storage true (decoded 0 (some m)) ≡ ok s
    → get m k ≡ some x
    → migrate_session_key k ≡ ok k'
    → get s.sandboxes k' ≡ some x
unfolding load_sandbox_storage migrate_old_session_keys
load_sandbox_storage-migrated m s k k' x f e g ek =
    let (m', e') = migrate_entries-total [] m in
    ground (arith, migrate_entries-get m [] m' k k' x f g ek e')
