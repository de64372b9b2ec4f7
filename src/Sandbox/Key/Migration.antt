-- ===== src/Sandbox/Key/Migration.antt =====
-- Legacy keys, `cwd:branch:configFile`: what the migration makes of them, and what it leaves alone.
use rwx.Prelude.{
  ℕ, zero, suc, true, false, ◌&&◌, [], ◌∷◌, ◌++◌, Bytes, bytes_eq, bytes_beq, has_byte, nat_eq,
  take, drop, if◌then◌else◌, ◌≡◌, refl, inl, inr, arith, Bool-cases, Option-cases, ◌∙◌, last_index,
  take-length-append,
}
use rwx.Prelude.Cut.{last_index-append}
use rwx.Prelude.FilePath.{is_abs, join, is_abs-join}
use rwx.Prelude.Result.{ok}
use rwx.Sandbox.Key.{
  session_key, parse_session_key, or_detached, is_yaml, migrate_parts, migrate_session_key,
}
use rwx.Sandbox.Key.RoundTrip.{
  parse_session_key-key, drop-suc-append, contains-free, or_detached-has_byte,
}

session_key-abs :
    (branch config : Bytes)
    → is_abs config ≡ true
    → session_key branch config ≡ ok (or_detached branch ++ (b':' ∷ config))
unfolding session_key
session_key-abs branch config h = ground arith

-- the config file of a migrated key
abbrev pub resolved : Bytes → Bytes → Bytes
resolved cwd config = if is_abs config then config else join cwd config

is_abs-resolved : (cwd config : Bytes) → is_abs cwd ≡ true → is_abs (resolved cwd config) ≡ true
is_abs-resolved cwd config h = ground (arith, is_abs-join cwd config h)

migrate_parts-total :
    (key cwd branch config : Bytes) → (k : Bytes) × (migrate_parts key cwd branch config ≡ ok k)
unfolding migrate_parts is_abs
migrate_parts-total key cwd branch config = elim (Bool-cases (is_abs cwd && is_yaml config)) [
  | inl both ↦ (
    or_detached branch ++ (b':' ∷ resolved cwd config),
    ground (arith, is_abs-resolved cwd config, session_key-abs branch (resolved cwd config)),
  )
  | inr skip ↦ (key, ground arith)
]

-- The migration of a key never panics, whatever the key.
pub migrate_session_key-total : (key : Bytes) → (k : Bytes) × (migrate_session_key key ≡ ok k)
unfolding migrate_session_key
migrate_session_key-total key = elim (Option-cases (last_index key b':')) [
  | inl e ↦ (key, ground arith)
  | inr (i, e) ↦ elim (Option-cases (last_index (take i key) b':')) [
    | inl e' ↦ (key, ground arith)
    | inr (j, e') ↦
        let (k, ek) =
          migrate_parts-total key (take j (take i key)) (drop (suc j) (take i key))
            (drop (suc i) key) in
        (k, ground arith)
  ]
]

is_abs-take : (n : ℕ) (s : Bytes) → is_abs s ≡ false → is_abs (take n s) ≡ false
unfolding is_abs
is_abs-take zero s h = refl
is_abs-take (suc n) [] h = refl
is_abs-take (suc n) (x ∷ s) h = ground arith

-- A key that does not start with a slash, as the current format's, is left as it is.
pub migrate_session_key_current :
    (key : Bytes) → is_abs key ≡ false → migrate_session_key key ≡ ok key
unfolding migrate_session_key is_abs
migrate_session_key_current key h = elim (Option-cases (last_index key b':')) [
  | inl e ↦ ground arith
  | inr (i, e) ↦ elim (Option-cases (last_index (take i key) b':')) [
    | inl e' ↦ ground arith
    | inr (j, e') ↦ ground (arith, is_abs-take i key h, is_abs-take j (take i key))
  ]
]

is_abs-or_detached :
    (branch rest : Bytes)
    → is_abs branch ≡ false
    → is_abs (or_detached branch ++ (b':' ∷ rest)) ≡ false
unfolding is_abs bytes_beq
is_abs-or_detached [] rest h = refl
is_abs-or_detached (x ∷ branch) rest h = ground arith

abbrev pub legacy_key : Bytes → Bytes → Bytes → Bytes
legacy_key cwd branch config = (cwd ++ (b':' ∷ branch)) ++ (b':' ∷ config)

migrate_session_key_parts :
    (cwd branch config : Bytes)
    → has_byte b':' branch ≡ false
    → has_byte b':' config ≡ false
    → migrate_session_key (legacy_key cwd branch config)
      ≡ migrate_parts (legacy_key cwd branch config) cwd branch config
unfolding migrate_session_key
migrate_session_key_parts cwd branch config hb hc =
    let front = cwd ++ (b':' ∷ branch) in
    ground (
      arith,
      last_index-append b':' front config hc,
      take-length-append front (b':' ∷ config),
      drop-suc-append front b':' config,
      last_index-append b':' cwd branch hb,
      take-length-append cwd (b':' ∷ branch),
      drop-suc-append cwd b':' branch,
    )

-- A legacy key of an absolute cwd and a YAML config file becomes a key that `ParseSessionKey` reads
-- as the branch and the config file, resolved against the cwd if it was relative. The new key is
-- stable: unless the branch starts with a slash, migrating it again changes nothing.
pub migrate_session_key_legacy :
    (cwd branch config : Bytes)
    → is_abs cwd ≡ true
    → is_yaml config ≡ true
    → has_byte b':' branch ≡ false
    → has_byte b':' config ≡ false
    → (key : Bytes) × (migrate_session_key (legacy_key cwd branch config) ≡ ok key)
      × (parse_session_key key ≡ (or_detached branch, resolved cwd config))
      × (is_abs branch ≡ false → migrate_session_key key ≡ ok key)
unfolding migrate_parts
migrate_session_key_legacy cwd branch config hw hy hb hc =
    let key = or_detached branch ++ (b':' ∷ resolved cwd config) in
    let rooted = is_abs-resolved cwd config hw in
    (
      key,
      migrate_session_key_parts cwd branch config hb hc
          ∙ unfold is_abs in ground (arith, session_key-abs branch (resolved cwd config) rooted),
      parse_session_key-key (or_detached branch) (resolved cwd config)
          (contains-free _ (or_detached-has_byte branch hb)) (inr rooted),
      λ h. migrate_session_key_current key (is_abs-or_detached branch _ h),
    )
