-- ===== src/Vcs/Reason.antt =====
-- The reasons recorded for failed patches.
use rwx.Prelude.{
  ℕ, Bool, true, false, ◌||◌, List, [], ◌∷◌, ◌++◌, ◌==◌, Bytes, bytes_eq, bytes_beq, codes,
  contains, to_lower, to_lower_byte, trim_space, any, if◌then◌else◌, ◌≡◌, refl, arith, Option-cases,
  inl, inr,
}
use rwx.Vcs.{
  ExecError, PatchFailure, no_error, patch_error, other_error, classify_patch_stderr,
  patch_failure_reason, reason, new_patch_error, first_nonempty, patch_error_text,
}

-- Every category that telemetry may see.
abbrev pub buckets : List Bytes
buckets =
    codes "shallow_clone"
    ∷ codes "beyond_symlink"
    ∷ codes "missing_external_filter"
    ∷ codes "oom_killed"
    ∷ codes "lfs_changed"
    ∷ codes "already_exists"
    ∷ codes "corrupt_patch"
    ∷ codes "patch_conflict"
    ∷ codes "unknown"
    ∷ []

unfoldable pub is_bucket : Bytes → Bool
unfolding bytes_beq
is_bucket r = any (λ b. b == r) buckets

-- A choice among the nine categories.
choice-is_bucket :
    (a b c d e f g h : Bool)
    → is_bucket (
        if a
        then codes "shallow_clone"
        else if b
        then codes "beyond_symlink"
        else if c
        then codes "missing_external_filter"
        else if d
        then codes "oom_killed"
        else if e
        then codes "lfs_changed"
        else if f
        then codes "already_exists"
        else if g
        then codes "corrupt_patch"
        else if h
        then codes "patch_conflict"
        else codes "unknown")
      ≡ true
unfolding is_bucket bytes_beq
choice-is_bucket true b c d e f g h = refl
choice-is_bucket false true c d e f g h = refl
choice-is_bucket false false true d e f g h = refl
choice-is_bucket false false false true e f g h = refl
choice-is_bucket false false false false true f g h = refl
choice-is_bucket false false false false false true g h = refl
choice-is_bucket false false false false false false true h = refl
choice-is_bucket false false false false false false false true = refl
choice-is_bucket false false false false false false false false = refl

classify-is_bucket : (s : Bytes) → is_bucket (classify_patch_stderr s) ≡ true
unfolding classify_patch_stderr
classify-is_bucket stderr =
    let s = to_lower stderr in
    choice-is_bucket (contains s (codes "bad object") || contains s (codes "shallow"))
      (contains s (codes "beyond a symbolic link"))
      (contains s (codes "external filter") || contains s (codes "filter-process"))
      (contains s (codes "signal: killed")
        || contains s (codes "out of memory")
        || contains s (codes "cannot allocate memory"))
      (contains s (codes "lfs file(s) changed locally"))
      (contains s (codes "already exists in working directory"))
      (contains s (codes "corrupt patch"))
      (contains s (codes "does not apply")
        || contains s (codes "patch failed")
        || contains s (codes "partially applied"))

to_lower_byte_twice : (c : ℕ) → to_lower_byte (to_lower_byte c) ≡ to_lower_byte c
unfolding to_lower_byte
to_lower_byte_twice c = ground arith

to_lower_twice : (s : Bytes) → to_lower (to_lower s) ≡ to_lower s
unfolding to_lower
to_lower_twice [] = refl
to_lower_twice (c ∷ s) = ground (arith, to_lower_byte_twice c, to_lower_twice s)

classify-to_lower : (s : Bytes) → classify_patch_stderr (to_lower s) ≡ classify_patch_stderr s
unfolding classify_patch_stderr
classify-to_lower s = simp (to_lower_twice s)

-- Every failure's reason is one of nine fixed categories, whatever the stderr or the message holds,
-- so no text of the user's repository reaches telemetry; only where there is no error is the reason
-- empty. The category does not depend on the case of the letters.
pub patch_failure_reason-is_bucket :
    (f : PatchFailure) (message : Bytes)
    → (elim f as (λ _. Bool) [
      | no_error ↦ patch_failure_reason f == []
      | patch_error e ↦ is_bucket (patch_failure_reason f)
      | other_error m ↦ is_bucket (patch_failure_reason f)
    ])
        ≡ true
      × (classify_patch_stderr (to_lower message) ≡ classify_patch_stderr message)
unfolding patch_failure_reason reason bytes_beq
patch_failure_reason-is_bucket no_error message = (refl, classify-to_lower message)
patch_failure_reason-is_bucket (patch_error e) message =
    (classify-is_bucket e.stderr, classify-to_lower message)
patch_failure_reason-is_bucket (other_error m) message =
    (classify-is_bucket m, classify-to_lower message)

-- A failed command's error keeps the exit code, and tells the first text that is not blank: the
-- captured stderr, the fallback, then the error's own message. So where the message is not blank, the
-- user is always shown a detail behind the command's name.
pub new_patch_error-stderr :
    (command display : Bytes) (e : ExecError) (fallback : Bytes)
    → (trim_space e.message == []) ≡ false
    → ((new_patch_error command display e fallback).stderr == []) ≡ false
      × (patch_error_text (new_patch_error command display e fallback)
          ≡ codes "failed to generate patch ("
            ++ display
            ++ codes ")"
            ++ codes ": "
            ++ (new_patch_error command display e fallback).stderr)
unfolding new_patch_error patch_error_text first_nonempty bytes_beq
new_patch_error-stderr command display e fallback h = elim (Option-cases e.exit) [
  | inl x ↦ ground (arith, x, h)
  | inr (y, x) ↦ ground (arith, x, h)
]
