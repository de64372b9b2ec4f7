-- ===== src/RetryRequest/Unique.antt =====
-- `uniqueStrings` keeps one of each.
use rwx.Prelude.{
  ℕ, ◌+◌, List, [], ◌∷◌, ◌==◌, bytes_eq, bytes_beq_iff, Bytes, if◌then◌else◌, ◌≡◌, inl, inr,
  Bool-cases, arith,
}
use rwx.RetryRequest.{string_available, unique_from, unique_strings}

abbrev pub occurrences : Bytes → List Bytes → ℕ
occurrences v [] = 0
occurrences v (x ∷ xs) = (if x == v then 1 else 0) + occurrences v xs

occurrences-unique_from :
    (v : Bytes) (values seen : List Bytes)
    → occurrences v (unique_from seen values)
      ≡ (if string_available v seen then 0 else if string_available v values then 1 else 0)
unfolding unique_from string_available
occurrences-unique_from v [] seen = ground arith
occurrences-unique_from v (x ∷ values) seen = elim (Bool-cases (string_available x seen)) [
  | inl old ↦ ground (arith, occurrences-unique_from v values seen, bytes_beq_iff x v)
  | inr new ↦ ground (arith, occurrences-unique_from v values (x ∷ seen), bytes_beq_iff x v)
]

-- A value stands in the result once if the list holds it, and not at all otherwise.
pub occurrences-unique_strings :
    (v : Bytes) (values : List Bytes)
    → occurrences v (unique_strings values) ≡ (if string_available v values then 1 else 0)
unfolding unique_strings string_available
occurrences-unique_strings v values = occurrences-unique_from v values []
