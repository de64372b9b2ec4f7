-- ===== src/Artifacts/FreeNames.antt =====
-- The search for a free name ends: each taken name can stop it once.
use rwx.Prelude.{
  ℕ, zero, suc, ◌+◌, ◌≤◌, ◌<◌, leb, true, false, Option, none, some, List, [], ◌∷◌, ◌==◌, nat_eq,
  bytes_eq, bytes_beq_iff, Bytes, length, drop, if◌then◌else◌, Bool-cases, Option-cases, inl, inr,
  ◌≡◌, ap, arith,
}
use rwx.Prelude.Decimal.{read_decimal, read_decimal-decimal}
use rwx.Artifacts.Names.{is_in, numbered, free_name}

-- The number behind a base name.
abbrev number_of : Bytes → Bytes → Option ℕ
number_of base_name name = read_decimal (drop (suc (length base_name)) name)

number_of-numbered :
    (base_name : Bytes) (suffix : ℕ) → number_of base_name (numbered base_name suffix) ≡ some suffix
number_of-numbered [] suffix = read_decimal-decimal suffix
number_of-numbered (c ∷ name) suffix = number_of-numbered name suffix

-- How many of the names have a number from `k` on.
abbrev from : ℕ → Option ℕ → ℕ
from k none = 0
from k (some n) = if leb k n then 1 else 0

abbrev pub count_from : Bytes → ℕ → List Bytes → ℕ
count_from base_name k [] = 0
count_from base_name k (name ∷ names) =
    from k (number_of base_name name) + count_from base_name k names

from-suc : (k : ℕ) (o : Option ℕ) → from (k + 1) o ≤ from k o
from-suc k none = omega arith
from-suc k (some n) = ground arith

count_from-suc :
    (base_name : Bytes) (k : ℕ) (names : List Bytes)
    → count_from base_name (k + 1) names ≤ count_from base_name k names
count_from-suc base_name k [] = omega arith
count_from-suc base_name k (name ∷ names) =
    omega (arith, count_from-suc base_name k names, from-suc k (number_of base_name name))

count_from-taken :
    (base_name : Bytes) (k : ℕ) (names : List Bytes)
    → is_in names (numbered base_name k) ≡ true
    → count_from base_name (k + 1) names < count_from base_name k names
unfolding is_in
count_from-taken base_name k [] h = ground (arith, h)
count_from-taken base_name k (name ∷ names) h = elim (Bool-cases (name == numbered base_name k)) [
  | inl e ↦ ground (
    arith,
    ap (number_of base_name) ((bytes_beq_iff name (numbered base_name k)).0 e),
    number_of-numbered base_name k,
    count_from-suc base_name k names,
  )
  | inr e ↦
      ground
        (arith, e, h, count_from-taken base_name k names, from-suc k (number_of base_name name))
]

pub count_from-length :
    (base_name : Bytes) (k : ℕ) (names : List Bytes) → count_from base_name k names ≤ length names
count_from-length base_name k [] = omega arith
count_from-length base_name k (name ∷ names) = elim (Option-cases (number_of base_name name)) [
  | inl e ↦ ground (arith, e, count_from-length base_name k names)
  | inr (n, e) ↦ ground (arith, e, count_from-length base_name k names)
]

-- With more rounds than names that are taken, a free one is found.
pub free_name-rounds :
    (rounds : ℕ) (taken : List Bytes) (base_name : Bytes) (suffix : ℕ)
    → count_from base_name suffix taken < rounds
    → (k : ℕ) × (free_name rounds taken base_name suffix ≡ some (numbered base_name k, k + 1))
      × (is_in taken (numbered base_name k) ≡ false)
unfolding free_name
free_name-rounds zero taken base_name suffix h = ground (arith, h)
free_name-rounds (suc rounds) taken base_name suffix h =
    elim (Bool-cases (is_in taken (numbered base_name suffix))) [
      | inr free ↦ (suffix, ground (arith, free), free)
      | inl used ↦
          let (k, found, free) =
            free_name-rounds rounds taken base_name (suffix + 1)
              (omega (arith, h, count_from-taken base_name suffix taken used)) in
          (k, ground (arith, used, found), free)
    ]
