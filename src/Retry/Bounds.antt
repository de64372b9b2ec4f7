-- ===== src/Retry/Bounds.antt =====
-- The delays of `Record`.
use native.Mathlib.Nat.{pow-succ', one-le-pow, mul_assoc}
use rwx.Prelude.{
  ℕ, zero, suc, ◌+◌, ◌*◌, ◌^◌, ◌≤◌, min, none, some, ltb, leb, if◌then◌else◌, ◌≡◌, sym, inl, inr,
  Bool-cases, arith,
}
use rwx.Retry.{Backoff, backoff_interval, record_failure}

backoff_interval_bounds :
    (m n i : ℕ) → i ≤ m → (i ≤ backoff_interval m n i) × (backoff_interval m n i ≤ m)
unfolding backoff_interval
backoff_interval_bounds m zero i h = omega arith
backoff_interval_bounds m (suc n) i h = ground (arith, backoff_interval_bounds m n (i * 2))

scale : (i n : ℕ) → i * 2 ^ suc n ≡ i * 2 * 2 ^ n
scale i n = rw (pow-succ' 2 n) (sym (mul_assoc i 2 (2 ^ n)))

grow : (i n : ℕ) → i ≤ i * 2 ^ n
grow i n = let h : 1 ≤ 2 ^ n = one-le-pow n 2 (omega arith) in grind arith

-- the closed form: doubled for each round, and cut off
pub backoff_interval-min : (m n i : ℕ) → i ≤ m → backoff_interval m n i ≡ min (i * 2 ^ n) m
unfolding backoff_interval
backoff_interval-min m zero i h = omega arith
backoff_interval-min m (suc n) i h = elim (Bool-cases (ltb m (i * 2))) [
  | inl past ↦ ground (arith, scale i n, grow (i * 2) n)
  | inr within ↦ ground (arith, scale i n, backoff_interval-min m n (i * 2))
]

-- `Record` counts the failure. It gives up exactly when that makes `MaxFailures` in a row;
-- otherwise the delay is the initial interval, doubled for every failure before this one, and cut
-- off at the maximum.
pub record_failure_lem :
    (b : Backoff)
    → b.initial_interval ≤ b.max_interval
    → ((record_failure b).0.consecutive_failures ≡ b.consecutive_failures + 1)
      × ((record_failure b).1 ≡ (
          if leb b.max_failures (b.consecutive_failures + 1)
          then none
          else some (min (b.initial_interval * 2 ^ b.consecutive_failures) b.max_interval)))
unfolding record_failure
record_failure_lem b h =
    ground (arith, backoff_interval-min b.max_interval b.consecutive_failures b.initial_interval h)
