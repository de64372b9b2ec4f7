-- ===== src/Prelude/Decimal.antt =====
-- Decimal numbers: `%d`, strconv.Itoa and strconv.Atoi on numbers that are not negative.
use Prim.Native.Nat.{ℕ, zero, suc, ◌+◌, ◌-◌, ◌*◌, ◌/◌, ◌%◌, ◌<◌, ◌≤◌}
use mathlib.Core.Path.{◌≡◌, refl, ◌∙◌}
use mathlib.Core.Bool.{Bool, true, ◌&&◌}
use mathlib.Core.Option.{Option, none, some}
use mathlib.Core.List.{[], ◌∷◌}
use native.Mathlib.Omega.{arith}
use rwx.Prelude.Tests.{ltb, leb, if◌then◌else◌}
use rwx.Prelude.Classes.{Bytes}
use rwx.Prelude.Lists.{all, length}
use rwx.Prelude.Text.{codes}

-- The digits in front of `rest`; each round writes the last one. Fuel above the number is enough.
unfoldable pub digits_onto : ℕ → ℕ → Bytes → Bytes
digits_onto zero n rest = rest
digits_onto (suc fuel) n rest =
    let more = digits_onto fuel (n / 10) ((b'0' + n % 10) ∷ rest) in
    if ltb n 10 then (b'0' + n) ∷ rest else more

unfoldable pub decimal : ℕ → Bytes
unfolding digits_onto
decimal n = digits_onto (suc n) n []

abbrev pub is_digit : ℕ → Bool
is_digit c = leb b'0' c && leb c b'9'

unfoldable pub read_digits : ℕ → Bytes → Option ℕ
read_digits n [] = some n
read_digits n (c ∷ s) = if is_digit c then read_digits (n * 10 + (c - b'0')) s else none

-- Atoi of a text without a sign
unfoldable pub read_decimal : Bytes → Option ℕ
unfolding read_digits
read_decimal [] = none
read_decimal (c ∷ s) = read_digits 0 (c ∷ s)

decimal_runs : decimal 1024 ≡ codes "1024"
unfolding decimal
decimal_runs = refl

digit_step : (n : ℕ) → (n / 10 * 10 + n % 10 ≡ n) × (n % 10 < 10)
digit_step n = (omega arith, omega arith)

div_lt : (n : ℕ) → 10 ≤ n → n / 10 < n
div_lt n h = omega arith

read_digits-digits_onto :
    (fuel n : ℕ) (rest : Bytes)
    → n < fuel
    → read_digits 0 (digits_onto fuel n rest) ≡ read_digits n rest
unfolding digits_onto read_digits
read_digits-digits_onto zero n rest h = ground arith
read_digits-digits_onto (suc fuel) n rest h =
    ground (
      arith,
      div_lt n,
      digit_step n,
      read_digits-digits_onto fuel (n / 10) ((b'0' + n % 10) ∷ rest),
    )

all_digits :
    (fuel n : ℕ) (rest : Bytes)
    → n < fuel
    → all is_digit rest ≡ true
    → all is_digit (digits_onto fuel n rest) ≡ true
unfolding digits_onto
all_digits zero n rest h k = ground arith
all_digits (suc fuel) n rest h k =
    ground (arith, div_lt n, digit_step n, all_digits fuel (n / 10) ((b'0' + n % 10) ∷ rest))

-- The decimal digits of a number are digits, and there is one at least.
pub decimal-is_digit : (n : ℕ) → all is_digit (decimal n) ≡ true
unfolding decimal
decimal-is_digit n = all_digits (suc n) n [] (omega arith) refl

digits_onto-nonempty : (fuel n : ℕ) (rest : Bytes) → length rest ≤ length (digits_onto fuel n rest)
unfolding digits_onto
digits_onto-nonempty zero n rest = omega arith
digits_onto-nonempty (suc fuel) n rest =
    ground (arith, digits_onto-nonempty fuel (n / 10) ((b'0' + n % 10) ∷ rest))

pub length-decimal : (n : ℕ) → 0 < length (decimal n)
unfolding decimal digits_onto
length-decimal n = ground (arith, digits_onto-nonempty n (n / 10) ((b'0' + n % 10) ∷ []))

read_decimal-digits : (s : Bytes) → 0 < length s → read_decimal s ≡ read_digits 0 s
unfolding read_decimal
read_decimal-digits [] h = ground arith
read_decimal-digits (c ∷ s) h = refl

-- What is written is read back.
pub read_decimal-decimal : (n : ℕ) → read_decimal (decimal n) ≡ some n
unfolding decimal read_digits
read_decimal-decimal n =
    read_decimal-digits (decimal n) (length-decimal n)
    ∙ read_digits-digits_onto (suc n) n [] (omega arith)
