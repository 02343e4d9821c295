-- ===== src/Shared/Digits.antt =====
-- Reading back what strconv.Itoa prints.
use Prim.Native.Nat.{ℕ, zero, suc, ◌+◌, ◌/◌, ◌%◌, ◌≤◌, ◌<◌}
use mathlib.Core.Path.{◌≡◌}
use mathlib.Core.Bool.{Bool, true, false}
use mathlib.Core.Option.{some}
use mathlib.Core.List.{[], ◌∷◌}
use native.Mathlib.Omega.{arith}
use ooblivion.Shared.Tests.{leb}
use ooblivion.Shared.Int.{pos, max_int64}
use ooblivion.Shared.Strings.{Str}
use ooblivion.Shared.Decimal.{digits_onto, itoa_ℕ, itoa, digits_value, parse_digits, atoi}

digits_value-digits_onto :
    (fuel n : ℕ) (out : Str)
    → n < fuel
    → digits_value 0 (digits_onto fuel n out) ≡ digits_value n out
unfolding digits_onto digits_value
digits_value-digits_onto zero n out h = ground arith
digits_value-digits_onto (suc fuel) n out h =
    ground (arith, digits_value-digits_onto fuel (n / 10) ((48 + n % 10) ∷ out))

-- The first character is a digit, and so no sign.
abbrev starts_with_digit : Str → Bool
starts_with_digit [] = false
starts_with_digit (c ∷ s) = leb 48 c

starts_with_digit-digits_onto :
    (fuel n : ℕ) (out : Str) → n < fuel → starts_with_digit (digits_onto fuel n out) ≡ true
unfolding digits_onto
starts_with_digit-digits_onto zero n out h = ground arith
starts_with_digit-digits_onto (suc fuel) n out h =
    ground (arith, starts_with_digit-digits_onto fuel (n / 10) ((48 + n % 10) ∷ out))

unsigned :
    (s : Str) (n : ℕ)
    → n ≤ max_int64
    → starts_with_digit s ≡ true
    → digits_value 0 s ≡ some n
    → atoi s ≡ (pos n, true)
unfolding atoi parse_digits
unsigned [] n small h e = ground arith
unsigned (c ∷ s) n small h e = ground arith

pub atoi-itoa : (n : ℕ) → n ≤ max_int64 → atoi (itoa (pos n)) ≡ (pos n, true)
unfolding itoa itoa_ℕ
atoi-itoa n small =
    unsigned (digits_onto (suc n) n []) n small
      (starts_with_digit-digits_onto (suc n) n [] (omega arith))
      (unfold digits_value in digits_value-digits_onto (suc n) n [] (omega arith))
