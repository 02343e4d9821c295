-- ===== src/Shared/Decimal.antt =====
-- strconv.Itoa and strconv.Atoi on 64-bit integers.
use Prim.Native.Nat.{ℕ, zero, suc, ◌+◌, ◌-◌, ◌*◌, ◌/◌, ◌%◌}
use mathlib.Core.Bool.{Bool, true, false, ◌&&◌}
use mathlib.Core.Option.{Option, none, some}
use mathlib.Core.List.{[], ◌∷◌}
use ooblivion.Shared.Tests.{ltb, leb, ◌==◌, if◌then◌else◌}
use ooblivion.Shared.Int.{ℤ, pos, negsuc, max_int64}
use ooblivion.Shared.Strings.{Str}

-- The digits of `n` in front of `out`. Each round divides by ten, so fuel `n + 1` is enough.
unfoldable pub digits_onto : ℕ → ℕ → Str → Str
digits_onto zero n out = out
digits_onto (suc fuel) n out =
    let digit = 48 + n % 10 in
    let rest = digits_onto fuel (n / 10) (digit ∷ out) in if ltb n 10 then digit ∷ out else rest

unfoldable pub itoa_ℕ : ℕ → Str
unfolding digits_onto
itoa_ℕ n = digits_onto (suc n) n []

unfoldable pub itoa : ℤ → Str
unfolding itoa_ℕ
itoa (pos n) = itoa_ℕ n
itoa (negsuc n) = b'-' ∷ itoa_ℕ (suc n)

abbrev is_digit : ℕ → Bool
is_digit c = leb 48 c && leb c 57

-- the value of a text of digits behind `acc`; `none` is a character that is no digit
unfoldable pub digits_value : ℕ → Str → Option ℕ
digits_value acc [] = some acc
digits_value acc (c ∷ s) =
    let rest = digits_value (acc * 10 + (c - 48)) s in if is_digit c then rest else none

unfoldable pub parse_digits : Str → Option ℕ
unfolding digits_value
parse_digits [] = none
parse_digits (c ∷ s) = digits_value 0 (c ∷ s)

-- the number, and whether there is no error: 0 at bad syntax, the nearest bound out of range
abbrev at_most : Option ℕ → ℤ × Bool
at_most none = (pos 0, false)
at_most (some n) = if leb n max_int64 then (pos n, true) else (pos max_int64, false)

abbrev at_least : Option ℕ → ℤ × Bool
at_least none = (pos 0, false)
at_least (some zero) = (pos 0, true)
at_least (some (suc n)) = if leb n max_int64 then (negsuc n, true) else (negsuc max_int64, false)

-- strconv.Atoi, and strconv.ParseInt(s, 10, 64)
unfoldable pub atoi : Str → ℤ × Bool
unfolding parse_digits
atoi [] = (pos 0, false)
atoi (c ∷ s) =
    if c == b'-'
    then at_least (parse_digits s)
    else if c == b'+'
    then at_most (parse_digits s)
    else at_most (parse_digits (c ∷ s))
