-- ===== src/Prelude/Decimal.antt =====
-- `std::to_string` of an integer: its decimal digits.
use Prim.Native.Nat.{ℕ, zero, suc, ◌/◌, ◌%◌}
use Prim.Native.String.{String, ◌++◌}
use mathlib.Core.Path.{◌≡◌, refl}
use fronius_bridge.Prelude.Tests.{nat_beq, ltb, if◌then◌else◌}
use fronius_bridge.Prelude.Int.{ℤ, pos, negsuc}

digit : ℕ → String
digit n =
    if nat_beq n 0
    then "0"
    else if nat_beq n 1
    then "1"
    else if nat_beq n 2
    then "2"
    else if nat_beq n 3
    then "3"
    else if nat_beq n 4
    then "4"
    else if nat_beq n 5
    then "5"
    else if nat_beq n 6
    then "6"
    else if nat_beq n 7
    then "7"
    else if nat_beq n 8
    then "8"
    else "9"

-- A number has no more digits than its value plus one, which is the fuel.
digits_of : ℕ → ℕ → String
digits_of zero n = ""
digits_of (suc fuel) n =
    let front = digits_of fuel (n / 10) ++ digit (n % 10) in if ltb n 10 then digit n else front

unfoldable pub to_string : ℤ → String
unfolding digits_of digit
to_string (pos n) = digits_of (suc n) n
to_string (negsuc n) = "-" ++ digits_of (suc (suc n)) (suc n)

prints : (to_string (pos 502) ≡ "502") × (to_string (negsuc 0) ≡ "-1")
unfolding to_string
prints = (refl, refl)
