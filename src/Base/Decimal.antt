-- ===== src/Base/Decimal.antt =====
-- Python's format of a natural number: `str(n)`, and `f"{n:06d}"`, padded with zeros to six digits.
use Prim.Native.Char.{Char}
use Prim.Native.String.{count}
use breakroom.Base.{ℕ, zero, suc, ◌-◌, ◌/◌, ◌%◌, String, ◌=ℕ=◌, if◌then◌else◌}

unfoldable pub digit : ℕ → Char
digit d =
    if d =ℕ= 0
    then "0"
    else if d =ℕ= 1
    then "1"
    else if d =ℕ= 2
    then "2"
    else if d =ℕ= 3
    then "3"
    else if d =ℕ= 4
    then "4"
    else if d =ℕ= 5
    then "5"
    else if d =ℕ= 6
    then "6"
    else if d =ℕ= 7
    then "7"
    else if d =ℕ= 8
    then "8"
    else "9"

-- The digits of `n` in front of `out`; the fuel is a bound on their number.
unfoldable pub digits_onto : ℕ → ℕ → String → String
digits_onto zero n out = out
digits_onto (suc fuel) n out =
    let rest = digits_onto fuel (n / 10) (String.◌∷◌ (digit (n % 10)) out) in
    if n =ℕ= 0 then out else rest

unfoldable pub decimal : ℕ → String
unfolding digits_onto digit
decimal n = if n =ℕ= 0 then "0" else digits_onto n n ""

unfoldable pub zeros_onto : ℕ → String → String
zeros_onto zero s = s
zeros_onto (suc n) s = String.◌∷◌ (digit 0) (zeros_onto n s)

-- `f"{n:06d}"`
unfoldable pub format_06d : ℕ → String
unfolding decimal zeros_onto digit
format_06d n = zeros_onto (6 - count (decimal n)) (decimal n)
