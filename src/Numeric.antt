-- ===== src/Numeric.antt =====
-- The numbers of the program. An amount is a whole number of units of 10⁻⁸ (eight decimals, the most
-- that the source keeps of a crypto amount), so sums and comparisons are exact; the errors of doubles are
-- modelled where two amounts differ by exactly a limit, by Doubles. A negative amount is `minus n`, for
-- -(n + 1) units; `not_finite` stands for NaN and the infinities. `parse_number` is `Number(text)` on plain
-- decimals: a text with an exponent or a hexadecimal prefix reads as `not_finite`, and decimals past the
-- eighth are cut.
pub mod Doubles
use Prim.Native.Nat.{ℕ, zero, suc, ◌+◌, ◌-◌, ◌*◌, ◌/◌}
use Prim.Native.Char.{code}
use Prim.Native.String.{String, [], ◌∷◌}
use mathlib.Core.Bool.{Bool, true, false, ◌&&◌, ◌||◌}
use mathlib.Core.Option.{Option, none, some}
use api_bloxfi.Prelude.{if◌then◌else◌, leb, nat_eq, ◌==◌, ◌≡◌, refl}
use api_bloxfi.Text.{trim}

pub data Number : Type 0 where
  units : ℕ → Number
  minus : ℕ → Number
  not_finite : Number

-- One unit of an asset.
abbrev pub one : ℕ
one = 100000000

is_digit : ℕ → Bool
is_digit c = leb b'0' c && leb c b'9'

read_fraction : ℕ → ℕ → String → Option ℕ
read_fraction weight acc [] = some acc
read_fraction weight acc (c ∷ s) =
    let rest = read_fraction (weight / 10) (acc + (code c - b'0') * weight) s in
    if is_digit (code c) then rest else none

read_decimal : Bool → ℕ → String → Option ℕ
read_decimal seen acc [] = if seen then some (acc * one) else none
read_decimal seen acc (c ∷ s) =
    let rest = read_decimal true (acc * 10 + (code c - b'0')) s in
    let fraction = read_fraction 10000000 (acc * one) s in
    if is_digit (code c)
    then rest
    else if nat_eq (code c) b'.' && (seen || (if s == "" then false else true))
    then fraction
    else none

-- `-0` is `0`.
negative : Option ℕ → Number
negative none = not_finite
negative (some zero) = units 0
negative (some (suc n)) = minus n

nonnegative : Option ℕ → Number
nonnegative none = not_finite
nonnegative (some n) = units n

signed : String → Number
signed [] = units 0
signed (c ∷ s) =
    if nat_eq (code c) b'-'
    then negative (read_decimal false 0 s)
    else if nat_eq (code c) b'+'
    then nonnegative (read_decimal false 0 s)
    else nonnegative (read_decimal false 0 (c ∷ s))

unfoldable pub parse_number : String → Number
unfolding signed negative nonnegative read_decimal read_fraction is_digit trim
parse_number s = signed (trim s)

parse_runs : parse_number " 12.5 " ≡ units 1250000000
unfolding parse_number
parse_runs = refl

parse_negative : parse_number "-0.00000002" ≡ minus 1
unfolding parse_number
parse_negative = refl

parse_refuses : parse_number "12,5" ≡ not_finite
unfolding parse_number
parse_refuses = refl
