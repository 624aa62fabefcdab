-- ===== src/Numeric/Doubles.antt =====
-- Doubles, where a difference of two amounts is compared with a limit that it is equal to as a decimal. A
-- double is its value in units of 2⁻⁸⁰, which is a whole number for all doubles from 2⁻²⁸ up to 2⁵³: an
-- amount of one unit of 10⁻⁸ is above 2⁻²⁷.
use Prim.Native.Nat.{ℕ, zero, suc, ◌+◌, ◌-◌, ◌*◌, ◌/◌, ◌%◌, ◌^◌}
use api_bloxfi.Prelude.{if◌then◌else◌, ltb, true, false, ◌≡◌, refl}

abbrev fine : ℕ
fine = 2 ^ 80

-- How many of at most `k` binary places the double nearest to `n / d` has, with 53 binary digits in all.
unfoldable places : ℕ → ℕ → ℕ → ℕ
places zero n d = zero
places (suc k) n d =
    let rest = places k n d in if ltb (n * 2 ^ suc k) (2 ^ 53 * d) then suc k else rest

-- The whole number nearest to `n / d`, of two the even one.
unfoldable rounded_quotient : ℕ → ℕ → ℕ
rounded_quotient n d =
    let q = n / d in
    let twice = 2 * (n % d) in if ltb twice d then q else if ltb d twice then suc q else q + q % 2

-- The double nearest to `n / d`.
unfoldable pub nearest_double : ℕ → ℕ → ℕ
unfolding places rounded_quotient
nearest_double n d = let k = places 80 n d in rounded_quotient (n * 2 ^ k) d * 2 ^ (80 - k)

-- `a - b`, for doubles with `b` at most `a`.
unfoldable pub minus_doubles : ℕ → ℕ → ℕ
unfolding nearest_double
minus_doubles a b = nearest_double (a - b) fine

-- `a + b`
unfoldable pub plus_doubles : ℕ → ℕ → ℕ
unfolding nearest_double
plus_doubles a b = nearest_double (a + b) fine

-- The source's 4.35 - 3.35 is less than 1, its 10 - 9 is not.
below_one :
    ltb (minus_doubles (nearest_double 435 100) (nearest_double 335 100)) (nearest_double 1 1)
    ≡ true
unfolding minus_doubles nearest_double places rounded_quotient
below_one = refl

exactly_one :
    ltb (minus_doubles (nearest_double 1000 100) (nearest_double 900 100)) (nearest_double 1 1)
    ≡ false
unfolding minus_doubles nearest_double places rounded_quotient
exactly_one = refl

-- The source's 100.01 - 100 is more than 0.01.
above_cent :
    ltb (nearest_double 1 100) (minus_doubles (nearest_double 10001 100) (nearest_double 100 1))
    ≡ true
unfolding minus_doubles nearest_double places rounded_quotient
above_cent = refl
