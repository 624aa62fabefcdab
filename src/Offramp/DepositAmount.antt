-- ===== src/Offramp/DepositAmount.antt =====
-- core/offramps/offrampDepositAmount.ts: what a deposit webhook credits, what an offramp expects, and
-- when the deposit is complete. Amounts are whole numbers of units of 10⁻⁸; the callers have checked
-- that they are finite and not negative, so they are natural numbers here.
pub mod Laws
use api_bloxfi.Prelude.{
  ℕ, zero, suc, ◌+◌, ◌-◌, ◌/◌, String, Bool, true, false, ◌&&◌, ◌||◌, Option, none, some,
  if◌then◌else◌, leb, ltb, nat_eq, ◌==◌, ◌>>=◌, otherwise,
}
use api_bloxfi.Text.{trim, to_upper}
use api_bloxfi.Numeric.{Number, units, minus, not_finite, parse_number}
use api_bloxfi.Numeric.Doubles.{nearest_double, minus_doubles}
use api_bloxfi.Json.{Value, num, str, Fields, get, as_record, record_or_empty}

-- `Math.round(amount * 100) / 100`, in cents.
unfoldable pub round_offramp_crypto_amount : ℕ → ℕ
round_offramp_crypto_amount amount = (amount + 500000) / 1000000

abbrev pub is_tolerant_asset : String → Bool
is_tolerant_asset asset = asset == "USDT" || (asset == "USDC" || asset == "USD")

-- In cents.
unfoldable pub underpayment_tolerance_for_asset : String → ℕ
unfolding trim to_upper
underpayment_tolerance_for_asset asset =
    if trim asset == "" then 0 else if is_tolerant_asset (to_upper (trim asset)) then 100 else 0

-- `Number.isFinite(n) && n >= 0`
abbrev pub as_amount : Number → Option ℕ
as_amount (units n) = some n
as_amount (minus n) = none
as_amount not_finite = none

-- `Number.isFinite(n) && n > 0`
abbrev pub as_positive : Number → Option ℕ
as_positive (units zero) = none
as_positive (units (suc n)) = some (suc n)
as_positive (minus n) = none
as_positive not_finite = none

abbrev pub number_from_text : String → Number
number_from_text s = if trim s == "" then not_finite else parse_number (trim s)

abbrev pub amount_from : Value → Option ℕ
amount_from (num n) = as_amount n
amount_from (str s) = as_amount (number_from_text s)
amount_from _ = none

abbrev pub positive_from : Value → Option ℕ
positive_from (num n) = as_positive n
positive_from (str s) = as_positive (number_from_text s)
positive_from _ = none

abbrev pub positive_from_text : Value → Option ℕ
positive_from_text (str s) = as_positive (number_from_text s)
positive_from_text _ = none

unfoldable pub parse_deposit_webhook_amount : Fields → Option ℕ
parse_deposit_webhook_amount deposit = amount_from (get "amount" deposit)

abbrev pub first_of_two : Option ℕ → Option ℕ → Option ℕ
first_of_two none second = second
first_of_two (some n) second = some n

-- The quoted amount of the source, or that of the deposit instructions.
unfoldable pub expected_offramp_crypto_amount : Value → Value → Option ℕ
expected_offramp_crypto_amount source deposit_instructions =
    first_of_two (as_record source >>= λ src. positive_from (get "amount" src))
      (as_record deposit_instructions >>= λ di. positive_from_text (get "amount" di))

unfoldable pub prior_crypto_received_amount : Value → ℕ
prior_crypto_received_amount timeline =
    otherwise 0 (amount_from (get "cryptoReceivedAmount" (record_or_empty timeline)))

-- `shortfall < tolerance`, in cents. Where they are equal as decimals, the difference of doubles decides.
unfoldable pub is_below_tolerance : ℕ → ℕ → ℕ → Bool
is_below_tolerance expected received tolerance =
    ltb (expected - received) tolerance
    || (nat_eq (expected - received) tolerance
        && ltb (minus_doubles (nearest_double expected 100) (nearest_double received 100))
            (nearest_double tolerance 100))

unfoldable pub is_offramp_crypto_deposit_complete : ℕ → ℕ → String → Bool
unfolding round_offramp_crypto_amount
is_offramp_crypto_deposit_complete cumulative expected asset =
    let received_cents = round_offramp_crypto_amount cumulative in
    let expected_cents = round_offramp_crypto_amount expected in
    let tolerance = underpayment_tolerance_for_asset asset in
    if leb expected 0
    then false
    else if leb expected_cents received_cents
    then true
    else ltb 0 tolerance && is_below_tolerance expected_cents received_cents tolerance
