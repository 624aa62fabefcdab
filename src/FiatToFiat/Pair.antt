-- ===== src/FiatToFiat/Pair.antt =====
-- core/fiatToFiat/internalSettlement.ts: is an offramp the funded leg of an onramp
-- (`checkFiatToFiatPair`)? Of config/fiatToFiat.ts it has the name of the flow. Amounts are units of
-- 10⁻⁸; at exactly a cent of difference, the doubles of the source decide.
pub mod Laws
use api_bloxfi.Prelude.{
  ℕ, suc, ◌+◌, ◌-◌, String, Bool, true, false, not, ◌&&◌, ◌||◌, Option, none, some, if◌then◌else◌,
  ltb, leb, nat_eq, ◌==◌, Verdict, pass, refuse, refuse_if,
}
use api_bloxfi.Text.{trim, to_upper, to_lower, is_set}
use api_bloxfi.Numeric.{Number, units, minus, not_finite, one, parse_number}
use api_bloxfi.Numeric.Doubles.{nearest_double, minus_doubles, plus_doubles}
use api_bloxfi.Json.{Value, num, str, Fields, get, record_or_empty, text_at}
use api_bloxfi.TxnRef.{after_prefix, hex_run}
use api_bloxfi.Offramp.DepositAmount.{prior_crypto_received_amount, expected_offramp_crypto_amount}
use api_bloxfi.Ramp.Status.{OfframpStatus, awaiting_crypto}
use api_bloxfi.Ramp.Store.{OnrampRow, OfframpRow}
use api_bloxfi.Ramp.Expiry.{Clock, is_deposit_past_due}

abbrev pub fiat_to_fiat_flow : String
fiat_to_fiat_flow = "FIAT_TO_FIAT"

abbrev pub is_fiat_to_fiat_flow : String → Bool
is_fiat_to_fiat_flow flow = flow == fiat_to_fiat_flow

-- The statuses of `SETTLEABLE_OFFRAMP_STATUSES`.
abbrev pub is_settleable : OfframpStatus → Bool
is_settleable awaiting_crypto = true
is_settleable OfframpStatus.crypto_pending = true
is_settleable _ = false

-- `AMOUNT_TOLERANCE`
abbrev pub amount_tolerance : ℕ
amount_tolerance = 1000000

abbrev finite_only : Number → Option Number
finite_only (units n) = some (units n)
finite_only (minus n) = some (minus n)
finite_only not_finite = none

-- `num(v)`
abbrev pub finite_number : Value → Option Number
finite_number (num n) = finite_only n
finite_number (str s) = finite_only (parse_number (trim s))
finite_number _ = none

-- `/^0x[0-9a-f]{40}$/i`
unfoldable pub is_evm_address : String → Bool
is_evm_address s = after_prefix "0x" (hex_run 40) (to_lower s)

unfoldable pub same_address : String → String → Bool
same_address a b =
    if not (is_set a && is_set b)
    then false
    else if is_evm_address a && is_evm_address b
    then to_lower a == to_lower b
    else a == b

-- `Math.abs(amount - expected)`, in units.
abbrev pub distance : Number → ℕ → ℕ
distance (units a) e = (a - e) + (e - a)
distance (minus n) e = suc n + e
distance not_finite e = 0

-- The same difference of doubles, for amounts that are exactly `AMOUNT_TOLERANCE` apart.
unfoldable pub double_distance : Number → ℕ → ℕ
double_distance (units a) e =
    let x = nearest_double a one in
    let y = nearest_double e one in if leb e a then minus_doubles x y else minus_doubles y x
double_distance (minus n) e = plus_doubles (nearest_double (suc n) one) (nearest_double e one)
double_distance not_finite e = 0

-- `Math.abs(amount - expected) > AMOUNT_TOLERANCE`
unfoldable pub is_apart : Number → ℕ → Bool
is_apart a e =
    ltb amount_tolerance (distance a e)
    || (nat_eq (distance a e) amount_tolerance
        && ltb (nearest_double amount_tolerance one) (double_distance a e))

unfoldable pub compare_amounts : Option Number → Option ℕ → Verdict String Number
compare_amounts none expected = refuse "amount_missing"
compare_amounts (some a) none = refuse "amount_missing"
compare_amounts (some a) (some e) = refuse_if (is_apart a e) "amount_mismatch" (pass a)

abbrev pub flow_of : Value → String
flow_of v = text_at "flow" (record_or_empty v)

unfoldable pub check_fiat_to_fiat_pair : Clock → OnrampRow → OfframpRow → Verdict String Number
check_fiat_to_fiat_pair c n o =
    let dest = record_or_empty n.destination in
    let di = record_or_empty o.deposit_instructions in
    let by = c.read_date (text_at "depositBy" di) in
    let expected = expected_offramp_crypto_amount o.source o.deposit_instructions in
    let wallet = text_at "walletAddress" dest in
    refuse_if (not (is_fiat_to_fiat_flow (flow_of n.quote_information))) "onramp_not_fiat_to_fiat" (
      refuse_if (not (is_fiat_to_fiat_flow (flow_of o.rate_information))) "offramp_not_fiat_to_fiat"
        (refuse_if (not (n.user_id == o.user_id)) "different_business" (
          refuse_if (not (is_settleable o.status)) "offramp_not_awaiting_crypto" (
            refuse_if (ltb 0 (prior_crypto_received_amount o.timeline))
              "offramp_already_received_crypto"
              (refuse_if (not (same_address wallet (text_at "address" di))) "address_mismatch" (
                refuse_if
                  (not (to_upper (text_at "currency" dest) == to_upper (text_at "currency" di)))
                  "asset_mismatch"
                  (refuse_if
                    (not (to_upper (text_at "chain" dest) == to_upper (text_at "network" di)))
                    "network_mismatch"
                    (refuse_if (not (text_at "memo" dest == text_at "memo" di)) "memo_mismatch" (
                      refuse_if (is_deposit_past_due c by) "offramp_deposit_window_closed"
                        (compare_amounts (finite_number (get "amount" dest)) expected))))))))))
