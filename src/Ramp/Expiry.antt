-- ===== src/Ramp/Expiry.antt =====
-- core/ramps/depositExpiry.ts: ramps that wait for a deposit expire when the deposit window is over.
-- Times are milliseconds; the reading of a date text by the language's `Date` is the field
-- `read_date`, `none` where the result is not a date.
pub mod Sweep
pub mod Laws
use api_bloxfi.Prelude.{
  ℕ, suc, String, Bool, true, false, not, Option, none, some, List, [], ◌∷◌, if◌then◌else◌, leb,
  ◌==◌, ◌>>=◌, ◌>>◌, require, or_try, otherwise,
}
use api_bloxfi.Text.{trim, is_set}
use api_bloxfi.Json.{Value, str, Fields, get, as_record, or_default}
use api_bloxfi.Ramp.Status.{OnrampStatus, OfframpStatus, awaiting_funds, awaiting_crypto}
use api_bloxfi.Ramp.Store.{
  World, OnrampRow, OfframpRow, automatic, no_onramp_patch, no_offramp_patch, update_onramp_status,
  update_offramp_status,
}

pub record Clock : Type 0 where
  pub now : ℕ
  pub now_text : String
  pub read_date : String → Option ℕ

abbrev pub deposit_expired_reason : String
deposit_expired_reason = "Deposit window expired"

abbrev date_of : Clock → Value → Option ℕ
date_of c (str s) = if trim s == "" then none else c.read_date (trim s)
date_of c _ = none

unfoldable pub parse_deposit_deadline_from_object : Clock → Value → Option ℕ
parse_deposit_deadline_from_object c v = do
  o ← as_record v
  date_of c (or_default (get "expiresAt" o) (get "depositBy" o))

unfoldable pub parse_deposit_deadline : Clock → List Value → Option ℕ
unfolding parse_deposit_deadline_from_object
parse_deposit_deadline c [] = none
parse_deposit_deadline c (v ∷ rest) =
    or_try (parse_deposit_deadline_from_object c v) (parse_deposit_deadline c rest)

unfoldable pub extract_onramp_deposit_deadline : Clock → OnrampRow → Option ℕ
unfolding parse_deposit_deadline
extract_onramp_deposit_deadline c r =
    parse_deposit_deadline c (r.deposit_info ∷ r.quote_information ∷ [])

unfoldable pub extract_offramp_deposit_deadline : Clock → OfframpRow → Option ℕ
unfolding parse_deposit_deadline
extract_offramp_deposit_deadline c r =
    parse_deposit_deadline c (r.deposit_instructions ∷ r.rate_information ∷ [])

abbrev pub is_deposit_past_due : Clock → Option ℕ → Bool
is_deposit_past_due c none = false
is_deposit_past_due c (some deadline) = leb deadline c.now

abbrev pub should_expire_onramp_status : OnrampStatus → Bool
should_expire_onramp_status awaiting_funds = true
should_expire_onramp_status _ = false

abbrev pub should_expire_offramp_status : OfframpStatus → Bool
should_expire_offramp_status awaiting_crypto = true
should_expire_offramp_status _ = false

abbrev onramp_is_expired : OnrampStatus → Bool
onramp_is_expired OnrampStatus.expired = true
onramp_is_expired _ = false

abbrev offramp_is_expired : OfframpStatus → Bool
offramp_is_expired OfframpStatus.expired = true
offramp_is_expired _ = false

-- The returned flag says that the function returned EXPIRED, and not null.
unfoldable pub expire_onramp_if_deposit_past_due : Clock → OnrampRow → World → Option (Bool × World)
unfolding extract_onramp_deposit_deadline
expire_onramp_if_deposit_past_due c r w =
    let patch = record no_onramp_patch { failed_reason = some (some deposit_expired_reason) } in
    let due = is_deposit_past_due c (extract_onramp_deposit_deadline c r) in
    if onramp_is_expired r.status
    then some (true, w)
    else if not (should_expire_onramp_status r.status)
    then some (false, w)
    else if not due
    then some (false, w)
    else update_onramp_status c.now_text automatic r.id OnrampStatus.expired patch w >>= λ w'.
        some (true, w')

unfoldable pub expire_offramp_if_deposit_past_due :
    Clock → OfframpRow → World → Option (Bool × World)
unfolding extract_offramp_deposit_deadline
expire_offramp_if_deposit_past_due c r w =
    let patch = record no_offramp_patch { failed_reason = some (some deposit_expired_reason) } in
    let due = is_deposit_past_due c (extract_offramp_deposit_deadline c r) in
    if offramp_is_expired r.status
    then some (true, w)
    else if not (should_expire_offramp_status r.status)
    then some (false, w)
    else if not due
    then some (false, w)
    else update_offramp_status c.now_text automatic r.id OfframpStatus.expired patch w >>= λ w'.
        some (true, w')
