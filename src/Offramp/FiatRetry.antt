-- ===== src/Offramp/FiatRetry.antt =====
-- core/offramps/offrampFiatRetry.ts: what an operator may do about a fiat payout that failed.
pub mod Laws
use api_bloxfi.Prelude.{
  String, Bool, true, false, not, ◌&&◌, ◌||◌, if◌then◌else◌, ◌==◌, ℕ, Option, none, some,
}
use Prim.Native.String.{◌++◌ as cat}
use api_bloxfi.Text.{trim, to_lower, is_set, or_else}
use api_bloxfi.Json.{Value, get, record_or_empty, text_at, is_true}
use api_bloxfi.Ramp.Status.{OfframpStatus, crypto_confirmed}

pub data RetryDecision : Type 0 where
  handoff : RetryDecision
  reissue already_initiated : (withdrawal_id : String) → RetryDecision
  reject : (code message : String) (status_code : ℕ) → RetryDecision

unfoldable pub offramp_fiat_withdrawal_id : Value → Value → String
unfolding trim
offramp_fiat_withdrawal_id timeline provider_refs =
    let refs = record_or_empty provider_refs in
    or_else (text_at "fiatWithdrawalId" (record_or_empty timeline))
      (text_at "palremitWithdrawalId" (record_or_empty (get "palremitOrchestrator" refs)))

unfoldable pub stored_withdrawal_status : Value → String
stored_withdrawal_status provider_refs =
    let orch = record_or_empty (get "palremitOrchestrator" (record_or_empty provider_refs)) in
    to_lower (text_at "withdrawalStatus" orch)

abbrev pub is_crypto_confirmed : OfframpStatus → Bool
is_crypto_confirmed crypto_confirmed = true
is_crypto_confirmed _ = false

unfoldable pub can_retry_offramp_handoff : OfframpStatus → Value → Value → Bool
can_retry_offramp_handoff status timeline provider_refs =
    is_crypto_confirmed status
    && (not (is_true (get "fiatWithdrawalCompleted" (record_or_empty timeline)))
        && not (is_set (offramp_fiat_withdrawal_id timeline provider_refs)))

abbrev pub lp_in_flight : String → Bool
lp_in_flight s = s == "pending" || (s == "processing")

abbrev pub lp_reissueable : String → Bool
lp_reissueable s = s == "failed" || (s == "refunded")

abbrev text_or_none : Option String → String
text_or_none none = ""
text_or_none (some s) = s

unfoldable pub normalize_lp_state : Option String → String
normalize_lp_state value = to_lower (trim (text_or_none value))

unfoldable pub can_reissue_offramp_fiat_payout : String → Option String → Option String → Bool
can_reissue_offramp_fiat_payout withdrawal_id lp_state stored =
    let live = normalize_lp_state lp_state in
    if not (is_set withdrawal_id)
    then false
    else if lp_reissueable live
    then true
    else if live == "successful" || lp_in_flight live
    then false
    else lp_reissueable (normalize_lp_state stored)

unfoldable pub decide_offramp_fiat_retry : String → Option String → RetryDecision
decide_offramp_fiat_retry withdrawal_id lp_state =
    let wd = trim withdrawal_id in
    let state = normalize_lp_state lp_state in
    if not (is_set wd)
    then handoff
    else if state == "successful"
    then reject "PAYOUT_ALREADY_COMPLETED" "Fiat payout is already successful at Palremit" 409
    else if lp_in_flight state
    then reject "PAYOUT_IN_PROGRESS"
        "Fiat payout is still processing at Palremit and cannot be retried" 409
    else if lp_reissueable state
    then reissue wd
    else if not (is_set state)
    then reject "PAYOUT_STATUS_UNKNOWN"
        "Could not load the Palremit payout to decide retry vs reissue" 422
    else reject "PAYOUT_NOT_RETRIABLE"
        (cat "Palremit payout is " (cat state " and cannot be retried")) 422
