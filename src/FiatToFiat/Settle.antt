-- ===== src/FiatToFiat/Settle.antt =====
-- core/fiatToFiat/internalSettlement.ts (`trySettleFiatToFiatInternally`): the crypto leg of an onramp is
-- closed inside the service when exactly one offramp matches it. The dependencies are those of
-- core/fiatToFiat/settler.ts: the repositories, the start of a fee settlement and the payout of the
-- offramp. `now` is the clock's, and log lines are left out.
pub mod Laws
pub mod Answer
pub mod Funded
use api_bloxfi.Prelude.{
  ℕ, String, Bool, true, false, Option, none, some, List, [], ◌∷◌, if◌then◌else◌, ◌>>=◌, ◌>>◌,
  require, otherwise, Verdict, pass, refuse,
}
use api_bloxfi.Text.{to_upper, is_set}
use api_bloxfi.Numeric.{Number, units}
use api_bloxfi.Json.{
  Value, null, bool, num, str, obj, Fields, end, get, object, spread, record_or_empty, text_at,
}
use api_bloxfi.Offramp.DepositAmount.{expected_offramp_crypto_amount}
use api_bloxfi.Ramp.Status.{OnrampStatus}
use api_bloxfi.Ramp.Store.{
  World, OnrampRow, OfframpRow, OnrampPatch, no_onramp_patch, automatic, FeeJob, onramp_fee,
  find_offramp_by_txn_ref, update_onramp_status,
}
use api_bloxfi.Ramp.Expiry.{Clock}
use api_bloxfi.Webhook.Repos.{get_palremit_orchestrator, orch_fields, orchestrator_refs}
use api_bloxfi.Webhook.Withdrawal.{start_fee_job}
use api_bloxfi.Payout.Offramp.{PayoutDeps, advance_offramp_if_deposit_ready}
use api_bloxfi.Payout.Onramp.{is_fiat_processed}
use api_bloxfi.FiatToFiat.Pair.{
  is_fiat_to_fiat_flow, is_settleable, flow_of, check_fiat_to_fiat_pair,
}
use api_bloxfi.FiatToFiat.Claim.{
  ClaimUpdates, find_open_offramps_by_deposit_address, claim_offramp_crypto,
}

-- `FIAT_TO_FIAT_CONFIG.internalSettlement`
abbrev pub internal_settlement : Bool
internal_settlement = true

abbrev pub Match : Type 0
Match = OfframpRow × Number

abbrev pub add_match : OfframpRow → Verdict String Number → List Match → List Match
add_match o (pass a) rest = (o, a) ∷ rest
add_match o (refuse reason) rest = rest

-- The candidates that pass the check, with the amounts.
unfoldable pub matches : Clock → OnrampRow → List OfframpRow → List Match
matches c row [] = []
matches c row (o ∷ rest) = add_match o (check_fiat_to_fiat_pair c row o) (matches c row rest)

abbrev as_list : Option OfframpRow → List OfframpRow
as_list none = []
as_list (some o) = o ∷ []

-- An explicit link (`destination.offrampId`) names the one offramp; otherwise the deposit address does.
unfoldable pub candidates : OnrampRow → World → List OfframpRow
candidates row w =
    let dest = record_or_empty row.destination in
    let linked = text_at "offrampId" dest in
    if is_set linked
    then as_list (find_offramp_by_txn_ref linked w)
    else find_open_offramps_by_deposit_address row.user_id (text_at "walletAddress" dest) w

-- No pair for two matches: the source does not guess which.
abbrev pub only_match : List Match → Option Match
only_match (m ∷ []) = some m
only_match _ = none

unfoldable pub settlement_pair : Clock → OnrampRow → World → Option Match
settlement_pair c row w = do
  require internal_settlement
  txn_ref ← row.txn_ref
  require (is_set txn_ref)
  require (is_fiat_processed row.status)
  require (is_fiat_to_fiat_flow (flow_of row.quote_information))
  require (is_set (text_at "walletAddress" (record_or_empty row.destination)))
  only_match (matches c row (candidates row w))

abbrev ref_value : Option String → Value
ref_value none = null
ref_value (some s) = str s

-- The record of the settlement that both rows keep.
abbrev settlement_of : String → OnrampRow → OfframpRow → Number → Value
settlement_of at row o amount =
    let dest = record_or_empty row.destination in
    obj (
      object (
        ("method", str "internal")
        ∷ ("onrampTxnRef", ref_value row.txn_ref)
        ∷ ("offrampTxnRef", ref_value o.txn_ref)
        ∷ ("amount", num amount)
        ∷ ("currency", str (to_upper (text_at "currency" dest)))
        ∷ ("network", str (to_upper (text_at "chain" dest)))
        ∷ ("address", str (text_at "walletAddress" dest))
        ∷ ("settledAt", str at)
        ∷ []))

abbrev expected_or : Number → Option ℕ → Number
expected_or amount none = amount
expected_or amount (some e) = units e

-- What the claim writes to the offramp.
unfoldable pub claim_updates : String → OnrampRow → OfframpRow → Number → ClaimUpdates
claim_updates at row o amount =
    let expected =
      expected_or amount (expected_offramp_crypto_amount o.source o.deposit_instructions) in
    let settlement = settlement_of at row o amount in
    let orch = orch_fields (get_palremit_orchestrator o.provider_refs) in
    record {
      timeline = obj (
          spread (record_or_empty o.timeline) (
            object (
              ("cryptoReceivedAmount", num amount)
              ∷ ("cryptoExpectedAmount", num expected)
              ∷ ("lastDepositCreditedAt", str at)
              ∷ ("cryptoConfirmedAt", str at)
              ∷ ("fiatToFiatSettlement", settlement)
              ∷ [])));
      provider_refs = obj (
          object (
            (
              "palremitOrchestrator",
              obj (
                  spread orch (
                    object (
                      ("depositStatus", str "credited")
                      ∷ ("cryptoReceivedAmount", num amount)
                      ∷ ("cryptoExpectedAmount", num expected)
                      ∷ []))),
            )
            ∷ ("fiatToFiatSettlement", settlement)
            ∷ []));
      receipt =
          obj (object (("provider", str "internal") ∷ ("fiatToFiatSettlement", settlement) ∷ []));
    }

-- What is written to the onramp with COMPLETED.
unfoldable pub settled_patch : String → OnrampRow → OfframpRow → Number → OnrampPatch
settled_patch at row o amount =
    let settlement = settlement_of at row o amount in
    let orch = orch_fields (get_palremit_orchestrator row.provider_refs) in
    record no_onramp_patch {
      failed_reason = some none;
      receipt = some (
          obj (
            object (
              ("provider", str "internal")
              ∷ ("txnRef", ref_value row.txn_ref)
              ∷ ("completedAt", str at)
              ∷ ("awaitingWebhookConfirmation", bool false)
              ∷ ("fiatToFiatSettlement", settlement)
              ∷ [])));
      provider_refs = some (
          obj (
            object (
              (
                "palremitOrchestrator",
                obj (
                    spread orch (
                      object (
                        ("withdrawalStatus", str "settled_internally")
                        ∷ ("completedAt", str at)
                        ∷ []))),
              )
              ∷ ("fiatToFiatSettlement", settlement)
              ∷ [])));
    }

-- If the update of the onramp throws, the call ends there, with the claim written.
abbrev pub finish_settlement : Clock → PayoutDeps → String → String → World → Option World → World
finish_settlement c fiat onramp_id offramp_id w none = w
finish_settlement c fiat onramp_id offramp_id w (some v) =
    advance_offramp_if_deposit_ready c.now_text fiat offramp_id
      (start_fee_job (onramp_fee onramp_id) v)

-- The onramp is completed, its fee settlement started, and then the payout of the offramp.
unfoldable pub after_claim : Clock → PayoutDeps → OnrampRow → Match → World → World
after_claim c fiat row m w = finish_settlement c fiat row.id m.0.id w (
    update_onramp_status c.now_text automatic row.id OnrampStatus.completed
      (settled_patch c.now_text row m.0 m.1) w)

-- `none` where the offramp could not be claimed.
unfoldable pub settle_pair : Clock → PayoutDeps → OnrampRow → Match → World → Option World
settle_pair c fiat row m w = do
  claimed ← claim_offramp_crypto m.0.id is_settleable (claim_updates c.now_text row m.0 m.1) w
  some (after_claim c fiat row m claimed)

abbrev pub settle_answer : World → Option World → Bool × World
settle_answer w none = (false, w)
settle_answer w (some v) = (true, v)

-- The answer true tells the caller not to send the crypto on a chain.
unfoldable pub try_settle_fiat_to_fiat_internally :
    Clock → PayoutDeps → OnrampRow → World → Bool × World
try_settle_fiat_to_fiat_internally c fiat row w =
    settle_answer w (settlement_pair c row w >>= λ m. settle_pair c fiat row m w)
