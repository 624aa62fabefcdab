-- ===== src/FiatToFiat/Link.antt =====
-- core/fiatToFiat/offrampLink.ts: an onramp may name the offramp that it funds, and then pays to that
-- offramp's deposit address (`resolveOfframpLink`); and the part of core/onramps/createOnramp.ts that
-- stores such a destination. The messages of the errors are left out, and `findOfframpByTxnRef` and
-- `findLiveOnrampsForOfframp` are those of the repositories.
pub mod Laws
pub mod Settles
use api_bloxfi.Prelude.{
  String, Bool, true, false, not, ◌&&◌, ◌||◌, ℕ, Option, none, some, List, [], ◌∷◌, ◌++◌,
  if◌then◌else◌, ltb, ◌==◌, Verdict, pass, refuse, refuse_if,
}
use api_bloxfi.Text.{trim, to_upper, is_set}
use api_bloxfi.Numeric.{Number}
use api_bloxfi.Json.{Value, num, str, obj, object, record_or_empty, text_at}
use api_bloxfi.Ramp.Store.{World, OfframpRow, find_offramp_by_txn_ref}
use api_bloxfi.Ramp.Expiry.{Clock, is_deposit_past_due}
use api_bloxfi.Offramp.DepositAmount.{prior_crypto_received_amount, expected_offramp_crypto_amount}
use api_bloxfi.FiatToFiat.Pair.{
  is_fiat_to_fiat_flow, is_settleable, is_apart, flow_of, same_address,
}
use api_bloxfi.FiatToFiat.Claim.{find_live_onramps_for_offramp}

pub data LinkError : Type 0 where
  not_found invalid_request conflict : LinkError

pub record LinkQuote : Type 0 where
  pub flow : Option String
  pub to_currency : String
  pub destination_chain : String
  pub receive_net : Number

pub record LinkInput : Type 0 where
  pub offramp_id : String
  pub user_id : String
  pub quote : Option LinkQuote
  pub wallet_address : Option String

pub record OfframpLink : Type 0 where
  pub offramp_id : String
  pub address : String
  pub memo : Option String

abbrev pub has_flow : Option String → Bool
has_flow none = false
has_flow (some flow) = is_fiat_to_fiat_flow flow

abbrev pub is_off : Number → Option ℕ → Bool
is_off net none = true
is_off net (some e) = is_apart net e

abbrev pub is_elsewhere : Option String → String → Bool
is_elsewhere none address = false
is_elsewhere (some wallet) address = not (same_address (trim wallet) address)

abbrev pub is_empty : List (Option String) → Bool
is_empty [] = true
is_empty (t ∷ rest) = false

abbrev pub memo_of : String → Option String
memo_of memo = if memo == "" then none else some memo

-- The checks after the offramp and the quote were found.
unfoldable pub resolve_for :
    Clock → LinkInput → LinkQuote → OfframpRow → World → Verdict LinkError OfframpLink
resolve_for c input quote o w =
    let ref = trim input.offramp_id in
    let di = record_or_empty o.deposit_instructions in
    let address = text_at "address" di in
    let by = c.read_date (text_at "depositBy" di) in
    let expected = expected_offramp_crypto_amount o.source o.deposit_instructions in
    refuse_if (not (has_flow quote.flow && is_fiat_to_fiat_flow (flow_of o.rate_information)))
      invalid_request
      (refuse_if
        (not (is_settleable o.status)
          || (ltb 0 (prior_crypto_received_amount o.timeline)
              || (not (is_set address) || is_deposit_past_due c by)))
        invalid_request
        (refuse_if
          (not (
            to_upper (trim quote.to_currency) == to_upper (text_at "currency" di)
            && (to_upper (trim quote.destination_chain) == to_upper (text_at "network" di))))
          invalid_request
          (refuse_if (is_off quote.receive_net expected) invalid_request (
            refuse_if (is_elsewhere input.wallet_address address) invalid_request (
              refuse_if (not (is_empty (find_live_onramps_for_offramp ref address w))) conflict (
                pass (record {
                  offramp_id = ref;
                  address = address;
                  memo = memo_of (text_at "memo" di);
                })))))))

abbrev pub for_quote :
    Clock → LinkInput → Option LinkQuote → OfframpRow → World → Verdict LinkError OfframpLink
for_quote c input none o w = refuse invalid_request
for_quote c input (some quote) o w = resolve_for c input quote o w

abbrev pub for_offramp :
    Clock → LinkInput → Option OfframpRow → World → Verdict LinkError OfframpLink
for_offramp c input none w = refuse not_found
for_offramp c input (some o) w =
    refuse_if (not (o.user_id == input.user_id)) not_found (for_quote c input input.quote o w)

unfoldable pub resolve_offramp_link : Clock → LinkInput → World → Verdict LinkError OfframpLink
resolve_offramp_link c input w =
    for_offramp c input (find_offramp_by_txn_ref (trim input.offramp_id) w) w

abbrev pub memo_field : Option String → List (String × Value)
memo_field none = []
memo_field (some memo) = if trim memo == "" then [] else ("memo", str (trim memo)) ∷ []

abbrev pub wallet_field : Option String → List (String × Value)
wallet_field none = []
wallet_field (some id) = if id == "" then [] else ("externalWalletId", str id) ∷ []

-- `destinationPayload` of an onramp with a link and a locked quote.
unfoldable pub linked_destination :
    LinkInput → LinkQuote → OfframpLink → Option String → Value → Value
linked_destination input quote link external_wallet_id user = obj (
    object (
      ("userId", str input.user_id)
        ∷ ("currency", str quote.to_currency)
        ∷ ("chain", str quote.destination_chain)
        ∷ ("walletAddress", str link.address)
        ∷ wallet_field external_wallet_id
      ++ ("offrampId", str link.offramp_id)
        ∷ ("amount", num quote.receive_net)
        ∷ ("user", user)
        ∷ memo_field link.memo))
