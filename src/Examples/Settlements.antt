-- ===== src/Examples/Settlements.antt =====
-- Runs about internal settlements, links between ramps, and reissued payouts.
use api_bloxfi.Prelude.{
  arith, ◌<◌, true, false, ◌≡◌, ◌⊎◌, refl, none, some, [], ◌∷◌, pass, otherwise,
}
use api_bloxfi.Text.{trim, to_upper, to_lower}
use api_bloxfi.Numeric.{units}
use api_bloxfi.Numeric.Doubles.{minus_doubles, nearest_double}
use api_bloxfi.Json.{Value, null, num, str, obj, object, get, record_or_empty}
use api_bloxfi.Table.{find, modify, select}
use api_bloxfi.Ramp.Status.{fiat_processed, awaiting_crypto}
use api_bloxfi.Ramp.Store.{
  World, OnrampRow, OfframpRow, find_onramp_by_id, find_offramp_by_id, find_offramp_by_txn_ref,
}
use api_bloxfi.TxnRef.{after_prefix}
use api_bloxfi.Ramp.Expiry.{Clock}
use api_bloxfi.Offramp.DepositAmount.{
  prior_crypto_received_amount, expected_offramp_crypto_amount, is_offramp_crypto_deposit_complete,
  underpayment_tolerance_for_asset,
}
use api_bloxfi.Payout.Onramp.{advance_onramp_if_fiat_processed}
use api_bloxfi.FiatToFiat.Pair.{
  is_settleable, same_address, is_evm_address, double_distance, is_apart, compare_amounts,
  check_fiat_to_fiat_pair,
}
use api_bloxfi.FiatToFiat.Pair.Laws.{PairMatches, check_fiat_to_fiat_pair_iff}
use api_bloxfi.FiatToFiat.Claim.{
  claim_offramp_crypto, read_claim, write_claim, find_live_onramps_for_offramp, ClaimRead,
  ClaimUpdates,
}
use api_bloxfi.FiatToFiat.Claim.Laws.{write_claim-exclusive}
use api_bloxfi.FiatToFiat.Settle.{
  Match, matches, candidates, settlement_pair, settle_pair, claim_updates,
  try_settle_fiat_to_fiat_internally,
}
use api_bloxfi.FiatToFiat.Settle.Laws.{PairChecked}
use api_bloxfi.FiatToFiat.Settle.Answer.{advance_onramp-settled, try_settle-PairChecked}
use api_bloxfi.FiatToFiat.Settle.Funded.{Funded, claim-Funded, PairMatches-deposit_complete}
use api_bloxfi.FiatToFiat.Link.{
  LinkInput, LinkQuote, OfframpLink, linked_destination, resolve_for, resolve_offramp_link,
}
use api_bloxfi.FiatToFiat.Link.Settles.{linked-PairMatches}
use api_bloxfi.Examples.{waiting, onramp_with, world_of, payouts, crypto_payouts, clock}

-- Of 100.01 and 100 the doubles differ by more than 0.01.
a_cent_apart : is_apart (units 10001000000) 10000000000 ≡ true
unfolding is_apart double_distance minus_doubles nearest_double
a_cent_apart = refl

abbrev early : Clock
early = record clock { now = 3 }

abbrev flow : Value
flow = obj (object (("flow", str "FIAT_TO_FIAT") ∷ []))

abbrev funded_leg : OfframpRow
funded_leg = record waiting {
  rate_information = flow;
  deposit_instructions = obj (
      object (
        ("address", str "TDeposit1")
        ∷ ("currency", str "USDT")
        ∷ ("network", str "TRON")
        ∷ ("depositBy", str "2025-02-01")
        ∷ []));
}

abbrev quote : LinkQuote
quote = record {
  flow = some "FIAT_TO_FIAT";
  to_currency = "usdt";
  destination_chain = "tron";
  receive_net = units 10000500000;
}

abbrev input : LinkInput
input = record {
  offramp_id = "OFF-c4a18b6e3a71f02d4e5b9c08";
  user_id = "u1";
  quote = some quote;
  wallet_address = none;
}

abbrev link : OfframpLink
link = record { offramp_id = "OFF-c4a18b6e3a71f02d4e5b9c08"; address = "TDeposit1"; memo = none }

abbrev funding_leg : OnrampRow
funding_leg = record (onramp_with fiat_processed) {
  quote_information = flow;
  destination = linked_destination input quote link none null;
}

-- Before the onramp is created, and after.
abbrev unlinked_world : World
unlinked_world = record (world_of (funded_leg ∷ [])) { onramps = [] }

abbrev paired_world : World
paired_world = record unlinked_world { onramps = funding_leg ∷ [] }

link_runs : resolve_offramp_link early input unlinked_world ≡ pass link
unfolding resolve_offramp_link resolve_for find_offramp_by_txn_ref find trim to_upper get
    prior_crypto_received_amount expected_offramp_crypto_amount find_live_onramps_for_offramp select
    is_apart
link_runs = refl

linked-PairMatches_example :
    (o : OfframpRow) × (find_offramp_by_txn_ref link.offramp_id unlinked_world ≡ some o)
    × (check_fiat_to_fiat_pair early funding_leg o ≡ pass (units 10000500000))
unfolding trim get
linked-PairMatches_example =
    linked-PairMatches early input quote unlinked_world link none null funding_leg 10000500000
      link_runs refl refl refl refl refl

pair_runs : check_fiat_to_fiat_pair early funding_leg funded_leg ≡ pass (units 10000500000)
unfolding check_fiat_to_fiat_pair same_address is_evm_address compare_amounts is_apart trim to_upper
    to_lower get prior_crypto_received_amount expected_offramp_crypto_amount linked_destination
    after_prefix
pair_runs = refl

legs_match : PairMatches early funding_leg funded_leg (units 10000500000)
legs_match =
    (check_fiat_to_fiat_pair_iff early funding_leg funded_leg (units 10000500000)).0 pair_runs

expected_runs :
    expected_offramp_crypto_amount funded_leg.source funded_leg.deposit_instructions
    ≡ some 10000000000
unfolding expected_offramp_crypto_amount get
expected_runs = refl

has_tolerance : 0 < underpayment_tolerance_for_asset "usdt"
unfolding underpayment_tolerance_for_asset trim to_upper
has_tolerance = omega arith

PairMatches-deposit_complete_example :
    is_offramp_crypto_deposit_complete 10000500000 10000000000 "usdt" ≡ true
PairMatches-deposit_complete_example =
    PairMatches-deposit_complete early funding_leg funded_leg 10000500000 10000000000 "usdt"
      legs_match expected_runs has_tolerance

try_settle-PairChecked_example :
    (try_settle_fiat_to_fiat_internally early payouts funding_leg paired_world
      ≡ (false, paired_world))
    ⊎ (((try_settle_fiat_to_fiat_internally early payouts funding_leg paired_world).0 ≡ true)
        × ((m : Match) × PairChecked early funding_leg paired_world m))
try_settle-PairChecked_example = try_settle-PairChecked early payouts funding_leg paired_world

abbrev settled_world : World
settled_world = (try_settle_fiat_to_fiat_internally early payouts funding_leg paired_world).1

settle_runs :
    try_settle_fiat_to_fiat_internally early payouts funding_leg paired_world
    ≡ (true, settled_world)
unfolding try_settle_fiat_to_fiat_internally settlement_pair settle_pair candidates matches
    find_offramp_by_txn_ref find_offramp_by_id find modify claim_offramp_crypto read_claim
    write_claim check_fiat_to_fiat_pair same_address is_evm_address compare_amounts is_apart trim
    to_upper to_lower get prior_crypto_received_amount expected_offramp_crypto_amount
    linked_destination after_prefix
settle_runs = refl

funding_leg_is_found : find_onramp_by_id "n1" paired_world ≡ some funding_leg
unfolding find_onramp_by_id find
funding_leg_is_found = refl

advance_onramp-settled_example :
    advance_onramp_if_fiat_processed "2025-01-03" crypto_payouts "n1" settled_world ≡ settled_world
advance_onramp-settled_example =
    advance_onramp-settled early payouts funding_leg paired_world settled_world "2025-01-03"
      crypto_payouts funding_leg_is_found settle_runs

abbrev claimed_world : World
claimed_world = otherwise paired_world (
    claim_offramp_crypto "o1" is_settleable
      (claim_updates "2025-01-02" funding_leg funded_leg (units 10000500000)) paired_world)

claim_runs :
    claim_offramp_crypto "o1" is_settleable
      (claim_updates "2025-01-02" funding_leg funded_leg (units 10000500000))
      paired_world
    ≡ some claimed_world
unfolding claim_offramp_crypto read_claim write_claim find_offramp_by_id find
claim_runs = refl

pair_is_settled :
    settlement_pair early funding_leg paired_world ≡ some (funded_leg, units 10000500000)
unfolding settlement_pair candidates matches find_offramp_by_txn_ref find check_fiat_to_fiat_pair
    same_address is_evm_address compare_amounts is_apart trim to_upper to_lower get
    prior_crypto_received_amount expected_offramp_crypto_amount linked_destination after_prefix
pair_is_settled = refl

amount_of_leg : get "amount" (record_or_empty funding_leg.destination) ≡ num (units 10000500000)
unfolding get linked_destination
amount_of_leg = refl

claim-Funded_example : Funded "o1" 10000500000 claimed_world
claim-Funded_example =
    claim-Funded early funding_leg (funded_leg, units 10000500000) 10000500000 paired_world
      claimed_world pair_is_settled amount_of_leg claim_runs

-- Two settlements that both read the offramp before either wrote it.
abbrev first_read : ClaimRead
first_read = record { old_status = awaiting_crypto; merged_refs = null }

abbrev first_updates : ClaimUpdates
first_updates = record { timeline = null; provider_refs = null; receipt = null }

abbrev written_world : World
written_world =
    otherwise paired_world (write_claim "o1" is_settleable first_updates first_read paired_world)

write_runs :
    write_claim "o1" is_settleable first_updates first_read paired_world ≡ some written_world
unfolding write_claim find
write_runs = refl

write_claim-exclusive_example :
    write_claim "o1" is_settleable first_updates first_read written_world ≡ none
write_claim-exclusive_example =
    write_claim-exclusive "o1" is_settleable first_updates first_updates first_read first_read
      paired_world written_world refl write_runs
