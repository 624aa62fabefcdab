-- ===== src/Examples/Fees.antt =====
-- Fees and crypto payouts of onramps that are on their way when they are asked for again.
use api_bloxfi.Prelude.{true, false, refl, ◌≡◌, otherwise, none, some, [], ◌∷◌}
use api_bloxfi.Text.{is_set, trim, to_upper, to_lower}
use api_bloxfi.Numeric.{units, parse_number}
use api_bloxfi.Json.{null, num, str, obj, Fields, object, get}
use api_bloxfi.Table.{find, modify}
use api_bloxfi.Ramp.Status.{OnrampStatus, fiat_processed}
use api_bloxfi.Ramp.Store.{
  World, OnrampRow, find_onramp_by_id, updated_onramp, update_onramp_status,
}
use api_bloxfi.Fee.Stable.{parse_stable_fee_asset}
use api_bloxfi.Fee.Record.{merge_platform_fee_settlement}
use api_bloxfi.Fee.Validate.{FeeDeps, onramp_kind, validate_platform_fee_settlement}
use api_bloxfi.Fee.Settle.{
  Settled, Outcome, live_open, live_patch, persist_platform_fee_settlement, withdrawal_body,
  withdrawal_terminal_state, settle_ramp_platform_fee,
}
use api_bloxfi.Fee.Settle.InFlight.{ReadsBack, unasked_again, settle-settle_in_flight}
use api_bloxfi.Fee.Settle.Repos.{onramp_fee_repo, offramp_fee_repo, update_onramp_fees}
use api_bloxfi.Fee.Settle.Repos.Laws.{onramp_fee_repo-ReadsBack, offramp_fee_repo-ReadsBack}
use api_bloxfi.Payout.Onramp.{
  CryptoWithdrawal, CryptoPayoutDeps, has_withdrawal_id, has_payout_data, start_crypto_payout,
  advance_onramp_if_fiat_processed,
}
use api_bloxfi.Payout.Onramp.Again.{Pending, advance_onramp-paid}
use api_bloxfi.Examples.{fees, onramp_with, world_of}

abbrev completed_onramp : OnrampRow
completed_onramp = record (onramp_with OnrampStatus.completed) { fees = fees }

abbrev fee_world : World
fee_world = record (world_of []) { onramps = completed_onramp ∷ [] }

abbrev live : Fields
live = object (("id", str "w7") ∷ ("state", str "processing") ∷ [])

abbrev open_deps : FeeDeps
open_deps = record {
  networks_for_coin = λ asset. some (record { code = "BASE"; withdraw_enabled = none } ∷ []);
  resolve_network = λ options text. some "BASE";
  fee_withdrawal = λ key ref body. some live;
}

abbrev in_flight : Settled
in_flight = record {
  outcome = Outcome.processing;
  requested = some (
      withdrawal_body
        (validate_platform_fee_settlement onramp_kind open_deps completed_onramp.txn_ref fees));
  world = record fee_world {
    onramps =
        record completed_onramp {
          fees = merge_platform_fee_settlement fees (live_patch "2025-01-02" live live_open);
        }
        ∷ [];
  };
}

in_flight_runs :
    settle_ramp_platform_fee "2025-01-02" onramp_kind onramp_fee_repo open_deps "n1" fee_world
    ≡ some in_flight
unfolding settle_ramp_platform_fee onramp_fee_repo update_onramp_fees find_onramp_by_id find modify
    validate_platform_fee_settlement get trim to_upper to_lower parse_number parse_stable_fee_asset
    persist_platform_fee_settlement withdrawal_terminal_state
in_flight_runs = refl

settle-settle_in_flight_example :
    settle_ramp_platform_fee "2025-01-03" onramp_kind onramp_fee_repo open_deps "n1" in_flight.world
    ≡ some (unasked_again in_flight.world)
settle-settle_in_flight_example =
    settle-settle_in_flight "2025-01-02" "2025-01-03" onramp_kind onramp_fee_repo open_deps
      open_deps "n1" fee_world onramp_fee_repo-ReadsBack in_flight in_flight_runs refl

offramp_fee_repo-ReadsBack_example : ReadsBack (offramp_fee_repo "2025-01-02")
offramp_fee_repo-ReadsBack_example = offramp_fee_repo-ReadsBack "2025-01-02"

abbrev crypto_withdrawal : CryptoWithdrawal
crypto_withdrawal = record { withdrawal_id = "w9"; raw_request = null; raw_response = null }

abbrev taking_payouts : CryptoPayoutDeps
taking_payouts = record {
  settle_internally = λ row w. (false, w);
  execute_withdrawal = λ row. some crypto_withdrawal;
}

abbrev to_pay : OnrampRow
to_pay = record (onramp_with fiat_processed) {
  source = obj (
      object (
        ("userId", str "u1") ∷ ("currency", str "usd") ∷ ("amount", num (units 10000000000)) ∷ []));
  destination = obj (
      object (
        ("userId", str "u1")
        ∷ ("currency", str "usdc")
        ∷ ("chain", str "base")
        ∷ ("walletAddress", str "0x1")
        ∷ ("amount", num (units 9000000000))
        ∷ []));
}

abbrev to_pay_world : World
to_pay_world = record (world_of []) { onramps = to_pay ∷ [] }

abbrev paid_world : World
paid_world = otherwise to_pay_world (
    start_crypto_payout "2025-01-02" taking_payouts "ON-c4a18b6e3a71f02d4e5b9c08" to_pay
      to_pay_world)

to_pay_is_found : find_onramp_by_id "n1" to_pay_world ≡ some to_pay
unfolding find_onramp_by_id find
to_pay_is_found = refl

payout_starts :
    start_crypto_payout "2025-01-02" taking_payouts "ON-c4a18b6e3a71f02d4e5b9c08" to_pay
      to_pay_world
    ≡ some paid_world
unfolding start_crypto_payout has_withdrawal_id has_payout_data update_onramp_status
    find_onramp_by_id find modify get trim updated_onramp
payout_starts = refl

withdrawal_is_named : is_set (trim crypto_withdrawal.withdrawal_id) ≡ true
unfolding trim
withdrawal_is_named = refl

advance_onramp-paid_example :
    (advance_onramp_if_fiat_processed "2025-01-02" taking_payouts "n1" to_pay_world ≡ paid_world)
    × ((p : Pending "n1" paid_world) × (start_crypto_payout "2025-01-03" taking_payouts
            "ON-c4a18b6e3a71f02d4e5b9c08" p.row paid_world
          ≡ none))
    × (advance_onramp_if_fiat_processed "2025-01-03" taking_payouts "n1" paid_world ≡ paid_world)
advance_onramp-paid_example =
    advance_onramp-paid "2025-01-02" "2025-01-03" "n1" "ON-c4a18b6e3a71f02d4e5b9c08" taking_payouts
      taking_payouts to_pay crypto_withdrawal to_pay_world paid_world to_pay_is_found refl refl refl
      payout_starts refl withdrawal_is_named
