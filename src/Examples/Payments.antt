-- ===== src/Examples/Payments.antt =====
-- Runs about deposits, payouts, fees and events of the provider.
use api_bloxfi.Prelude.{◌+◌, ◌⊎◌, String, true, refl, ◌≡◌, none, some, [], ◌∷◌}
use api_bloxfi.Text.{trim, to_upper}
use api_bloxfi.Numeric.{units, parse_number}
use api_bloxfi.Json.{null, num, str, obj, Fields, object, get, put, spread}
use api_bloxfi.Table.{find, modify}
use api_bloxfi.Ramp.Status.{
  OfframpStatus, awaiting_crypto, crypto_received, crypto_confirmed, should_emit_ramp_event,
}
use api_bloxfi.Ramp.Guard.{offramp_funds_received, blocks_offramp_transition}
use api_bloxfi.Ramp.Store.{
  World, OfframpRow, updated_offramp, update_offramp_status, find_offramp_by_id, schedule,
}
use api_bloxfi.Ramp.Held.{WorldHeld}
use api_bloxfi.Offramp.DepositAmount.{
  prior_crypto_received_amount, parse_deposit_webhook_amount, expected_offramp_crypto_amount,
  is_below_tolerance, is_offramp_crypto_deposit_complete, underpayment_tolerance_for_asset,
}
use api_bloxfi.Webhook.Repos.{EventType, get_palremit_orchestrator}
use api_bloxfi.Webhook.Deposit.{check_offramp_credit, credit_patch, credited_timeline}
use api_bloxfi.Webhook.Deposit.Laws.{
  credited, funds_received-credited, CreditChecked, check_offramp_credit-CreditChecked, two_credits,
}
use api_bloxfi.Webhook.Legacy.{known_offramp, legacy_crypto_received}
use api_bloxfi.Webhook.Legacy.Laws.{legacy_crypto_received-forgets}
use api_bloxfi.Webhook.Dispatch.{process_webhook_event}
use api_bloxfi.Fee.Stable.{parse_stable_fee_asset}
use api_bloxfi.Fee.Record.{SettlementPatch, settlement_status, merge_platform_fee_settlement}
use api_bloxfi.Fee.Record.Laws.{settlement_status-merge}
use api_bloxfi.Fee.Validate.{FeeDeps, onramp_kind, validate_platform_fee_settlement}
use api_bloxfi.Fee.Settle.{
  FeeRow, FeeRepo, Outcome, settle_ramp_platform_fee, withdrawal_body,
  persist_platform_fee_settlement,
}
use api_bloxfi.Fee.Settle.Laws.{FeeAllowed, settle-FeeAllowed}
use api_bloxfi.Payout.Offramp.{
  Ready, payout_ready, record_payout, try_offramp_payout, advance_offramp_if_deposit_ready,
}
use api_bloxfi.Payout.Offramp.Laws.{PayoutAllowed, accepted_row, advance_offramp-PayoutAllowed}
use api_bloxfi.Payout.Offramp.Again.{advance_offramp-accepted}
use api_bloxfi.Payout.Wired.{webhook_repos, wired_service-WorldHeld}
use api_bloxfi.Examples.{
  waiting, with_status, world_of, deposit_of, first_credit, second_credit, failed_payload, fees,
  repos, payouts, clock,
}

abbrev confirmed_world : World
confirmed_world = world_of (with_status crypto_confirmed ∷ [])

wired_service-WorldHeld_example : WorldHeld confirmed_world (
    process_webhook_event
      (webhook_repos clock payouts (λ row. none) repos)
      EventType.offramp_failed
      failed_payload
      confirmed_world)
wired_service-WorldHeld_example =
    wired_service-WorldHeld clock payouts (λ row. none) repos EventType.offramp_failed
      failed_payload confirmed_world

first_credit_runs : check_offramp_credit (deposit_of 4000000000) waiting ≡ some first_credit
unfolding check_offramp_credit get_palremit_orchestrator get trim to_upper
    parse_deposit_webhook_amount expected_offramp_crypto_amount prior_crypto_received_amount
    is_offramp_crypto_deposit_complete is_below_tolerance underpayment_tolerance_for_asset
first_credit_runs = refl

check_offramp_credit-CreditChecked_example :
    CreditChecked (deposit_of 4000000000) waiting first_credit
check_offramp_credit-CreditChecked_example =
    check_offramp_credit-CreditChecked (deposit_of 4000000000) waiting first_credit
      first_credit_runs

abbrev once_credited : OfframpRow
once_credited = credited "2025-01-02" first_credit failed_payload (deposit_of 4000000000) waiting

second_credit_runs : check_offramp_credit (deposit_of 5950000000) once_credited ≡ some second_credit
unfolding check_offramp_credit get_palremit_orchestrator get put spread trim to_upper
    parse_deposit_webhook_amount expected_offramp_crypto_amount prior_crypto_received_amount
    is_offramp_crypto_deposit_complete is_below_tolerance underpayment_tolerance_for_asset
    updated_offramp blocks_offramp_transition credit_patch credited_timeline
second_credit_runs = refl

second_amount : parse_deposit_webhook_amount (deposit_of 5950000000).fields ≡ some 5950000000
unfolding parse_deposit_webhook_amount get
second_amount = refl

two_credits_example : second_credit.total ≡ first_credit.total + 5950000000
two_credits_example =
    two_credits "2025-01-02" first_credit second_credit failed_payload (deposit_of 4000000000)
      (deposit_of 5950000000) waiting 5950000000 second_credit_runs second_amount

funds_received-credited_example :
    offramp_funds_received awaiting_crypto once_credited.timeline ≡ true
funds_received-credited_example =
    funds_received-credited "2025-01-02" first_credit failed_payload (deposit_of 4000000000) waiting
      awaiting_crypto

abbrev to_pay : OfframpRow
to_pay = record (with_status crypto_confirmed) {
  destination = obj (object (("accountId", str "a1") ∷ ("amount", num (units 9000000000)) ∷ []));
}

abbrev to_pay_world : World
to_pay_world = world_of (to_pay ∷ [])

abbrev to_send : Ready
to_send = record {
  txn_ref = "OFF-c4a18b6e3a71f02d4e5b9c08";
  body = object (("amount", num (units 9000000000)) ∷ []);
}

abbrev paid_row : OfframpRow
paid_row = accepted_row "2025-01-02" "wd1" null null null OfframpStatus.fiat_pending to_pay

-- The bank has refused the payout by the time of the second advance.
abbrev later_row : OfframpRow
later_row = record paid_row { status = crypto_confirmed; failed_reason = some "bank" }

to_pay_is_ready : payout_ready payouts to_pay ≡ some to_send
unfolding payout_ready get
to_pay_is_ready = refl

to_pay_is_found : find_offramp_by_id "o1" to_pay_world ≡ some to_pay
unfolding find_offramp_by_id find
to_pay_is_found = refl

paid_is_kept :
    find_offramp_by_id "o1"
      (advance_offramp_if_deposit_ready "2025-01-02" payouts "o1" to_pay_world)
    ≡ some paid_row
unfolding advance_offramp_if_deposit_ready try_offramp_payout payout_ready record_payout
    update_offramp_status find_offramp_by_id find modify get updated_offramp schedule
    should_emit_ramp_event blocks_offramp_transition
paid_is_kept = refl

later_is_found : find_offramp_by_id "o1" (world_of (later_row ∷ [])) ≡ some later_row
unfolding find_offramp_by_id find updated_offramp
later_is_found = refl

advance_offramp-accepted_example :
    (payout_ready payouts later_row ≡ none)
    × (advance_offramp_if_deposit_ready "2025-01-03" payouts "o1" (world_of (later_row ∷ []))
        ≡ world_of (later_row ∷ []))
advance_offramp-accepted_example =
    advance_offramp-accepted "2025-01-02" "2025-01-03" "o1" payouts payouts to_pay paid_row
      later_row to_send "wd1" null null null to_pay_world (world_of (later_row ∷ []))
      to_pay_is_found to_pay_is_ready refl paid_is_kept later_is_found refl

advance_offramp-PayoutAllowed_example :
    (advance_offramp_if_deposit_ready "2025-01-03" payouts "o1" confirmed_world ≡ confirmed_world)
    ⊎ ((r : OfframpRow) × (find_offramp_by_id "o1" confirmed_world ≡ some r) × PayoutAllowed r)
advance_offramp-PayoutAllowed_example =
    advance_offramp-PayoutAllowed "2025-01-03" payouts "o1" confirmed_world

abbrev completed_world : World
completed_world = world_of (with_status OfframpStatus.completed ∷ [])

abbrev reference : String
reference = "OFF-c4a18b6e3a71f02d4e5b9c08"

abbrev partly_credited : OfframpRow
partly_credited = record (with_status crypto_received) {
  timeline = obj (object (("cryptoReceivedAmount", num (units 4000000000)) ∷ []));
}

abbrev forgotten : OfframpRow
forgotten = record partly_credited {
  status = OfframpStatus.crypto_pending;
  timeline = obj (object (("cryptoReceivedAt", str "2025-01-02") ∷ []));
}

legacy_runs :
    legacy_crypto_received repos failed_payload (world_of (partly_credited ∷ []))
    ≡ some (world_of (forgotten ∷ []))
unfolding legacy_crypto_received known_offramp get trim update_offramp_status find modify
    updated_offramp schedule should_emit_ramp_event blocks_offramp_transition offramp_funds_received
legacy_runs = refl

legacy_crypto_received-forgets_example : prior_crypto_received_amount forgotten.timeline ≡ 0
unfolding get trim find_offramp_by_id find
legacy_crypto_received-forgets_example =
    legacy_crypto_received-forgets repos failed_payload (world_of (partly_credited ∷ []))
      (world_of (forgotten ∷ [])) partly_credited forgotten refl legacy_runs refl

abbrev completed_patch : SettlementPatch
completed_patch = record {
  status = "completed";
  notes = [];
  others = ("transactionHash", str "0xabc") ∷ [];
}

settlement_status-merge_example :
    settlement_status (merge_platform_fee_settlement fees completed_patch) ≡ "completed"
settlement_status-merge_example = settlement_status-merge fees completed_patch

abbrev fee_row : FeeRow
fee_row = record {
  id = "n1";
  is_completed = true;
  txn_ref = some "ON-c4a18b6e3a71f02d4e5b9c08";
  fees = fees;
}

abbrev fee_repo : FeeRepo
fee_repo = record {
  find_by_id = λ id w. some fee_row;
  find_by_txn_ref = λ ref w. some fee_row;
  save_fees = λ id fees w. some w;
}

abbrev fee_deps : FeeDeps
fee_deps = record {
  networks_for_coin = λ asset. some (record { code = "BASE"; withdraw_enabled = none } ∷ []);
  resolve_network = λ options text. some "BASE";
  fee_withdrawal = λ key ref body. none;
}

abbrev fee_body : Fields
fee_body =
    withdrawal_body (validate_platform_fee_settlement onramp_kind fee_deps fee_row.txn_ref fees)

settle_runs :
    settle_ramp_platform_fee "2025-01-02" onramp_kind fee_repo fee_deps "n1" completed_world
    ≡ some
        (record { outcome = Outcome.skipped; requested = some fee_body; world = completed_world })
unfolding settle_ramp_platform_fee validate_platform_fee_settlement get trim to_upper parse_number
    parse_stable_fee_asset persist_platform_fee_settlement
settle_runs = refl

settle-FeeAllowed_example : FeeAllowed onramp_kind fee_repo fee_deps "n1" completed_world fee_body
settle-FeeAllowed_example =
    settle-FeeAllowed "2025-01-02" onramp_kind fee_repo fee_deps "n1" completed_world
      (record { outcome = Outcome.skipped; requested = some fee_body; world = completed_world })
      fee_body settle_runs refl
