-- ===== src/Examples.antt =====
-- Sample rows, payloads and providers for the runs of the other modules.
pub mod Ramps
pub mod Payments
pub mod Fees
pub mod Settlements
pub mod Reissues
pub mod Deliveries
pub mod Holds
pub mod Creations
use api_bloxfi.Prelude.{ℕ, String, Bool, true, false, Option, none, some, List, [], ◌∷◌}
use api_bloxfi.Numeric.{units}
use api_bloxfi.Json.{Value, null, num, str, obj, bool, Fields, object}
use api_bloxfi.Ramp.Status.{
  OnrampStatus, OfframpStatus, awaiting_crypto, crypto_confirmed, fiat_processed,
}
use api_bloxfi.Ramp.Store.{World, OnrampRow, OfframpRow}
use api_bloxfi.Ramp.Expiry.{Clock}
use api_bloxfi.Webhook.Repos.{WebhookRepos, FeeTerminal}
use api_bloxfi.Webhook.Deposit.{Deposit, Credit}
use api_bloxfi.Payout.Offramp.{PayoutDeps, PayoutResult, accepted}
use api_bloxfi.Payout.Onramp.{CryptoPayoutDeps}

abbrev pub source : Value
source = obj (
    object
      (("currency", str "usdc") ∷ ("chain", str "base") ∷ ("amount", num (units 10000000000)) ∷ []))

abbrev pub refs : Value
refs = obj (
    object (("palremitOrchestrator", obj (object (("provisionedAccountId", str "pa1") ∷ []))) ∷ []))

abbrev pub waiting : OfframpRow
waiting = record {
  id = "o1";
  request_id = "r1";
  txn_ref = some "OFF-c4a18b6e3a71f02d4e5b9c08";
  provider_refs = refs;
  user_id = "u1";
  status = awaiting_crypto;
  source = source;
  destination = null;
  rate_information = null;
  deposit_instructions = obj (object (("expiresAt", str "2025-01-01") ∷ []));
  timeline = null;
  fees = null;
  receipt = null;
  refund_details = null;
  failed_reason = none;
  lp_reference = none;
}

abbrev pub with_status : OfframpStatus → OfframpRow
with_status s = record waiting { status = s }

abbrev pub onramp_with : OnrampStatus → OnrampRow
onramp_with s = record {
  id = "n1";
  request_id = "r2";
  user_id = "u1";
  status = s;
  txn_ref = some "ON-c4a18b6e3a71f02d4e5b9c08";
  source = source;
  destination = null;
  quote_information = null;
  deposit_info = null;
  developer_fee = null;
  fees = null;
  receipt = null;
  provider_refs = refs;
  failed_reason = none;
}

abbrev pub world_of : List OfframpRow → World
world_of rows = record {
  onramps = onramp_with fiat_processed ∷ [];
  offramps = rows;
  accounts = [];
  users = [];
  kyb_rails = [];
  high_values = [];
  sent = [];
  fee_jobs = [];
}

abbrev pub deposit_of : ℕ → Deposit
deposit_of n = record {
  client_ref = "OFF-c4a18b6e3a71f02d4e5b9c08";
  fields = object (("id", str "d1") ∷ ("amount", num (units n)) ∷ []);
  prov_id = "pa1";
  mode = "CRYPTO_DEPOSIT";
  asset_code = "USDC";
  network = "BASE";
}

abbrev pub first_credit : Credit
first_credit = record { total = 4000000000; expected = 10000000000; complete = false }

abbrev pub second_credit : Credit
second_credit = record { total = 9950000000; expected = 10000000000; complete = true }

abbrev pub failed_payload : Fields
failed_payload = object (("offrampId", str "o1") ∷ ("failedReason", str "bank") ∷ [])

abbrev pub repos : WebhookRepos
repos = record {
  now = "2025-01-02";
  next_week = "2025-01-09";
  advance_onramp_after_fiat_webhook = λ id w. w;
  advance_offramp_after_crypto_webhook = λ id w. w;
  apply_onramp_fee_webhook = λ p f t w. w;
  apply_offramp_fee_webhook = λ p f t w. w;
  fiat_deposit_info = λ f a b c d e. null;
  crypto_deposit_instructions = λ f v a b. none;
  deposit_details_from_instructions = λ f. none;
  redact = λ s. s;
}

abbrev pub payouts : PayoutDeps
payouts = record {
  find_account =
      λ id user. some (record { currency = "USD"; account_holder = null; provider_payout = null });
  build_withdrawal = λ row account n. some (object (("amount", num (units n)) ∷ []));
  create_withdrawal = λ body key. some (accepted "wd1" null null null);
}

abbrev pub crypto_payouts : CryptoPayoutDeps
crypto_payouts = record {
  settle_internally = λ row w. (false, w);
  execute_withdrawal = λ row. none;
}

abbrev read_sample : String → Option ℕ
read_sample s = some 5

abbrev pub clock : Clock
clock = record { now = 10; now_text = "2025-01-02"; read_date = read_sample }

abbrev pub fees : Value
fees = obj (
    object (
      (
        "platformFee",
        obj (
            object (
              ("amount", str "10")
              ∷ ("currency", str "USDT")
              ∷ ("walletAddress", str "0x1")
              ∷ ("settlementCurrency", str "USDC")
              ∷ ("settlementNetwork", str "BASE")
              ∷ ("settlement", obj (object (("status", str "pending") ∷ [])))
              ∷ [])),
      )
      ∷ []))
