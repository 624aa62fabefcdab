-- ===== src/Fee/Settle.antt =====
-- `queueRampPlatformFeeSettlement`, `settleRampPlatformFee` and
-- `applyRampPlatformFeeWithdrawalWebhook` over the repository of one kind of ramp.
pub mod Repos
pub mod Laws
pub mod InFlight
use api_bloxfi.Prelude.{
  String, Bool, true, false, not, ◌&&◌, ◌||◌, Option, none, some, List, [], ◌∷◌, if◌then◌else◌,
  ◌==◌, ◌>>=◌, ◌>>◌, require, otherwise,
}
use Prim.Native.String.{◌++◌ as cat}
use api_bloxfi.Text.{trim, to_lower, is_set, or_else}
use api_bloxfi.Numeric.{units}
use api_bloxfi.Json.{
  Value, undefined, null, num, str, obj, Fields, get, object, as_record, text_of, text_at,
  text_or_undefined,
}
use api_bloxfi.TxnRef.{build_ramp_fee_client_reference}
use api_bloxfi.Ramp.Store.{World}
use api_bloxfi.Webhook.Repos.{FeeTerminal, fee_completed, fee_failed}
use api_bloxfi.Webhook.WithdrawalEvents.{failure_reason_message}
use api_bloxfi.Fee.Record.{
  SettlementPatch, settlement_of, settlement_status, merge_platform_fee_settlement,
  terminal_settlement_status,
}
use api_bloxfi.Fee.Validate.{
  RampKind, kind_text, FeeDeps, Validation, validate_platform_fee_settlement,
}

pub record FeeRow : Type 0 where
  pub id : String
  pub is_completed : Bool
  pub txn_ref : Option String
  pub fees : Value

-- `RampFeeSettlementRepo`; `save_fees` is `none` where the database refuses the update.
pub record FeeRepo : Type 0 where
  pub find_by_id : String → World → Option FeeRow
  pub find_by_txn_ref : String → World → Option FeeRow
  pub save_fees : String → Value → World → Option World

pub data Outcome : Type 0 where
  skipped pending processing already_settled already_queued not_ready : Outcome

-- The result of a call: its outcome, the withdrawal that was asked of the provider, and the state.
pub record Settled : Type 0 where
  pub outcome : Outcome
  pub requested : Option Fields
  pub world : World

abbrev unchanged : Outcome → World → Settled
unchanged o w = record { outcome = o; requested = none; world = w }

-- `persistPlatformFeeSettlement`; an update that is refused throws.
unfoldable pub persist_platform_fee_settlement :
    FeeRepo → String → Value → SettlementPatch → World → Option World
persist_platform_fee_settlement repo id fees patch w =
    repo.save_fees id (merge_platform_fee_settlement fees patch) w

abbrev patch_of : String → List String → List (String × Value) → SettlementPatch
patch_of status notes others = record { status = status; notes = notes; others = others }

abbrev persisted : Outcome → Option Fields → Option World → Option Settled
persisted o body m = m >>= λ w. some (record { outcome = o; requested = body; world = w })

abbrev skip_patch : String → List String → SettlementPatch
skip_patch now notes = patch_of "skipped" notes (("attemptedAt", str now) ∷ [])

abbrev queue_validated : String → FeeRepo → String → FeeRow → List String → World → Option Settled
queue_validated now repo id row (n ∷ notes) w =
    persisted skipped none
      (persist_platform_fee_settlement repo id row.fees (skip_patch now (n ∷ notes)) w)
queue_validated now repo id row [] w = persisted pending none (
    persist_platform_fee_settlement repo id row.fees
      (patch_of "pending" [] (("attemptedAt", str now) ∷ [])) w)

abbrev queue_row :
    String → RampKind → FeeRepo → FeeDeps → String → Option FeeRow → World → Option Settled
queue_row now kind repo deps id none w = some (unchanged not_ready w)
queue_row now kind repo deps id (some row) w =
    let status = settlement_status row.fees in
    let v = validate_platform_fee_settlement kind deps row.txn_ref row.fees in
    if not row.is_completed
    then some (unchanged not_ready w)
    else if status == "pending"
    then some (unchanged already_queued w)
    else if terminal_settlement_status status
    then some (unchanged already_settled w)
    else queue_validated now repo id row v.notes w

unfoldable pub queue_ramp_platform_fee_settlement :
    String → RampKind → FeeRepo → FeeDeps → String → World → Option Settled
queue_ramp_platform_fee_settlement now kind repo deps id w =
    queue_row now kind repo deps id (repo.find_by_id id w) w

abbrev text_or_null : Option String → Value
text_or_null none = null
text_or_null (some s) = str s

unfoldable pub withdrawal_body : Validation → Fields
withdrawal_body v = object (
    ("client_reference", str (build_ramp_fee_client_reference v.txn_ref))
    ∷ ("asset", str v.settlement_asset)
    ∷ ("amount", num (units v.settlement_amount))
    ∷ ("destination_type", str "crypto_address")
    ∷ ("network", text_or_null v.resolved_network)
    ∷ ("destination", obj (object (("address", str v.wallet) ∷ [])))
    ∷ [])

unfoldable pub withdrawal_settlement_hash : Fields → Value
withdrawal_settlement_hash withdrawal = text_or_undefined (
    or_else (text_at "provider_external_ref" withdrawal)
      (text_at "settlement_reference" withdrawal))

pub data LiveState : Type 0 where
  live_completed live_failed live_open : LiveState

unfoldable pub withdrawal_terminal_state : String → LiveState
withdrawal_terminal_state state =
    let normalized = to_lower (trim state) in
    if normalized == "successful"
    then live_completed
    else if normalized == "failed"
    then live_failed
    else live_open

-- What is recorded of the provider's live withdrawal.
unfoldable pub live_patch : String → Fields → LiveState → SettlementPatch
live_patch now live live_completed = patch_of "completed" [] (
    ("withdrawalId", str (text_at "id" live))
    ∷ ("transactionHash", withdrawal_settlement_hash live)
    ∷ ("attemptedAt", str now)
    ∷ ("completedAt", str now)
    ∷ [])
live_patch now live live_failed =
    patch_of "failed"
      (or_else (failure_reason_message live) "fee settlement withdrawal failed" ∷ [])
      (("withdrawalId", text_or_undefined (text_at "id" live))
        ∷ ("attemptedAt", str now)
        ∷ ("completedAt", str now)
        ∷ [])
live_patch now live live_open =
    patch_of "processing" []
      (("withdrawalId", str (text_at "id" live)) ∷ ("attemptedAt", str now) ∷ [])

abbrev live_outcome : LiveState → Outcome
live_outcome live_completed = already_settled
live_outcome live_failed = skipped
live_outcome live_open = processing

abbrev record_live :
    String → FeeRepo → String → FeeRow → Fields → Option Fields → World → Option Settled
record_live now repo id row body none w = persisted skipped (some body) (
    persist_platform_fee_settlement repo id row.fees
      (patch_of "failed" ("Palremit withdrawal request failed" ∷ [])
        (("attemptedAt", str now) ∷ []))
      w)
record_live now repo id row body (some live) w =
    let state = withdrawal_terminal_state (text_of (get "state" live)) in
    persisted (live_outcome state) (some body)
      (persist_platform_fee_settlement repo id row.fees (live_patch now live state) w)

abbrev settle_validated :
    String
    → RampKind
    → FeeRepo
    → FeeDeps
    → String
    → FeeRow
    → Validation
    → List String
    → World
    → Option Settled
settle_validated now kind repo deps id row v (n ∷ notes) w =
    persisted skipped none
      (persist_platform_fee_settlement repo id row.fees (skip_patch now (n ∷ notes)) w)
settle_validated now kind repo deps id row v [] w =
    let key = cat (kind_text kind) (cat "-fee-settlement:" v.txn_ref) in
    let body = withdrawal_body v in
    record_live now repo id row body
      (deps.fee_withdrawal key (build_ramp_fee_client_reference v.txn_ref) body) w

abbrev pub is_settled : String → Bool
is_settled s = s == "processing" || (s == "completed" || (s == "skipped"))

abbrev settle_row :
    String → RampKind → FeeRepo → FeeDeps → String → Option FeeRow → World → Option Settled
settle_row now kind repo deps id none w = some (unchanged not_ready w)
settle_row now kind repo deps id (some row) w =
    let status = settlement_status row.fees in
    let v = validate_platform_fee_settlement kind deps row.txn_ref row.fees in
    if not row.is_completed
    then some (unchanged not_ready w)
    else if is_settled status
    then some (unchanged already_settled w)
    else if not (status == "pending" || (status == "failed"))
    then some (unchanged not_ready w)
    else settle_validated now kind repo deps id row v v.notes w

unfoldable pub settle_ramp_platform_fee :
    String → RampKind → FeeRepo → FeeDeps → String → World → Option Settled
settle_ramp_platform_fee now kind repo deps id w =
    settle_row now kind repo deps id (repo.find_by_id id w) w

-- What the webhook of a fee withdrawal records.
unfoldable pub webhook_patch : String → Fields → Fields → FeeTerminal → SettlementPatch
webhook_patch now settlement withdrawal fee_completed = patch_of "completed" [] (
    (
      "withdrawalId",
      text_or_undefined
          (or_else (text_at "id" withdrawal) (text_of (get "withdrawalId" settlement))),
    )
    ∷ ("transactionHash", withdrawal_settlement_hash withdrawal)
    ∷ ("completedAt", str now)
    ∷ [])
webhook_patch now settlement withdrawal (fee_failed note) = patch_of "failed" (note ∷ []) (
    (
      "withdrawalId",
      text_or_undefined
          (or_else (text_at "id" withdrawal) (text_of (get "withdrawalId" settlement))),
    )
    ∷ ("completedAt", str now)
    ∷ [])

abbrev webhook_agrees : String → String → Bool
webhook_agrees known id = if known == "" then true else if id == "" then true else known == id

-- `none` where the source returns false.
unfoldable pub apply_ramp_platform_fee_withdrawal_webhook :
    String → FeeRepo → String → Fields → FeeTerminal → World → Option World
apply_ramp_platform_fee_withdrawal_webhook now repo parent withdrawal terminal w = do
  row ← repo.find_by_txn_ref parent w
  let settlement = settlement_of row.fees
  let status = settlement_status row.fees
  require (status == "processing" || (status == "failed"))
  require (webhook_agrees (text_of (get "withdrawalId" settlement)) (text_at "id" withdrawal))
  persist_platform_fee_settlement repo row.id row.fees
      (webhook_patch now settlement withdrawal terminal) w
