-- ===== src/Webhook/Repos.antt =====
-- What processWebhookEvent.ts gets from outside (`WebhookRepos`, the clock and the helpers of other
-- modules), and the small readers that its cases share.
use api_bloxfi.Prelude.{
  String, Bool, true, false, Option, none, some, List, [], ◌∷◌, if◌then◌else◌, ◌==◌, ◌>>=◌,
}
use api_bloxfi.Text.{trim, or_else}
use api_bloxfi.Json.{
  Value, obj, Fields, end, get, object, spread, as_record, text_of, text_at, record_or_empty,
}
use api_bloxfi.Ramp.Store.{World, OfframpRow}

-- How a fee withdrawal ended; a failure carries its note.
pub data FeeTerminal : Type 0 where
  fee_completed : FeeTerminal
  fee_failed : String → FeeTerminal

-- `now` is the time of the event as an ISO text, and `next_week` the time seven days later. The
-- repositories themselves act on the `World`; what is a field here belongs to other components.
pub record WebhookRepos : Type 0 where
  pub now : String
  pub next_week : String
  pub advance_onramp_after_fiat_webhook : String → World → World
  pub advance_offramp_after_crypto_webhook : String → World → World
  pub apply_onramp_fee_webhook : String → Fields → FeeTerminal → World → World
  pub apply_offramp_fee_webhook : String → Fields → FeeTerminal → World → World
  pub fiat_deposit_info : Fields → String → String → Value → String → Value → Value
  pub crypto_deposit_instructions : Fields → Value → String → String → Option Value
  pub deposit_details_from_instructions : Fields → Option Value
  pub redact : String → String

-- The values of `eventType` that have a case of their own; `unhandled` stands for the cases that only
-- break and for all other texts.
pub data EventType : Type 0 where
  deposit_credited withdrawal_successful withdrawal_funded withdrawal_failed : EventType
  account_active account_kyc_pending account_failed : EventType
  kyb_status_updated kyb_approved kyb_rejected : EventType
  onramp_awaiting_funds onramp_fiat_received onramp_fiat_processed : EventType
  onramp_crypto_initiated onramp_completed onramp_failed : EventType
  offramp_crypto_received offramp_crypto_confirmed offramp_fee_processed : EventType
  offramp_fiat_initiated offramp_completed offramp_failed : EventType
  offramp_cancelled offramp_refunded : EventType
  high_value_approved high_value_rejected unhandled : EventType

unfoldable pub get_palremit_orchestrator : Value → Option Fields
get_palremit_orchestrator provider_refs =
    as_record provider_refs >>= λ refs. as_record (get "palremitOrchestrator" refs)

-- `...(orch ?? {})`
abbrev pub orch_fields : Option Fields → Fields
orch_fields none = end
orch_fields (some o) = o

-- `typeof orch?.k === 'string' ? orch.k.trim() : ''`
abbrev pub orch_text : String → Option Fields → String
orch_text k orch = trim (text_of (get k (orch_fields orch)))

-- `{ palremitOrchestrator: { ...(orch ?? {}), … } }`
abbrev pub orchestrator_refs : Option Fields → List (String × Value) → Value
orchestrator_refs orch changes =
    obj (object (("palremitOrchestrator", obj (spread (orch_fields orch) (object changes))) ∷ []))

-- `!(expected && id && expected !== id)`
abbrev pub id_agrees : String → String → Bool
id_agrees expected id = if expected == "" then true else if id == "" then true else expected == id

-- `!(!expected || expected !== id)`
abbrev pub is_expected_id : String → String → Bool
is_expected_id expected id = if expected == "" then false else expected == id

-- The withdrawal id that an offramp expects, from its provider references or its timeline.
unfoldable pub expected_fiat_withdrawal_id : OfframpRow → String
unfolding get_palremit_orchestrator trim
expected_fiat_withdrawal_id offramp =
    or_else (orch_text "palremitWithdrawalId" (get_palremit_orchestrator offramp.provider_refs))
      (text_at "fiatWithdrawalId" (record_or_empty offramp.timeline))

unfoldable pub withdrawal_client_reference : Fields → Fields → String
withdrawal_client_reference withdrawal d =
    or_else (text_at "client_reference" withdrawal) (text_at "client_reference" d)
