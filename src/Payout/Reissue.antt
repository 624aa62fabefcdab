-- ===== src/Payout/Reissue.antt =====
-- core/offramps/reissueOfframpFiatPayout.ts: an operator replaces a failed withdrawal of the provider by
-- a new one. The stored accounts and users, the reading of a birth date and the provider's answer are
-- fields of `ReissueDeps`; a request that throws is `reissue_throws`.
pub mod Laws
pub mod Superseded
use Prim.Native.String.{◌++◌ as cat}
use api_bloxfi.Prelude.{
  ℕ, String, Bool, true, false, not, ◌&&◌, ◌||◌, Option, none, some, if◌then◌else◌, leb, ltb, ◌==◌,
  ◌>>=◌, ◌>>◌, require, [], ◌∷◌,
}
use api_bloxfi.Text.{is_set, code_run}
use api_bloxfi.Json.{
  Value, undefined, null, bool, str, arr, obj, Fields, end, Items, nil, cons, field, get, object,
  spread, record_or_empty, as_record, text_of, text_at, is_text, or_default,
}
use api_bloxfi.Ramp.Status.{OfframpStatus}
use api_bloxfi.Ramp.Store.{
  World, OfframpRow, OfframpPatch, UpdateOptions, no_offramp_patch, find_offramp_by_id,
  update_offramp_status,
}
use api_bloxfi.Webhook.Repos.{get_palremit_orchestrator, orch_fields, orchestrator_refs}
use api_bloxfi.Offramp.FiatRetry.{offramp_fiat_withdrawal_id}
use api_bloxfi.Payout.Offramp.{BankAccount}

-- The provider's answer to a reissue.
pub data ReissueAnswer : Type 0 where
  created : (id : String) (sender_name : Value) → ReissueAnswer
  not_created : (message : String) (http_status : ℕ) → ReissueAnswer
  reissue_throws : ReissueAnswer

pub record ReissueDeps : Type 0 where
  pub find_account : String → String → Option BankAccount
  pub find_legal_representative : String → Value
  pub beneficiary_dob : Value → Value → Option String
  pub reissue : String → String → Fields → ReissueAnswer

pub data ReissueResult : Type 0 where
  reissued : (withdrawal_id previous_withdrawal_id txn_ref : String) → ReissueResult
  rejected : (code message : String) (status_code : ℕ) → ReissueResult

-- `orchFrom`
abbrev pub orch_from : OfframpRow → Fields
orch_from row = orch_fields (get_palremit_orchestrator row.provider_refs)

unfoldable pub bank_code_from_provider_payout : Value → String
bank_code_from_provider_payout payout =
    let bank_code =
      text_at "bank_code" (record_or_empty (get "destination" (record_or_empty payout))) in
    if is_set bank_code && code_run 20 bank_code then bank_code else ""

abbrev account_of : ReissueDeps → OfframpRow → Option BankAccount
account_of deps row =
    let account_id = text_of (get "accountId" (record_or_empty row.destination)) in
    if is_set account_id && is_set row.user_id
    then deps.find_account account_id row.user_id
    else none

abbrev holder_of : Option BankAccount → Value
holder_of none = undefined
holder_of (some account) = account.account_holder

abbrev payout_of : Option BankAccount → Value
payout_of none = undefined
payout_of (some account) = account.provider_payout

abbrev dob_fields : Option String → Fields
dob_fields none = end
dob_fields (some dob) =
    if dob == "" then end else field "beneficiary" (obj (field "dob" (str dob) end)) end

abbrev bank_code_fields : String → Fields
bank_code_fields bank_code = if bank_code == "" then end else field "bank_code" (str bank_code) end

-- The fields that fill what the failed attempt left blank.
unfoldable pub overlay_destination : ReissueDeps → OfframpRow → Fields
overlay_destination deps row =
    let account = account_of deps row in
    let representative =
      if is_set row.user_id then deps.find_legal_representative row.user_id else undefined in
    spread (dob_fields (deps.beneficiary_dob (holder_of account) representative))
      (bank_code_fields (bank_code_from_provider_payout (payout_of account)))

abbrev pub reissue_key : String → String → String
reissue_key txn_ref withdrawal_id =
    cat "offramp-fiat-reissue:" (cat txn_ref (cat ":" withdrawal_id))

unfoldable pub add_item : Value → Items → Items
add_item v nil = cons v nil
add_item v (cons u rest) = cons u (add_item v rest)

abbrev pub items_of : Value → Items
items_of (arr xs) = xs
items_of _ = nil

abbrev null_unless_text : Value → Value
null_unless_text v = if is_text v then v else null

abbrev pub new_timeline : String → String → Fields → Fields
new_timeline now id old = spread old (
    object (
      ("fiatWithdrawalId", str id)
      ∷ ("fiatInitiatedAt", str now)
      ∷ ("fiatWithdrawalCompleted", bool false)
      ∷ ("completedAt", null)
      ∷ ("fiatPayoutLastError", null)
      ∷ ("fiatPayoutLastErrorAt", null)
      ∷ []))

unfoldable pub reissue_patch : String → String → String → Value → OfframpRow → OfframpPatch
reissue_patch now previous id sender_name row =
    let orch = orch_from row in
    let superseded = items_of (get "supersededWithdrawalIds" orch) in
    record no_offramp_patch {
      failed_reason = some none;
      lp_reference = some (some id);
      timeline = some (obj (new_timeline now id (record_or_empty row.timeline)));
      provider_refs = some (
          orchestrator_refs (get_palremit_orchestrator row.provider_refs) (
            ("palremitWithdrawalId", str id)
            ∷ ("senderName", or_default (null_unless_text (get "senderName" orch)) sender_name)
            ∷ ("withdrawalStatus", str "pending")
            ∷ ("markedManually", bool false)
            ∷ ("completedAt", null)
            ∷ ("supersededWithdrawalIds", arr (add_item (str previous) superseded))
            ∷ ("fiatPayoutLastError", null)
            ∷ ("fiatPayoutLastErrorAt", null)
            ∷ []));
    }

abbrev pub silent : UpdateOptions
silent = record { emit_partner_webhook = false; allow_after_funds = false }

abbrev reissue_status : ℕ → ℕ
reissue_status http_status = if leb 400 http_status && ltb http_status 600 then http_status else 422

-- `none` is an exception, which ends the call with nothing written.
unfoldable pub record_reissue :
    String → String → String → OfframpRow → ReissueAnswer → World → Option (ReissueResult × World)
record_reissue now previous txn_ref row reissue_throws w = none
record_reissue now previous txn_ref row (not_created message http_status) w =
    some (rejected "FIAT_PAYOUT_REISSUE_FAILED" message (reissue_status http_status), w)
record_reissue now previous txn_ref row (created id sender_name) w = do
  v ←
      update_offramp_status now silent row.id OfframpStatus.fiat_pending
        (reissue_patch now previous id sender_name row) w
  some (reissued id previous txn_ref, v)

abbrev pub attached_to : OfframpRow → String
attached_to row = offramp_fiat_withdrawal_id row.timeline row.provider_refs

unfoldable pub reissue_row :
    String → ReissueDeps → String → String → OfframpRow → World → Option (ReissueResult × World)
reissue_row now deps withdrawal_id txn_ref row w =
    if not (is_set (attached_to row)) || not (attached_to row == withdrawal_id)
    then some
        (rejected "PAYOUT_MISMATCH" "Offramp is no longer attached to that Palremit payout" 409, w)
    else record_reissue now withdrawal_id txn_ref row
        (deps.reissue withdrawal_id (reissue_key txn_ref withdrawal_id)
          (overlay_destination deps row))
        w

abbrev pub with_ref :
    String
    → ReissueDeps
    → String
    → OfframpRow
    → Option String
    → World
    → Option (ReissueResult × World)
with_ref now deps withdrawal_id row none w = some (rejected "NOT_FOUND" "Offramp not found" 404, w)
with_ref now deps withdrawal_id row (some txn_ref) w =
    if txn_ref == ""
    then some (rejected "NOT_FOUND" "Offramp not found" 404, w)
    else reissue_row now deps withdrawal_id txn_ref row w

abbrev pub reissue_found :
    String → ReissueDeps → String → Option OfframpRow → World → Option (ReissueResult × World)
reissue_found now deps withdrawal_id none w = some (rejected "NOT_FOUND" "Offramp not found" 404, w)
reissue_found now deps withdrawal_id (some row) w =
    with_ref now deps withdrawal_id row row.txn_ref w

unfoldable pub reissue_offramp_fiat_payout :
    String → ReissueDeps → String → String → World → Option (ReissueResult × World)
reissue_offramp_fiat_payout now deps offramp_id withdrawal_id w =
    reissue_found now deps withdrawal_id (find_offramp_by_id offramp_id w) w
