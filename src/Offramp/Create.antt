-- ===== src/Offramp/Create.antt =====
-- core/offramps/createOfframp.ts: an offramp at a locked quote, up to the stored row, and the creation of a
-- row in db/repositories/offramp.repo.ts. Of the deposit's request and the row, what the function computes
-- is kept; the response, which copies the row, is left out.
pub mod Request
pub mod Laws
pub mod Waits
use Prim.Native.String.{◌++◌ as cat}
use api_bloxfi.Prelude.{
  String, Bool, true, false, not, ◌&&◌, ◌||◌, Option, none, some, List, [], ◌∷◌, if◌then◌else◌,
  ◌==◌, otherwise, Verdict, pass, refuse, refuse_if,
}
use api_bloxfi.Text.{trim, to_lower, to_upper, is_set}
use api_bloxfi.Numeric.{Number}
use api_bloxfi.Json.{
  Value, undefined, null, num, str, obj, Fields, get, object, put, spread, as_record,
  record_or_empty, text_of,
}
use api_bloxfi.Table.{find}
use api_bloxfi.Offramp.Create.Request.{
  CreateError, user_mismatch, user_not_found, not_kyb_verified, account_not_found, wallet_not_found,
  currency_mismatch, account_incomplete, corridor_mismatch, email_required, deposit_address_failed,
  not_stored, OfframpQuote, CreateRequest, CreateUser, OfframpAccount, ExternalWallet,
  DepositRequest, CreatedDeposit, CreateDeps, found_or, any_approved, user_email, user_display,
  wallet_of, assert_corridor,
}
use api_bloxfi.TxnRef.{generate_offramp_txn_ref}
use api_bloxfi.Ramp.Status.{
  OfframpStatus, awaiting_crypto, map_offramp_status_to_event, should_emit_ramp_event,
}
use api_bloxfi.Ramp.Store.{World, OfframpRow, offramp_has_id, offramp_has_txn_ref, schedule}

abbrev wallet_fields : Option ExternalWallet → Fields
wallet_fields none = object []
wallet_fields (some wallet) =
    object (("externalWalletId", str wallet.id) ∷ ("walletAddress", str wallet.address) ∷ [])

-- `sourcePayload`; its `user` stands before the wallet here.
abbrev pub source_payload :
    CreateRequest → OfframpQuote → CreateUser → Option ExternalWallet → Value
source_payload req quote user wallet = obj (
    spread
      (object (
        ("userId", str req.user_id)
        ∷ ("currency", str (to_lower (trim quote.from_currency)))
        ∷ ("amount", num quote.send_amount)
        ∷ ("chain", str quote.from_chain)
        ∷ ("user", user_display user.business_info)
        ∷ []))
      (wallet_fields wallet))

abbrev pub transfer_type_of : CreateRequest → OfframpQuote → OfframpAccount → String
transfer_type_of req quote account =
    if to_lower (trim quote.to_currency) == "usd"
    then account.payment_rail
    else otherwise account.payment_rail req.transfer_type

-- `destinationPayload`; a property that is left out is `undefined`.
abbrev pub destination_payload : CreateRequest → OfframpQuote → CreateUser → OfframpAccount → Value
destination_payload req quote user account = obj (
    object (
      ("userId", str req.user_id)
      ∷ ("currency", str (to_lower (trim quote.to_currency)))
      ∷ ("amount", num quote.destination_amount)
      ∷ ("accountId", str account.id)
      ∷ ("transferType", str (transfer_type_of req quote account))
      ∷ ("bankTransferMethod", req.bank_transfer_method)
      ∷ ("reference", req.reference)
      ∷ ("purposeOfPayment", req.purpose_of_payment)
      ∷ ("user", user_display user.business_info)
      ∷ ("metadata", req.metadata)
      ∷ []))

-- `mergeSourceAmountCapIntoProviderRefs`
unfoldable pub merge_source_amount_cap : String → Fields → Fields
merge_source_amount_cap cap refs =
    let orch = record_or_empty (get "palremitOrchestrator" refs) in
    if is_set cap
    then put "palremitOrchestrator" (obj (put "sourceAmountCap" (str cap) orch)) refs
    else refs

abbrev with_sender : Option Value → Fields → Fields
with_sender none refs = refs
with_sender (some info) refs = put "senderInfo" info refs

abbrev first_cap : Option String → Option String → Option String
first_cap none other = other
first_cap (some cap) other = some cap

abbrev pub new_refs :
    CreateDeps → CreateRequest → OfframpQuote → OfframpAccount → CreatedDeposit → Value
new_refs deps req quote account deposit =
    let cap = deps.format_cap (first_cap quote.source_amount_cap quote.send_net_amount) in
    let sender =
      deps.resolve_sender_info (to_lower (trim quote.to_currency))
        (to_lower (transfer_type_of req quote account)) in
    obj (with_sender sender (merge_source_amount_cap cap deposit.provider_refs))

abbrev pub new_row :
    CreateDeps
    → CreateRequest
    → String
    → OfframpQuote
    → CreateUser
    → OfframpAccount
    → Option ExternalWallet
    → CreatedDeposit
    → OfframpRow
new_row deps req request_id quote user account wallet deposit = record {
  id = deps.new_id;
  request_id = request_id;
  txn_ref = some (generate_offramp_txn_ref deps.random_hex);
  provider_refs = new_refs deps req quote account deposit;
  user_id = req.user_id;
  status = awaiting_crypto;
  source = source_payload req quote user wallet;
  destination = destination_payload req quote user account;
  rate_information = obj (put "expiresAt" (str quote.rate_valid_until) quote.rate_information);
  deposit_instructions = deposit.deposit_instructions;
  timeline = obj (object (("createdAt", str deps.now) ∷ []));
  fees = quote.fees;
  receipt = null;
  refund_details = null;
  failed_reason = none;
  lp_reference = some (generate_offramp_txn_ref deps.random_hex);
}

abbrev pub deposit_request : CreateDeps → OfframpQuote → String → CreateUser → DepositRequest
deposit_request deps quote request_id user = record {
  email = trim (user_email user.business_info);
  currency = to_lower (trim quote.from_currency);
  chain = quote.from_chain;
  amount = quote.send_amount;
  request_id = request_id;
  deposit_by = quote.rate_valid_until;
  txn_ref = generate_offramp_txn_ref deps.random_hex;
}

-- The columns that the database keeps unique; a row shares its reference with itself only.
abbrev pub same_keys : OfframpRow → OfframpRow → Bool
same_keys row other =
    (other.id == row.id)
    || ((other.request_id == row.request_id) || offramp_has_txn_ref (ref_text row.txn_ref) other)
  where
    ref_text : Option String → String
    ref_text none = ""
    ref_text (some t) = t

abbrev pub is_taken : Option OfframpRow → Bool
is_taken none = false
is_taken (some row) = true

-- `createOfframp` of the repository: `none` where the database refuses the row. Rows have no order.
unfoldable pub insert_offramp : OfframpRow → World → Option World
insert_offramp row w =
    let event = should_emit_ramp_event none (map_offramp_status_to_event row.status) in
    if is_taken (find (same_keys row) w.offramps)
    then none
    else some (record w { offramps = row ∷ w.offramps; sent = schedule true row.id event w.sent })

abbrev pub stored_row : OfframpRow → World → Verdict CreateError (OfframpRow × World)
stored_row row w = found_or (insert_offramp row w) not_stored λ w'. pass (row, w')

abbrev pub with_deposit :
    CreateDeps
    → CreateRequest
    → String
    → OfframpQuote
    → World
    → CreateUser
    → OfframpAccount
    → Option ExternalWallet
    → Verdict CreateError (OfframpRow × World)
with_deposit deps req request_id quote w user account wallet =
    found_or (deps.create_deposit (deposit_request deps quote request_id user))
      deposit_address_failed
      λ deposit. stored_row (new_row deps req request_id quote user account wallet deposit) w

abbrev pub after_corridor :
    Verdict CreateError (Unit {0})
    → Verdict CreateError (OfframpRow × World)
    → Verdict CreateError (OfframpRow × World)
after_corridor (refuse e) rest = refuse e
after_corridor (pass t) rest = rest

-- The checks of the account against the quote, and of the email.
abbrev pub for_wallet :
    CreateDeps
    → CreateRequest
    → String
    → OfframpQuote
    → World
    → CreateUser
    → OfframpAccount
    → Option ExternalWallet
    → Verdict CreateError (OfframpRow × World)
for_wallet deps req request_id quote w user account wallet =
    refuse_if (not (to_lower (trim account.currency) == to_lower (trim quote.to_currency)))
      currency_mismatch
      (refuse_if (not (deps.is_account_ready account.provider_payout)) account_incomplete (
        after_corridor (assert_corridor quote account.provider_payout) (
          refuse_if (not (is_set (trim (user_email user.business_info)))) email_required
            (with_deposit deps req request_id quote w user account wallet))))

abbrev pub for_account :
    CreateDeps
    → CreateRequest
    → String
    → OfframpQuote
    → World
    → CreateUser
    → OfframpAccount
    → Verdict CreateError (OfframpRow × World)
for_account deps req request_id quote w user account =
    found_or (wallet_of deps req) wallet_not_found
      (for_wallet deps req request_id quote w user account)

abbrev pub is_approved : CreateDeps → CreateRequest → Bool
is_approved deps req =
    any_approved
      (deps.rail_statuses req.user_id (to_upper (otherwise "USD" req.destination_currency)))

abbrev pub for_user :
    CreateDeps
    → CreateRequest
    → String
    → OfframpQuote
    → World
    → CreateUser
    → Verdict CreateError (OfframpRow × World)
for_user deps req request_id quote w user =
    refuse_if (not (is_approved deps req)) not_kyb_verified (
      found_or (deps.find_account req.account_id req.user_id) account_not_found
        (for_account deps req request_id quote w user))

unfoldable pub create_offramp :
    CreateDeps
    → CreateRequest
    → String
    → OfframpQuote
    → World
    → Verdict CreateError (OfframpRow × World)
create_offramp deps req request_id quote w =
    refuse_if (not (req.destination_user_id == req.user_id)) user_mismatch
      (found_or (deps.find_user req.user_id) user_not_found (for_user deps req request_id quote w))
