-- ===== src/Offramp/Create/Request.antt =====
-- What createOfframp.ts works on (the request, the locked quote, stored accounts, the provider's deposit) and
-- its checks: the approval of the rail, the wallet, and quotes/assertOfframpQuoteCorridor.ts. The tables of
-- users, accounts and wallets, the provider and the settings of operators are fields of `CreateDeps`.
use api_bloxfi.Prelude.{
  String, Bool, true, false, not, ◌&&◌, ◌||◌, Option, none, some, List, [], ◌∷◌, if◌then◌else◌,
  ◌==◌, Verdict, pass, refuse, refuse_if,
}
use api_bloxfi.Text.{to_lower, to_upper, is_set}
use api_bloxfi.Numeric.{Number}
use api_bloxfi.Json.{
  Value, undefined, null, str, obj, Fields, get, object, record_or_empty, text_of,
}

pub data CreateError : Type 0 where
  user_mismatch user_not_found not_kyb_verified account_not_found wallet_not_found : CreateError
  currency_mismatch account_incomplete corridor_mismatch email_required : CreateError
  deposit_address_failed not_stored : CreateError

pub record Corridor : Type 0 where
  pub country : String
  pub destination_type : String
  pub beneficiary_type : String

-- The snapshot of a locked quote.
pub record OfframpQuote : Type 0 where
  pub from_currency : String
  pub to_currency : String
  pub from_chain : String
  pub send_amount : Number
  pub destination_amount : Number
  pub corridor : Corridor
  pub rate_information : Fields
  pub rate_valid_until : String
  pub fees : Value
  pub source_amount_cap : Option String
  pub send_net_amount : Option String

pub record CreateRequest : Type 0 where
  pub user_id : String
  pub external_wallet_id : String
  pub destination_user_id : String
  pub account_id : String
  pub destination_currency : Option String
  pub transfer_type : Option String
  pub bank_transfer_method : Value
  pub reference : Value
  pub purpose_of_payment : Value
  pub metadata : Value

pub record CreateUser : Type 0 where
  pub id : String
  pub business_info : Value

pub record OfframpAccount : Type 0 where
  pub id : String
  pub currency : String
  pub provider_payout : Value
  pub payment_rail : String

pub record ExternalWallet : Type 0 where
  pub id : String
  pub address : String

-- What the provider is asked for: an address for this amount.
pub record DepositRequest : Type 0 where
  pub email : String
  pub currency : String
  pub chain : String
  pub amount : Number
  pub request_id : String
  pub deposit_by : String
  pub txn_ref : String

pub record CreatedDeposit : Type 0 where
  pub deposit_instructions : Value
  pub provider_refs : Fields

-- `new_id` and `random_hex` are the id and the random digits of the new row; `format_cap` is
-- `formatSourceAmountCap`, with "" where it gives nothing.
pub record CreateDeps : Type 0 where
  pub find_user : String → Option CreateUser
  pub rail_statuses : String → String → List String
  pub find_account : String → String → Option OfframpAccount
  pub find_wallet : String → String → Option ExternalWallet
  pub is_account_ready : Value → Bool
  pub create_deposit : DepositRequest → Option CreatedDeposit
  pub resolve_sender_info : String → String → Option Value
  pub format_cap : Option String → String
  pub now : String
  pub new_id : String
  pub random_hex : String

-- An early return where there is nothing to go on with.
abbrev pub found_or {ℓ κ} :
    {A : Type ℓ} {B : Type κ}
    → Option A
    → CreateError
    → (A → Verdict CreateError B)
    → Verdict CreateError B
found_or none e k = refuse e
found_or (some a) e k = k a

unfoldable pub any_approved : List String → Bool
any_approved [] = false
any_approved (s ∷ rest) = let later = any_approved rest in if s == "approved" then true else later

-- `email` and `businessName` of `userDisplay`.
abbrev pub user_email : Value → String
user_email info = text_of (get "email" (record_or_empty info))

abbrev first_value : Value → Value → Value
first_value undefined v = v
first_value null v = v
first_value u v = u

abbrev pub user_display : Value → Value
user_display info =
    let fields = record_or_empty info in
    obj (
      object (
        ("email", str (user_email info))
        ∷ ("businessName", first_value (get "legalName" fields) (get "tradingName" fields))
        ∷ []))

-- `none` where a wallet is named and not found.
abbrev pub wallet_of : CreateDeps → CreateRequest → Option (Option ExternalWallet)
wallet_of deps req =
    if is_set req.external_wallet_id
    then named (deps.find_wallet req.external_wallet_id req.user_id)
    else some none
  where
    named : Option ExternalWallet → Option (Option ExternalWallet)
    named none = none
    named (some wallet) = some (some wallet)

abbrev corridor_of : Value → Fields
corridor_of provider_payout = record_or_empty (get "corridor" (record_or_empty provider_payout))

-- `assertOfframpQuoteCorridorMatchesAccount`
unfoldable pub assert_corridor : OfframpQuote → Value → Verdict CreateError (Unit {0})
assert_corridor quote payout =
    let c = corridor_of payout in
    let country = text_of (get "country" c) in
    let destination_type = text_of (get "destinationType" c) in
    let beneficiary_type = text_of (get "beneficiaryType" c) in
    let asset = text_of (get "asset" c) in
    let wanted = quote.corridor in
    refuse_if (not (is_set country) || not (is_set destination_type)) account_incomplete (
      refuse_if (not (to_upper country == to_upper wanted.country)) corridor_mismatch (
        refuse_if (not (destination_type == wanted.destination_type)) corridor_mismatch (
          refuse_if
            (is_set wanted.beneficiary_type
              && (is_set beneficiary_type && not (beneficiary_type == wanted.beneficiary_type)))
            corridor_mismatch
            (refuse_if (is_set asset && not (to_lower asset == quote.to_currency)) corridor_mismatch
              (pass tt)))))
