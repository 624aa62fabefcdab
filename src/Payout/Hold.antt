-- ===== src/Payout/Hold.antt =====
-- core/admin/heldPayouts.ts: payouts that the provider holds, and the acceptance of a higher limit for
-- one that is held for its rate. The provider is a function from requests to answers, and a request
-- stands for its path, headers and body; the name of a beneficiary is a parameter.
pub mod Message
pub mod Accept
use Prim.Native.Nat.{ℕ, zero, suc}
use Prim.Native.Char.{code}
use Prim.Native.String.{String, [], ◌∷◌, ◌++◌ as cat}
use mathlib.Core.List.{List, [], ◌∷◌, ◌++◌, map}
use mathlib.Core.Option.{Option, none, some}
use mathlib.Core.Bool.{Bool, true, false, not, ◌&&◌, ◌||◌}
use api_bloxfi.Prelude.{
  if◌then◌else◌, leb, ltb, nat_eq, ◌==◌, otherwise, Verdict, pass, refuse, refuse_if,
}
use api_bloxfi.Text.{trim, is_set, or_else, to_upper}
use api_bloxfi.Numeric.{Number, units, minus, not_finite, parse_number}
use api_bloxfi.Json.{Value, Fields, record_or_empty, get, text_of}
use api_bloxfi.Ramp.Status.{OfframpStatus}
use api_bloxfi.Ramp.Store.{World, OfframpRow, find_offramp_by_id, find_offramp_by_txn_ref}
use api_bloxfi.Offramp.FiatRetry.{offramp_fiat_withdrawal_id}
use api_bloxfi.Payout.Hold.Message.{extract_palremit_error_message}

pub record AppError : Type 0 where
  pub message : String
  pub code : String
  pub status_code : ℕ

-- An exception of a request: an HTTP error of the provider with its data, or another one.
pub data Failure : Type 0 where
  http_error : (status : ℕ) (answer : Value) → Failure
  unreachable : Failure

-- `e.status >= 400 && e.status < 500`
abbrev is_client_error : ℕ → Bool
is_client_error status = leb 400 status && ltb status 500

unfoldable pub orchestrator_error : Failure → String → AppError
orchestrator_error (http_error status answer) fallback = record {
  message = otherwise fallback (extract_palremit_error_message answer);
  code = if nat_eq status 409 then "HOLD_CHANGED" else "ORCHESTRATOR_REJECTED";
  status_code = if nat_eq status 409 then 409 else if is_client_error status then 400 else 502;
}
orchestrator_error unreachable fallback = record {
  message = fallback;
  code = "ORCHESTRATOR_UNAVAILABLE";
  status_code = 502;
}

pub record HeldWithdrawal : Type 0 where
  pub id : String
  pub client_reference : String
  pub asset : String
  pub amount : Number
  pub created_at : String
  pub hold : Value

pub record HeldPayoutListItem : Type 0 where
  pub withdrawal_id : String
  pub txn_ref : String
  pub offramp_id : Option String
  pub offramp_status : Option OfframpStatus
  pub beneficiary_name : Option String
  pub payout_amount : Number
  pub payout_currency : String
  pub source_currency : Option String
  pub created_at : String
  pub hold : Value

abbrev source_currency_of : Option OfframpRow → Option String
source_currency_of none = none
source_currency_of (some row) =
    let currency = text_of (get "currency" (record_or_empty row.source)) in
    if is_set currency then some (to_upper currency) else none

abbrev map_row {ℓ κ} : {A : Type ℓ} {B : Type κ} → (A → B) → Option A → Option B
map_row f none = none
map_row f (some a) = some (f a)

abbrev name_for : (OfframpRow → Option String) → Option OfframpRow → Option String
name_for name none = none
name_for name (some row) = name row

abbrev pub held_item : (OfframpRow → Option String) → World → HeldWithdrawal → HeldPayoutListItem
held_item name w held =
    let offramp = find_offramp_by_txn_ref held.client_reference w in
    record {
      withdrawal_id = held.id;
      txn_ref = held.client_reference;
      offramp_id = map_row (λ r. r.id) offramp;
      offramp_status = map_row (λ r. r.status) offramp;
      beneficiary_name = name_for name offramp;
      payout_amount = held.amount;
      payout_currency = held.asset;
      source_currency = source_currency_of offramp;
      created_at = held.created_at;
      hold = held.hold;
    }

-- The answer carries no list where `data` is no array.
unfoldable pub list_held_payouts :
    (OfframpRow → Option String)
    → Verdict Failure (Option (List HeldWithdrawal))
    → World
    → Verdict AppError (List HeldPayoutListItem)
list_held_payouts name (refuse e) w =
    refuse (orchestrator_error e "Could not load held payouts from Palremit")
list_held_payouts name (pass rows) w = pass (map (held_item name w) (otherwise [] rows))

abbrev pub with_payout : Option OfframpRow → Verdict AppError (OfframpRow × String)
with_payout none =
    refuse (record { message = "Offramp not found"; code = "NOT_FOUND"; status_code = 404 })
with_payout (some row) =
    let withdrawal_id = offramp_fiat_withdrawal_id row.timeline row.provider_refs in
    refuse_if (not (is_set withdrawal_id))
      (record {
        message = "This offramp has no Palremit payout yet";
        code = "NO_PAYOUT";
        status_code = 400;
      })
      (pass (row, withdrawal_id))

unfoldable pub held_withdrawal_id_for : String → World → Verdict AppError (OfframpRow × String)
held_withdrawal_id_for id w = with_payout (find_offramp_by_id id w)

abbrev hold_answer {ℓ} : {A : Type ℓ} → String → Verdict Failure A → Verdict AppError (String × A)
hold_answer id (refuse e) =
    refuse (orchestrator_error e "Could not load the payout hold from Palremit")
hold_answer id (pass view) = pass (id, view)

abbrev hold_of {ℓ} :
    {A : Type ℓ}
    → (String → Verdict Failure A)
    → String
    → Verdict AppError (OfframpRow × String)
    → Verdict AppError (String × A)
hold_of request id (refuse e) = refuse e
hold_of request id (pass held) = hold_answer id (request held.1)

-- The view of a hold with the id of the offramp; `request` reads the hold of a withdrawal.
unfoldable pub get_held_payout {ℓ} :
    {A : Type ℓ} → (String → Verdict Failure A) → String → World → Verdict AppError (String × A)
get_held_payout request id w = hold_of request id (held_withdrawal_id_for id w)
