-- ===== src/Ramp/Store/Rows.antt =====
-- The stored rows, the state of the service, and the fields of an update (db/repositories/onramp.repo.ts
-- and offramp.repo.ts). Rows leave out the time stamps that the database itself keeps.
use api_bloxfi.Prelude.{String, Bool, true, false, Option, none, List}
use api_bloxfi.Json.{Value}
use api_bloxfi.Ramp.Status.{OnrampStatus, OfframpStatus, PartnerEvent}

pub record OnrampRow : Type 0 where
  pub id : String
  pub request_id : String
  pub user_id : String
  pub status : OnrampStatus
  pub txn_ref : Option String
  pub source : Value
  pub destination : Value
  pub quote_information : Value
  pub deposit_info : Value
  pub developer_fee : Value
  pub fees : Value
  pub receipt : Value
  pub provider_refs : Value
  pub failed_reason : Option String

pub record OfframpRow : Type 0 where
  pub id : String
  pub request_id : String
  pub txn_ref : Option String
  pub provider_refs : Value
  pub user_id : String
  pub status : OfframpStatus
  pub source : Value
  pub destination : Value
  pub rate_information : Value
  pub deposit_instructions : Value
  pub timeline : Value
  pub fees : Value
  pub receipt : Value
  pub refund_details : Value
  pub failed_reason : Option String
  pub lp_reference : Option String

pub record AccountRow : Type 0 where
  pub id : String
  pub user_id : String
  pub rail_type : String
  pub provisioned_account_id : Option String
  pub provider_issuance_status : Option String
  pub deposit_details : Value
  pub provider_issuance_failure_reason : Option String

pub data KybStatus : Type 0 where
  not_started incomplete under_review approved rejected suspended : KybStatus

pub record UserRow : Type 0 where
  pub id : String
  pub kyb_status : KybStatus
  pub approved_rails : List String

pub record KybRail : Type 0 where
  pub user_id : String
  pub rail : String
  pub status : String
  pub approved_at : Option String
  pub submitted_at : String

pub data HighValueStatus : Type 0 where
  hv_pending hv_approved hv_rejected : HighValueStatus

pub record HighValueRow : Type 0 where
  pub id : String
  pub request_id : String
  pub status : HighValueStatus
  pub reviewed_at : Option String

-- A scheduled partner webhook, with the ramp that it is about.
pub record SentEvent : Type 0 where
  pub event : PartnerEvent
  pub subject : String

pub data FeeJob : Type 0 where
  onramp_fee offramp_fee : String → FeeJob

pub record World : Type 0 where
  pub onramps : List OnrampRow
  pub offramps : List OfframpRow
  pub accounts : List AccountRow
  pub users : List UserRow
  pub kyb_rails : List KybRail
  pub high_values : List HighValueRow
  pub sent : List SentEvent
  pub fee_jobs : List FeeJob

-- The optional fields of an update: `none` is a field that is left out (`undefined`).
pub record OnrampPatch : Type 0 where
  pub receipt : Option Value
  pub failed_reason : Option (Option String)
  pub provider_refs : Option Value
  pub deposit_info : Option Value

abbrev pub no_onramp_patch : OnrampPatch
no_onramp_patch = record {
  receipt = none;
  failed_reason = none;
  provider_refs = none;
  deposit_info = none;
}

pub record OfframpPatch : Type 0 where
  pub deposit_instructions : Option Value
  pub timeline : Option Value
  pub fees : Option Value
  pub receipt : Option Value
  pub refund_details : Option Value
  pub failed_reason : Option (Option String)
  pub lp_reference : Option (Option String)
  pub provider_refs : Option Value

abbrev pub no_offramp_patch : OfframpPatch
no_offramp_patch = record {
  deposit_instructions = none;
  timeline = none;
  fees = none;
  receipt = none;
  refund_details = none;
  failed_reason = none;
  lp_reference = none;
  provider_refs = none;
}

pub record UpdateOptions : Type 0 where
  pub emit_partner_webhook : Bool
  pub allow_after_funds : Bool

abbrev pub automatic : UpdateOptions
automatic = record { emit_partner_webhook = true; allow_after_funds = false }
