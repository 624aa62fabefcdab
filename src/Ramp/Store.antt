-- ===== src/Ramp/Store.antt =====
-- The repositories that read and update the stored ramps (db/repositories/onramp.repo.ts and
-- offramp.repo.ts). The state of the service is a `World`: the tables, the partner webhooks that were
-- scheduled and the fee settlements that were started.
mod Rows
pub use Rows.*
use api_bloxfi.Prelude.{
  String, Bool, true, false, not, ◌&&◌, Option, none, some, List, [], ◌∷◌, ◌++◌, if◌then◌else◌,
  ◌==◌, ◌>>=◌, otherwise,
}
use api_bloxfi.Text.{trim}
use api_bloxfi.Json.{Value, undefined, null, obj, put, spread, record_or_empty}
use api_bloxfi.Table.{find, modify}
use api_bloxfi.Ramp.Status.{
  OnrampStatus, OfframpStatus, onramp_status_text, offramp_status_text, PartnerEvent,
  map_onramp_status_to_event, map_offramp_status_to_event, should_emit_ramp_event,
}
use api_bloxfi.Ramp.Guard.{blocks_onramp_transition, blocks_offramp_transition, held_failure_record}

abbrev pub onramp_has_id : String → OnrampRow → Bool
onramp_has_id id r = r.id == id

abbrev pub offramp_has_id : String → OfframpRow → Bool
offramp_has_id id r = r.id == id

abbrev is_some_text : Option String → String → Bool
is_some_text none t = false
is_some_text (some s) t = s == t

abbrev pub onramp_has_txn_ref : String → OnrampRow → Bool
onramp_has_txn_ref t r = is_some_text r.txn_ref t

abbrev pub offramp_has_txn_ref : String → OfframpRow → Bool
offramp_has_txn_ref t r = is_some_text r.txn_ref t

unfoldable pub find_onramp_by_id : String → World → Option OnrampRow
find_onramp_by_id id w = find (onramp_has_id id) w.onramps

unfoldable pub find_offramp_by_id : String → World → Option OfframpRow
find_offramp_by_id id w = find (offramp_has_id id) w.offramps

unfoldable pub find_onramp_by_txn_ref : String → World → Option OnrampRow
find_onramp_by_txn_ref ref w =
    let t = trim ref in if t == "" then none else find (onramp_has_txn_ref t) w.onramps

unfoldable pub find_offramp_by_txn_ref : String → World → Option OfframpRow
find_offramp_by_txn_ref ref w =
    let t = trim ref in if t == "" then none else find (offramp_has_txn_ref t) w.offramps

abbrev flat_reason : Option (Option String) → Option String
flat_reason none = none
flat_reason (some r) = r

-- `providerRefsUpdate`
abbrev refs_update : Bool → String → Option String → String → Option Value → Option Value
refs_update false attempted reason now given = given
refs_update true attempted reason now given = some (
    obj (
      put "heldFailure" (held_failure_record attempted reason now)
        (record_or_empty (otherwise undefined given))))

-- `mergedProviderRefs`, and the column as it is where there is nothing to merge.
abbrev pub merged_refs : Value → Option Value → Value
merged_refs old none = old
merged_refs old (some undefined) = old
merged_refs old (some null) = old
merged_refs old (some v) = obj (spread (record_or_empty old) (record_or_empty v))

-- The new row of `updateOnrampStatus`.
unfoldable pub updated_onramp :
    String → UpdateOptions → OnrampStatus → OnrampPatch → OnrampRow → OnrampRow
updated_onramp now o status u r =
    let held = not o.allow_after_funds && blocks_onramp_transition r.status status in
    let refs =
      refs_update held (onramp_status_text status) (flat_reason u.failed_reason) now
        u.provider_refs in
    record r {
      status = if held then r.status else status;
      receipt = otherwise r.receipt u.receipt;
      failed_reason = if held then r.failed_reason else otherwise r.failed_reason u.failed_reason;
      deposit_info = otherwise r.deposit_info u.deposit_info;
      provider_refs = merged_refs r.provider_refs refs;
    }

-- The new row of `updateOfframpStatus`.
unfoldable pub updated_offramp :
    String → UpdateOptions → OfframpStatus → OfframpPatch → OfframpRow → OfframpRow
updated_offramp now o status u r =
    let held = not o.allow_after_funds && blocks_offramp_transition r.status r.timeline status in
    let refs =
      refs_update held (offramp_status_text status) (flat_reason u.failed_reason) now
        u.provider_refs in
    record r {
      status = if held then r.status else status;
      deposit_instructions = otherwise r.deposit_instructions u.deposit_instructions;
      timeline = otherwise r.timeline u.timeline;
      fees = otherwise r.fees u.fees;
      receipt = otherwise r.receipt u.receipt;
      refund_details = otherwise r.refund_details u.refund_details;
      failed_reason = if held then r.failed_reason else otherwise r.failed_reason u.failed_reason;
      lp_reference = otherwise r.lp_reference u.lp_reference;
      provider_refs = merged_refs r.provider_refs refs;
    }

unfoldable pub schedule : Bool → String → Option PartnerEvent → List SentEvent → List SentEvent
schedule false subject e sent = sent
schedule true subject none sent = sent
schedule true subject (some e) sent = sent ++ record { event = e; subject = subject } ∷ []

-- `none` where no row has the id: the database refuses the update, and nothing is written.
unfoldable pub update_onramp_status :
    String → UpdateOptions → String → OnrampStatus → OnrampPatch → World → Option World
unfolding find_onramp_by_id
update_onramp_status now o id status u w = do
  existing ← find_onramp_by_id id w
  let row = updated_onramp now o status u existing
  let event =
      should_emit_ramp_event (map_onramp_status_to_event existing.status)
        (map_onramp_status_to_event row.status)
  some (record w {
    onramps = modify (onramp_has_id id) (updated_onramp now o status u) w.onramps;
    sent = schedule true id event w.sent;
  })

unfoldable pub update_offramp_status :
    String → UpdateOptions → String → OfframpStatus → OfframpPatch → World → Option World
unfolding find_offramp_by_id
update_offramp_status now o id status u w = do
  existing ← find_offramp_by_id id w
  let row = updated_offramp now o status u existing
  let event =
      should_emit_ramp_event (map_offramp_status_to_event existing.status)
        (map_offramp_status_to_event row.status)
  some (record w {
    offramps = modify (offramp_has_id id) (updated_offramp now o status u) w.offramps;
    sent = schedule o.emit_partner_webhook id event w.sent;
  })
