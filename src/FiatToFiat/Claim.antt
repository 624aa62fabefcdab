-- ===== src/FiatToFiat/Claim.antt =====
-- The queries of the fiat-to-fiat flow (db/repositories/offramp.repo.ts and onramp.repo.ts): the open
-- offramps at a deposit address, the onramps that still fund an offramp, and `claimOfframpCrypto`, which
-- reads the row and then writes it under a condition on its status, two steps that another writer can
-- come between. A list of statuses is given by its membership test.
pub mod Laws
use api_bloxfi.Prelude.{
  String, Bool, true, false, not, ◌&&◌, ◌||◌, Option, none, some, List, map, ◌==◌, ◌>>=◌, ◌>>◌,
  require,
}
use api_bloxfi.Json.{Value, str, obj, get, spread, record_or_empty}
use api_bloxfi.Table.{find, modify, select}
use api_bloxfi.Ramp.Status.{
  OnrampStatus, OfframpStatus, crypto_confirmed, fiat_returned, map_offramp_status_to_event,
  should_emit_ramp_event,
}
use api_bloxfi.Ramp.Store.{World, OnrampRow, OfframpRow, find_offramp_by_id, schedule}
use api_bloxfi.FiatToFiat.Pair.{is_settleable}

-- A JSON column has this text at the path.
abbrev pub has_text_at : String → String → Value → Bool
has_text_at k s v = is_text_of s (get k (record_or_empty v))
  where
    is_text_of : String → Value → Bool
    is_text_of s (str t) = t == s
    is_text_of s _ = false

abbrev is_open_at : String → String → OfframpRow → Bool
is_open_at user_id address r =
    (r.user_id == user_id)
    && (is_settleable r.status && has_text_at "address" address r.deposit_instructions)

unfoldable pub find_open_offramps_by_deposit_address : String → String → World → List OfframpRow
find_open_offramps_by_deposit_address user_id address w =
    select (is_open_at user_id address) w.offramps

abbrev is_ended_unfunded : OnrampStatus → Bool
is_ended_unfunded OnrampStatus.expired = true
is_ended_unfunded OnrampStatus.fiat_failed = true
is_ended_unfunded fiat_returned = true
is_ended_unfunded _ = false

abbrev pub funds_offramp : String → String → OnrampRow → Bool
funds_offramp ref address r =
    not (is_ended_unfunded r.status)
    && (has_text_at "offrampId" ref r.destination
        || has_text_at "walletAddress" address r.destination)

unfoldable pub find_live_onramps_for_offramp : String → String → World → List (Option String)
find_live_onramps_for_offramp ref address w =
    map (λ (r : OnrampRow). r.txn_ref) (select (funds_offramp ref address) w.onramps)

pub record ClaimUpdates : Type 0 where
  pub timeline : Value
  pub provider_refs : Value
  pub receipt : Value

abbrev pub claimable : String → (OfframpStatus → Bool) → OfframpRow → Bool
claimable id from r = (r.id == id) && from r.status

-- The columns that the second step writes; the provider references were merged in the first.
abbrev pub claimed_row : Value → ClaimUpdates → OfframpRow → OfframpRow
claimed_row refs u r = record r {
  status = crypto_confirmed;
  timeline = u.timeline;
  provider_refs = refs;
  receipt = u.receipt;
  failed_reason = none;
}

-- What the first step carries over to the second.
pub record ClaimRead : Type 0 where
  pub old_status : OfframpStatus
  pub merged_refs : Value

unfoldable pub read_claim :
    String → (OfframpStatus → Bool) → ClaimUpdates → World → Option ClaimRead
read_claim id from u w = do
  existing ← find_offramp_by_id id w
  require (from existing.status)
  some (record {
    old_status = existing.status;
    merged_refs =
        obj (spread (record_or_empty existing.provider_refs) (record_or_empty u.provider_refs));
  })

-- `none` where `updateMany` finds no row to write.
unfoldable pub write_claim :
    String → (OfframpStatus → Bool) → ClaimUpdates → ClaimRead → World → Option World
write_claim id from u read w = do
  row ← find (claimable id from) w.offramps
  let event =
      should_emit_ramp_event (map_offramp_status_to_event read.old_status)
        (map_offramp_status_to_event crypto_confirmed)
  some (record w {
    offramps = modify (claimable id from) (claimed_row read.merged_refs u) w.offramps;
    sent = schedule true id event w.sent;
  })

-- `none` is the answer false.
unfoldable pub claim_offramp_crypto :
    String → (OfframpStatus → Bool) → ClaimUpdates → World → Option World
claim_offramp_crypto id from u w = do read ← read_claim id from u w; write_claim id from u read w
