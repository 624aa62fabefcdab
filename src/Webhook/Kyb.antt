-- ===== src/Webhook/Kyb.antt =====
-- The cases `kyb.status_updated`, `kyb.approved` and `kyb.rejected`. The rails of the payload are the
-- texts of its array.
use api_bloxfi.Prelude.{
  String, Bool, true, false, not, ◌&&◌, Option, none, some, List, [], ◌∷◌, ◌++◌, if◌then◌else◌,
  ◌==◌, ◌>>=◌, ◌>>◌, require,
}
use api_bloxfi.Text.{to_lower, is_set, or_else}
use api_bloxfi.Json.{Value, arr, str, Fields, get, text_at, texts, is_truthy}
use api_bloxfi.Table.{find, modify}
use api_bloxfi.Ramp.Status.{PartnerEvent}
use api_bloxfi.Ramp.Store.{
  World, UserRow, KybRail, KybStatus, not_started, incomplete, under_review, approved, rejected,
  suspended, schedule,
}
use api_bloxfi.Webhook.Repos.{WebhookRepos, EventType}

unfoldable pub to_kyb_status : String → KybStatus
to_kyb_status s =
    let v = to_lower s in
    if v == "not_started"
    then not_started
    else if v == "incomplete"
    then incomplete
    else if v == "under_review"
    then under_review
    else if v == "approved"
    then approved
    else if v == "rejected"
    then rejected
    else if v == "suspended"
    then suspended
    else under_review

abbrev kyb_code : KybStatus → String
kyb_code not_started = "not_started"
kyb_code incomplete = "incomplete"
kyb_code under_review = "under_review"
kyb_code approved = "approved"
kyb_code rejected = "rejected"
kyb_code suspended = "suspended"

abbrev verdict : EventType → String
verdict EventType.kyb_approved = "approved"
verdict EventType.kyb_rejected = "rejected"
verdict _ = ""

-- The status that the payload names, or that of the event; empty where there is none.
abbrev kyb_status_text : EventType → Value → Option String
kyb_status_text event (str s) = some (or_else s (verdict event))
kyb_status_text event v = if is_truthy v then none else some (verdict event)

abbrev rails_of : Value → List String
rails_of (arr items) = texts items
rails_of _ = []

abbrev is_approval : EventType → Bool
is_approval EventType.kyb_approved = true
is_approval _ = false

abbrev has_items : List String → Bool
has_items [] = false
has_items (x ∷ xs) = true

abbrev update_user : KybStatus → Bool → List String → UserRow → UserRow
update_user status with_rails rails u = record u {
  kyb_status = status;
  approved_rails = if with_rails then rails else u.approved_rails;
}

unfoldable pub apply_kyb_status :
    EventType → String → String → List String → UserRow → World → World
unfolding to_kyb_status schedule
apply_kyb_status event id text rails existing w =
    let status = to_kyb_status text in
    let changed = not (kyb_code status == kyb_code existing.kyb_status) in
    if is_set text
    then record w {
      users =
          modify (λ (u : UserRow). u.id == id)
            (update_user status (is_approval event && has_items rails) rails) w.users;
      sent = schedule changed id (some PartnerEvent.kyb_status_updated) w.sent;
    }
    else w

abbrev rail_status : EventType → String → String
rail_status EventType.kyb_approved text = "approved"
rail_status EventType.kyb_rejected text = "rejected"
rail_status _ text = or_else text "under_review"

abbrev rail_approved_at : EventType → String → Option String
rail_approved_at EventType.kyb_approved now = some now
rail_approved_at _ now = none

abbrev is_rail : String → String → KybRail → Bool
is_rail id rail r = r.user_id == id && (r.rail == rail)

abbrev kept_time : Option String → Option String → Option String
kept_time old none = old
kept_time old (some t) = some t

-- The upsert of one rail.
unfoldable pub upsert_rail :
    String → String → String → Option String → String → List KybRail → List KybRail
upsert_rail now id status approved_at rail rows = elim (find (is_rail id rail) rows) [
  | none ↦
      rows
      ++ record {
        user_id = id;
        rail = rail;
        status = status;
        approved_at = approved_at;
        submitted_at = now;
      }
        ∷ []
  | some r ↦
      modify (is_rail id rail)
        (λ (r : KybRail). record r {
          status = status;
          approved_at = kept_time r.approved_at approved_at;
        })
        rows
]

unfoldable pub update_kyb_rail_statuses :
    String → String → String → Option String → List String → List KybRail → List KybRail
update_kyb_rail_statuses now id status approved_at [] rows = rows
update_kyb_rail_statuses now id status approved_at (rail ∷ rails) rows =
    update_kyb_rail_statuses now id status approved_at rails
      (upsert_rail now id status approved_at rail rows)

-- The user's status, and then that of the rails.
unfoldable pub apply_kyb_event :
    WebhookRepos → EventType → String → String → List String → UserRow → World → World
unfolding apply_kyb_status update_kyb_rail_statuses
apply_kyb_event repos event id text rails existing w =
    let w' = apply_kyb_status event id text rails existing w in
    record w' {
      kyb_rails =
          update_kyb_rail_statuses repos.now id (rail_status event text)
            (rail_approved_at event repos.now) rails w'.kyb_rails;
    }

unfoldable pub kyb_event : WebhookRepos → EventType → Fields → World → Option World
kyb_event repos event d w = do
  let id = text_at "userId" d
  require (is_set id)
  let rails = rails_of (get "rails" d)
  existing ← find (λ (u : UserRow). u.id == id) w.users
  text ← kyb_status_text event (get "kybStatus" d)
  some (apply_kyb_event repos event id text rails existing w)
