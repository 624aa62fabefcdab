-- ===== src/Payout/Hold/Message.antt =====
-- services/palremitErrorMessage.ts: the readable message in an error of the provider.
use Prim.Native.String.{String, ◌++◌ as cat}
use api_bloxfi.Prelude.{Option, none, some, [], ◌∷◌, if◌then◌else◌}
use api_bloxfi.Text.{trim, is_set}
use api_bloxfi.Json.{Value, str, arr, obj, Fields, Items, nil, cons, get, text_at, record_or_empty}
use api_bloxfi.Webhook.Intake.DedupeKey.{first_set}

abbrev set_text : String → Option String
set_text s = if is_set s then some s else none

abbrev pub item_message : Value → String
item_message (str s) = trim s
item_message (obj o) = text_at "message" o
item_message _ = ""

-- `parts.join('; ')` over the parts that are set.
unfoldable pub joined_messages : Items → String
joined_messages nil = ""
joined_messages (cons v rest) =
    let later = joined_messages rest in
    let message = item_message v in
    if is_set message then if is_set later then cat message (cat "; " later) else message else later

abbrev errors_of : Value → String
errors_of (arr items) = joined_messages items
errors_of _ = ""

abbrev message_of_fields : Fields → Option String
message_of_fields o =
    let nested = record_or_empty (get "data" o) in
    let candidate = first_set (
      text_at "message" o
      ∷ text_at "error" o
      ∷ text_at "detail" o
      ∷ text_at "title" o
      ∷ text_at "message" nested
      ∷ text_at "error" nested
      ∷ text_at "detail" nested
      ∷ []) in
    if is_set candidate then some candidate else set_text (errors_of (get "errors" o))

unfoldable pub extract_palremit_error_message : Value → Option String
extract_palremit_error_message (str s) = set_text (trim s)
extract_palremit_error_message (obj o) = message_of_fields o
extract_palremit_error_message _ = none
