-- ===== src/Webhook/Intake/DedupeKey.antt =====
-- core/webhooks/buildWebhookDedupeKey.ts: the key under which a delivery is recognised when the provider
-- sends it again.
pub mod Laws
use api_bloxfi.Prelude.{String, Bool, not, ◌&&◌, Option, none, some, List, [], ◌∷◌, if◌then◌else◌}
use Prim.Native.String.{◌++◌ as cat}
use api_bloxfi.Text.{trim, is_set}
use api_bloxfi.Json.{Value, str, obj, Fields, get, record_or_empty, text_at, is_text}
use api_bloxfi.Json.Sorted.{sort_json_deep}

-- `JSON.stringify`, and the first 32 digits of the SHA-256 of a text.
pub record Hashing : Type 0 where
  pub stringify : Value → String
  pub digest : String → String

unfoldable pub first_set : List String → String
first_set [] = ""
first_set (s ∷ rest) = let later = first_set rest in if is_set s then s else later

unfoldable pub palremit_client_reference_from_data : Fields → String
palremit_client_reference_from_data d = first_set (
    text_at "client_reference" d
    ∷ text_at "client_reference" (record_or_empty (get "withdrawal" d))
    ∷ text_at "client_reference" (record_or_empty (get "account" d))
    ∷ text_at "txnRef" d
    ∷ [])

-- `_id` is read only where `id` is no text.
abbrev own_id : Fields → String
own_id d = if is_text (get "id" d) then text_at "id" d else text_at "_id" d

unfoldable pub palremit_stable_entity_id_from_data : Fields → String
palremit_stable_entity_id_from_data d = first_set (
    own_id d
    ∷ text_at "id" (record_or_empty (get "deposit" d))
    ∷ text_at "id" (record_or_empty (get "withdrawal" d))
    ∷ text_at "id" (record_or_empty (get "account" d))
    ∷ [])

unfoldable pub stable_stringify : Hashing → Value → String
stable_stringify h v = h.stringify (sort_json_deep v)

unfoldable pub build_palremit_webhook_dedupe_key : Hashing → String → Fields → String
build_palremit_webhook_dedupe_key h event_type d =
    let ref = palremit_client_reference_from_data d in
    let id = palremit_stable_entity_id_from_data d in
    let hash = h.digest (stable_stringify h (obj d)) in
    let start = cat "palremit:" (cat event_type ":") in
    if is_set ref && is_set id
    then cat start (cat ref (cat ":" id))
    else if is_set ref
    then cat start (cat ref (cat ":" hash))
    else cat start (cat "notxn:" hash)
