-- ===== src/Webhook/Intake/Signature.antt =====
-- services/webhookVerify.ts: the signature of a delivery, over its body or over the body printed again.
use Prim.Native.Nat.{ℕ, zero, suc}
use Prim.Native.String.{String, [], ◌∷◌}
use mathlib.Core.Bool.{Bool, true, false, not, ◌&&◌, ◌||◌}
use mathlib.Core.Option.{Option, none, some}
use api_bloxfi.Prelude.{if◌then◌else◌, ◌==◌}
use api_bloxfi.Text.{trim, is_set, starts_with}
use api_bloxfi.Json.{Value}

-- The HMAC of a text under a secret in hexadecimal digits, `JSON.parse` (`none` where it throws),
-- `JSON.stringify`, and the bytes of a text of hexadecimal digits.
pub record Signing : Type 0 where
  pub hmac_hex : (secret text : String) → String
  pub parse : String → Option Value
  pub stringify : Value → String
  pub bytes_of_hex : String → String

unfoldable pub has_length : ℕ → String → Bool
has_length zero [] = true
has_length zero (c ∷ s) = false
has_length (suc n) [] = false
has_length (suc n) (c ∷ s) = has_length n s

unfoldable pub hex_timing_safe_equal : Signing → String → String → Bool
hex_timing_safe_equal g a b =
    has_length 64 a && (has_length 64 b && (g.bytes_of_hex a == g.bytes_of_hex b))

unfoldable pub drop_text : ℕ → String → String
drop_text zero s = s
drop_text (suc n) [] = ""
drop_text (suc n) (c ∷ s) = drop_text n s

-- `s.slice(0, n)`
unfoldable pub take_text : ℕ → String → String
take_text zero s = ""
take_text (suc n) [] = ""
take_text (suc n) (c ∷ s) = c ∷ take_text n s

unfoldable pub received_signature : String → String
received_signature header =
    if starts_with header "sha256=" then trim (drop_text 7 header) else trim header

abbrev agrees_with : Signing → String → String → String → Option Value → Bool
agrees_with g raw secret received none = false
agrees_with g raw secret received (some v) =
    has_length 64 received
    && (hex_timing_safe_equal g received (g.hmac_hex secret (g.stringify v))
        || hex_timing_safe_equal g received (g.hmac_hex secret raw))

unfoldable pub verify_palremit_webhook_signature : Signing → String → String → String → Bool
verify_palremit_webhook_signature g raw secret header =
    if not (is_set secret && (is_set header && is_set raw))
    then false
    else agrees_with g raw secret (received_signature header) (g.parse raw)
