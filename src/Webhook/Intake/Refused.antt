-- ===== src/Webhook/Intake/Refused.antt =====
-- The checks of a delivery refuse it with outcomes of their own, never with those of a handled event.
use api_bloxfi.Prelude.{
  ℕ, String, Bool, true, false, not, ◌&&◌, ◌≡◌, refl, Option, none, some, if◌then◌else◌, ◌==◌,
  Verdict, pass, refuse,
}
use api_bloxfi.Text.{trim, is_set}
use api_bloxfi.Json.{Value}
use api_bloxfi.Webhook.Intake.Payload.{InboundPayload, inbound_webhook_payload}
use api_bloxfi.Webhook.Intake.Signature.{verify_palremit_webhook_signature}
use api_bloxfi.Webhook.Intake.{
  Platform, Settings, InboundRequest, InboundOutcome, processed, handler_error, Answer, header_text,
  check_signature, check_header, check_parsed, after_signature, check_body,
}

abbrev pub is_handled : InboundOutcome → ℕ
is_handled processed = 1
is_handled handler_error = 1
is_handled _ = 0

-- What is refused is not handled.
abbrev pub Unhandled {ℓ} : {A : Type ℓ} → Verdict (InboundOutcome × Answer) A → Type 0
Unhandled (pass a) = Unit
Unhandled (refuse r) = is_handled r.0 ≡ 0

Unhandled-if {ℓ} :
    {A : Type ℓ} (b : Bool) (m n : Verdict (InboundOutcome × Answer) A)
    → Unhandled m
    → Unhandled n
    → Unhandled (if b then m else n)
Unhandled-if true m n h k = h
Unhandled-if false m n h k = k

check_signature-Unhandled :
    (p : Platform) (s : Settings) (raw signature : String)
    → Unhandled (check_signature p s raw signature)
unfolding check_signature
check_signature-Unhandled p s raw signature =
    Unhandled-if (not (is_set signature)) _ _ (Unhandled-if s.allow_unsigned _ _ tt refl) (
      Unhandled-if (verify_palremit_webhook_signature p.signing raw s.secret signature) _ _ tt refl)

check_header-Unhandled :
    (header : String) (m : Option InboundPayload) → Unhandled (check_header header m)
check_header-Unhandled header none = refl
check_header-Unhandled header (some payload) =
    Unhandled-if (is_set header && not (header == payload.event_type)) _ _ refl tt

check_parsed-Unhandled : (req : InboundRequest) (m : Option Value) → Unhandled (check_parsed req m)
check_parsed-Unhandled req none = refl
check_parsed-Unhandled req (some v) =
    check_header-Unhandled (trim (header_text req.event_type_header)) (inbound_webhook_payload v)

after_signature-Unhandled :
    (p : Platform) (req : InboundRequest) (body : String)
    (v : Verdict (InboundOutcome × Answer) (Unit {0}))
    → Unhandled v
    → Unhandled (after_signature p req body v)
after_signature-Unhandled p req body (pass u) h = check_parsed-Unhandled req (p.signing.parse body)
after_signature-Unhandled p req body (refuse r) h = h

pub check_body-Unhandled :
    (p : Platform) (s : Settings) (req : InboundRequest) (m : Option String)
    → Unhandled (check_body p s req m)
check_body-Unhandled p s req none = refl
check_body-Unhandled p s req (some body) =
    after_signature-Unhandled p req body _ (check_signature-Unhandled p s _ _)
