-- ===== src/Webhook/Intake/Calls.antt =====
-- The calls of the handler that deliveries lead to, as a list, and what they leave: keys, entries of the log
-- and ramps.
use api_bloxfi.Prelude.{
  String, Bool, ◌≡◌, refl, ap, Bool-cases, inl, inr, List, [], ◌∷◌, ◌++◌, if◌then◌else◌, pass,
}
use api_bloxfi.Ramp.Store.{World}
use api_bloxfi.Webhook.Repos.{WebhookRepos}
use api_bloxfi.Webhook.Dispatch.{process_webhook_event}
use api_bloxfi.Webhook.Intake.Payload.{InboundPayload, event_type_of}
use api_bloxfi.Webhook.Intake.Refused.{is_handled}
use api_bloxfi.Webhook.Intake.{
  Platform, Settings, InboundRequest, InboundOutcome, invalid_buffer, bad_signature, bad_json,
  bad_schema, processed, duplicate, handler_error, check_delivery, dedupe_key,
}

-- A delivery that passed the checks, and whether the handler of its event came to its end.
pub record Call : Type 0 where
  pub platform : Platform
  pub settings : Settings
  pub repos : WebhookRepos
  pub request : InboundRequest
  pub payload : InboundPayload
  pub passed : check_delivery platform settings request ≡ pass payload
  pub completes : Bool

abbrev pub key_of : Call → String
key_of c = dedupe_key c.platform c.request c.payload

abbrev pub outcome_of : Call → InboundOutcome
outcome_of c = if c.completes then processed else handler_error

-- The ramps after one call of the handler.
abbrev pub called : Call → World → World
called c w =
    if c.completes
    then process_webhook_event c.repos (event_type_of c.payload.event_type) c.payload.fields w
    else w

unfoldable pub keys_of : List Call → List String
keys_of [] = []
keys_of (c ∷ cs) = key_of c ∷ keys_of cs

unfoldable pub outcomes_of : List Call → List InboundOutcome
outcomes_of [] = []
outcomes_of (c ∷ cs) = outcome_of c ∷ outcomes_of cs

-- The calls one after the other.
unfoldable pub replay : List Call → World → World
replay [] w = w
replay (c ∷ cs) w = replay cs (called c w)

-- The entries of the log that say that a handler was called.
unfoldable pub handled_outcomes : List InboundOutcome → List InboundOutcome
handled_outcomes [] = []
handled_outcomes (processed ∷ os) = processed ∷ handled_outcomes os
handled_outcomes (handler_error ∷ os) = handler_error ∷ handled_outcomes os
handled_outcomes (_ ∷ os) = handled_outcomes os

pub keys_of-append :
    (cs : List Call) (c : Call) → keys_of (cs ++ c ∷ []) ≡ keys_of cs ++ key_of c ∷ []
unfolding keys_of
keys_of-append [] c = refl
keys_of-append (x ∷ cs) c = ap (λ ks. key_of x ∷ ks) (keys_of-append cs c)

pub outcomes_of-append :
    (cs : List Call) (c : Call) → outcomes_of (cs ++ c ∷ []) ≡ outcomes_of cs ++ outcome_of c ∷ []
unfolding outcomes_of
outcomes_of-append [] c = refl
outcomes_of-append (x ∷ cs) c = ap (λ os. outcome_of x ∷ os) (outcomes_of-append cs c)

pub replay-append :
    (cs : List Call) (c : Call) (w : World) → replay (cs ++ c ∷ []) w ≡ called c (replay cs w)
unfolding replay
replay-append [] c w = refl
replay-append (x ∷ cs) c w = replay-append cs c (called x w)

pub handled_outcomes-append :
    (os : List InboundOutcome) (o : InboundOutcome)
    → handled_outcomes (os ++ o ∷ []) ≡ handled_outcomes os ++ handled_outcomes (o ∷ [])
unfolding handled_outcomes
handled_outcomes-append [] o = refl
handled_outcomes-append (processed ∷ os) o = ap (λ r. processed ∷ r) (handled_outcomes-append os o)
handled_outcomes-append (handler_error ∷ os) o =
    ap (λ r. handler_error ∷ r) (handled_outcomes-append os o)
handled_outcomes-append (invalid_buffer ∷ os) o = handled_outcomes-append os o
handled_outcomes-append (bad_signature ∷ os) o = handled_outcomes-append os o
handled_outcomes-append (bad_json ∷ os) o = handled_outcomes-append os o
handled_outcomes-append (bad_schema ∷ os) o = handled_outcomes-append os o
handled_outcomes-append (duplicate ∷ os) o = handled_outcomes-append os o

pub unhandled_entry : (o : InboundOutcome) → is_handled o ≡ 0 → handled_outcomes (o ∷ []) ≡ []
unfolding handled_outcomes
unhandled_entry processed h = cc
unhandled_entry handler_error h = cc
unhandled_entry invalid_buffer h = refl
unhandled_entry bad_signature h = refl
unhandled_entry bad_json h = refl
unhandled_entry bad_schema h = refl
unhandled_entry duplicate h = refl

pub handled_entry : (c : Call) → handled_outcomes (outcome_of c ∷ []) ≡ outcome_of c ∷ []
unfolding handled_outcomes
handled_entry c = elim (Bool-cases c.completes) [ inl t ↦ rw t refl | inr f ↦ rw f refl ]

pub append_nil : (os : List InboundOutcome) → os ++ [] ≡ os
append_nil [] = refl
append_nil (o ∷ os) = ap (λ r. o ∷ r) (append_nil os)
