-- ===== src/Webhook/Intake/Laws.antt =====
-- What one delivery of the provider can change, and the same delivery sent again.
use api_bloxfi.Prelude.{
  arith, String, true, false, ◌≡◌, ◌⊎◌, inl, inr, refl, Bool-cases, Option, none, some, List, [],
  ◌∷◌, ◌++◌, ◌==◌, eq_refl, Verdict, pass, refuse,
}
use api_bloxfi.Webhook.Repos.{WebhookRepos}
use api_bloxfi.Webhook.Dispatch.{process_webhook_event}
use api_bloxfi.Webhook.Intake.Payload.{InboundPayload, event_type_of}
use api_bloxfi.Webhook.Intake.Signature.{verify_palremit_webhook_signature}
use api_bloxfi.Webhook.Intake.{
  Platform, Settings, InboundRequest, InboundOutcome, duplicate, Answer, received_duplicate,
  IntakeState, header_text, truncate_webhook_raw_body, check_signature, after_signature, check_body,
  check_delivery, dedupe_key, is_claimed, log_as, accept_delivery, answer_delivery,
  handle_inbound_webhook,
}

is_claimed-append : (key : String) (ks : List String) → is_claimed key (ks ++ key ∷ []) ≡ true
unfolding is_claimed
is_claimed-append key [] = rw (eq_refl key) refl
is_claimed-append key (k ∷ ks) = rw (is_claimed-append key ks) (ground arith)

accept-claims :
    (p : Platform) (repos : WebhookRepos) (key : String) (payload : InboundPayload)
    (st : IntakeState)
    → is_claimed key (accept_delivery p repos key payload st).1.claimed ≡ true
unfolding accept_delivery
accept-claims p repos key payload st = elim (Bool-cases (is_claimed key st.claimed)) [
  | inl t ↦ rw t t
  | inr n ↦ elim (Bool-cases (p.handler_throws payload st.world)) [
    | inl e ↦ rw (n, e) (is_claimed-append key st.claimed)
    | inr e ↦ rw (n, e) (is_claimed-append key st.claimed)
  ]
]

accept-claimed :
    (p : Platform) (repos : WebhookRepos) (key : String) (payload : InboundPayload)
    (st : IntakeState)
    → is_claimed key st.claimed ≡ true
    → accept_delivery p repos key payload st ≡ (received_duplicate, log_as duplicate st)
unfolding accept_delivery
accept-claimed p repos key payload st h = rw h refl

-- Whatever became of a delivery that passed the checks, handled, refused as a duplicate or ended in an
-- exception, a later one with the same key is answered as a duplicate: ramps and claimed keys stay as
-- they are, and the audit log gets the entry `duplicate`.
pub redelivery :
    (p q : Platform) (s t : Settings) (repos other : WebhookRepos) (req again : InboundRequest)
    (payload payload' : InboundPayload) (st : IntakeState)
    → check_delivery p s req ≡ pass payload
    → check_delivery q t again ≡ pass payload'
    → dedupe_key q again payload' ≡ dedupe_key p req payload
    → handle_inbound_webhook q t other again (handle_inbound_webhook p s repos req st).1
      ≡ (received_duplicate, log_as duplicate (handle_inbound_webhook p s repos req st).1)
unfolding handle_inbound_webhook
redelivery p q s t repos other req again payload payload' st e f same =
    rw (e, f, same)
      (accept-claimed q other (dedupe_key p req payload) payload' _
        (accept-claims p repos (dedupe_key p req payload) payload st))

-- The signature of a body, under the secret of the settings.
abbrev pub IsSigned : Platform → Settings → InboundRequest → Type 0
IsSigned p s req =
    (body : String) × (req.raw_body ≡ some body)
    × (verify_palremit_webhook_signature p.signing (truncate_webhook_raw_body p.print_number body)
          s.secret (header_text req.signature)
        ≡ true)

signature-passed :
    (p : Platform) (s : Settings) (raw signature : String) (u : Unit {0})
    → s.allow_unsigned ≡ false
    → check_signature p s raw signature ≡ pass u
    → verify_palremit_webhook_signature p.signing raw s.secret signature ≡ true
unfolding check_signature
signature-passed p s raw signature u h e =
    elim (Bool-cases (verify_palremit_webhook_signature p.signing raw s.secret signature)) [
      | inl t ↦ t
      | inr n ↦ elim (Bool-cases (signature == "")) [
        | inl blank ↦ let broken = rw (blank, h) at e in cc
        | inr set ↦ let broken = rw (set, n) at e in cc
      ]
    ]

signed-passed :
    (p : Platform) (s : Settings) (req : InboundRequest) (body raw : String)
    (v : Verdict (InboundOutcome × Answer) (Unit {0})) (payload : InboundPayload)
    → after_signature p req body v ≡ pass payload
    → (u : Unit {0}) × (v ≡ pass u)
signed-passed p s req body raw (pass u) payload e = (u, refl)
signed-passed p s req body raw (refuse r) payload e = cc

body-IsSigned :
    (p : Platform) (s : Settings) (req : InboundRequest) (m : Option String)
    (payload : InboundPayload)
    → s.allow_unsigned ≡ false
    → req.raw_body ≡ m
    → check_body p s req m ≡ pass payload
    → IsSigned p s req
body-IsSigned p s req none payload h e f = cc
body-IsSigned p s req (some body) payload h e f =
    let raw = truncate_webhook_raw_body p.print_number body in
    let passed = signed-passed p s req body raw _ payload f in
    (body, e, signature-passed p s raw (header_text req.signature) passed.0 h passed.1)

-- What a delivery that changes the ramps has passed: the checks, a key that was not claimed, and, unless
-- unsigned deliveries are allowed, the check of its signature.
pub record Handled (p : Platform) (s : Settings) (repos : WebhookRepos) (req : InboundRequest)
    (st st' : IntakeState) : Type 0 where
  pub payload : InboundPayload
  pub passed : check_delivery p s req ≡ pass payload
  pub fresh : is_claimed (dedupe_key p req payload) st.claimed ≡ false
  pub signed : s.allow_unsigned ≡ false → IsSigned p s req
  pub changed :
      st'.world
      ≡ process_webhook_event repos (event_type_of payload.event_type) payload.fields st.world

accept-Handled :
    (p : Platform) (s : Settings) (repos : WebhookRepos) (req : InboundRequest)
    (payload : InboundPayload) (st : IntakeState)
    → check_delivery p s req ≡ pass payload
    → ((accept_delivery p repos (dedupe_key p req payload) payload st).1.world ≡ st.world)
      ⊎ Handled p s repos req st (accept_delivery p repos (dedupe_key p req payload) payload st).1
unfolding accept_delivery check_delivery
accept-Handled p s repos req payload st e =
    elim (Bool-cases (is_claimed (dedupe_key p req payload) st.claimed)) [
      | inl t ↦ inl (rw t refl)
      | inr n ↦ elim (Bool-cases (p.handler_throws payload st.world)) [
        | inl x ↦ inl (rw (n, x) refl)
        | inr x ↦ inr (record {
          payload = payload;
          passed = e;
          fresh = n;
          signed = λ h. body-IsSigned p s req req.raw_body payload h refl e;
          changed = rw (n, x) refl;
        })
      ]
    ]

answer-Handled :
    (p : Platform) (s : Settings) (repos : WebhookRepos) (req : InboundRequest) (st : IntakeState)
    (v : Verdict (InboundOutcome × Answer) InboundPayload)
    → check_delivery p s req ≡ v
    → ((answer_delivery p repos req st v).1.world ≡ st.world)
      ⊎ Handled p s repos req st (answer_delivery p repos req st v).1
answer-Handled p s repos req st (refuse r) e = inl refl
answer-Handled p s repos req st (pass payload) e = accept-Handled p s repos req payload st e

-- A delivery leaves the ramps as they are, or it passed the checks under a key that was not claimed, with
-- a valid signature unless the settings allow unsigned ones, and the ramps are as the handler of its event
-- leaves them.
pub handle_inbound_webhook-Handled :
    (p : Platform) (s : Settings) (repos : WebhookRepos) (req : InboundRequest) (st : IntakeState)
    → ((handle_inbound_webhook p s repos req st).1.world ≡ st.world)
      ⊎ Handled p s repos req st (handle_inbound_webhook p s repos req st).1
unfolding handle_inbound_webhook
handle_inbound_webhook-Handled p s repos req st = answer-Handled p s repos req st _ refl
