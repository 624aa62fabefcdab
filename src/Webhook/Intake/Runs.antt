-- ===== src/Webhook/Intake/Runs.antt =====
-- The states that deliveries of the provider lead to, one after the other.
use api_bloxfi.Prelude.{
  arith, String, Bool, true, false, ◌≡◌, refl, sym, ap, ◌∙◌, Bool-cases, inl, inr, List, [], ◌∷◌,
  ◌++◌, ◌==◌, eq_iff, Verdict, pass, refuse,
}
use api_bloxfi.Ramp.Store.{World}
use api_bloxfi.Webhook.Repos.{WebhookRepos}
use api_bloxfi.Webhook.Intake.Payload.{InboundPayload}
use api_bloxfi.Webhook.Intake.Refused.{is_handled, Unhandled, check_body-Unhandled}
use api_bloxfi.Webhook.Intake.Calls.{
  Call, key_of, outcome_of, called, keys_of, outcomes_of, replay, handled_outcomes, keys_of-append,
  outcomes_of-append, replay-append, handled_outcomes-append, unhandled_entry, handled_entry,
  append_nil,
}
use api_bloxfi.Webhook.Intake.{
  Platform, Settings, InboundRequest, InboundOutcome, duplicate, Answer, IntakeState,
  check_delivery, dedupe_key, is_claimed, accept_delivery, answer_delivery, handle_inbound_webhook,
}

-- From no claimed keys and an empty log, by deliveries under any settings and repositories.
pub data Reachable (w : World) : IntakeState → Type 0 where
  started : Reachable w (record { claimed = []; log = []; world = w })
  delivered :
      (p : Platform) (s : Settings) (repos : WebhookRepos) (req : InboundRequest) {st : IntakeState}
      → Reachable w st
      → Reachable w (handle_inbound_webhook p s repos req st).1

abbrev pub Distinct : List String → Type 0
Distinct [] = Unit
Distinct (k ∷ ks) = (is_claimed k ks ≡ false) × Distinct ks

-- The state is what calls of the handler, one for each claimed key, make of the ramps `w`.
pub record HandledOnce (w : World) (st : IntakeState) : Type 0 where
  pub calls : List Call
  pub keys : st.claimed ≡ keys_of calls
  pub distinct : Distinct st.claimed
  pub logged : handled_outcomes st.log ≡ outcomes_of calls
  pub ramps : st.world ≡ replay calls w

not_claimed-append :
    (j k : String) (ks : List String)
    → is_claimed j ks ≡ false
    → (k == j) ≡ false
    → is_claimed j (ks ++ k ∷ []) ≡ false
unfolding is_claimed
not_claimed-append j k [] h n = rw n refl
not_claimed-append j k (i ∷ ks) h n = elim (Bool-cases (i == j)) [
  | inl t ↦ let broken = rw t at h in cc
  | inr f ↦ rw f (not_claimed-append j k ks (rw f at h) n)
]

flipped : (s t : String) → (s == t) ≡ false → (t == s) ≡ false
flipped s t h = ground (arith, eq_iff s t, eq_iff t s)

Distinct-append :
    (ks : List String) (k : String)
    → Distinct ks
    → is_claimed k ks ≡ false
    → Distinct (ks ++ k ∷ [])
unfolding is_claimed
Distinct-append [] k d h = (refl, tt)
Distinct-append (i ∷ ks) k d h = elim (Bool-cases (i == k)) [
  | inl t ↦ let broken = rw t at h in cc
  | inr f ↦ (not_claimed-append i k ks d.0 (flipped i k f), Distinct-append ks k d.1 (rw f at h))
]

-- A delivery that was handed to no handler adds its entry to the log.
log_kept :
    (w : World) (o : InboundOutcome) (st st' : IntakeState)
    → is_handled o ≡ 0
    → st'.claimed ≡ st.claimed
    → st'.world ≡ st.world
    → st'.log ≡ st.log ++ o ∷ []
    → HandledOnce w st
    → HandledOnce w st'
log_kept w o st st' unhandled same still entry h = record {
  calls = h.calls;
  keys = same ∙ h.keys;
  distinct = rw same h.distinct;
  logged =
      ap handled_outcomes entry
      ∙ (handled_outcomes-append st.log o
          ∙ (ap (λ r. handled_outcomes st.log ++ r) (unhandled_entry o unhandled)
              ∙ (append_nil (handled_outcomes st.log) ∙ h.logged)));
  ramps = still ∙ h.ramps;
}

-- A delivery that was handed to a handler claims its key, and adds its call.
log_handled :
    (w : World) (c : Call) (st st' : IntakeState)
    → is_claimed (key_of c) st.claimed ≡ false
    → st'.claimed ≡ st.claimed ++ key_of c ∷ []
    → st'.world ≡ called c st.world
    → st'.log ≡ st.log ++ outcome_of c ∷ []
    → HandledOnce w st
    → HandledOnce w st'
log_handled w c st st' fresh claims moved entry h = record {
  calls = h.calls ++ c ∷ [];
  keys = claims ∙ (ap (λ ks. ks ++ key_of c ∷ []) h.keys ∙ sym (keys_of-append h.calls c));
  distinct = rw claims (Distinct-append st.claimed (key_of c) h.distinct fresh);
  logged =
      ap handled_outcomes entry
      ∙ (handled_outcomes-append st.log (outcome_of c)
          ∙ (ap (λ r. handled_outcomes st.log ++ r) (handled_entry c)
              ∙ (ap (λ r. r ++ outcome_of c ∷ []) h.logged ∙ sym (outcomes_of-append h.calls c))));
  ramps = moved ∙ (ap (called c) h.ramps ∙ sym (replay-append h.calls c w));
}

accept-HandledOnce :
    (w : World) (p : Platform) (s : Settings) (repos : WebhookRepos) (req : InboundRequest)
    (payload : InboundPayload) (st : IntakeState)
    → check_delivery p s req ≡ pass payload
    → HandledOnce w st
    → HandledOnce w (accept_delivery p repos (dedupe_key p req payload) payload st).1
unfolding accept_delivery
accept-HandledOnce w p s repos req payload st passed h =
    elim (Bool-cases (is_claimed (dedupe_key p req payload) st.claimed)) [
      | inl t ↦ rw t (log_kept w duplicate st _ refl refl refl refl h)
      | inr n ↦ elim (Bool-cases (p.handler_throws payload st.world)) [
        | inl x ↦ rw (n, x) (log_handled w (call false) st _ n refl refl refl h)
        | inr x ↦ rw (n, x) (log_handled w (call true) st _ n refl refl refl h)
      ]
    ]
  where
    call : Bool → Call
    call b = record {
      platform = p;
      settings = s;
      repos = repos;
      request = req;
      payload = payload;
      passed = passed;
      completes = b;
    }

answer-HandledOnce :
    (w : World) (p : Platform) (s : Settings) (repos : WebhookRepos) (req : InboundRequest)
    (st : IntakeState) (v : Verdict (InboundOutcome × Answer) InboundPayload)
    → check_delivery p s req ≡ v
    → Unhandled v
    → HandledOnce w st
    → HandledOnce w (answer_delivery p repos req st v).1
answer-HandledOnce w p s repos req st (refuse (o, a)) e u h = log_kept w o st _ u refl refl refl h
answer-HandledOnce w p s repos req st (pass payload) e u h =
    accept-HandledOnce w p s repos req payload st e h

checks-Unhandled :
    (p : Platform) (s : Settings) (req : InboundRequest) → Unhandled (check_delivery p s req)
unfolding check_delivery
checks-Unhandled p s req = check_body-Unhandled p s req req.raw_body

-- In every state that deliveries lead to, the claimed keys are distinct and are, in their order, those of
-- deliveries that passed the checks; the ramps are what one call of the handler for each of these
-- deliveries makes of the first ones, where a handler that throws changes nothing; and the log has one
-- entry for each of these calls, `processed` or `handler_error`.
pub Reachable-HandledOnce : (w : World) (st : IntakeState) → Reachable w st → HandledOnce w st
unfolding handle_inbound_webhook keys_of outcomes_of replay handled_outcomes
Reachable-HandledOnce w st started = record {
  calls = [];
  keys = refl;
  distinct = tt;
  logged = refl;
  ramps = refl;
}
Reachable-HandledOnce w st (delivered p s repos req r) =
    answer-HandledOnce w p s repos req _ _ refl (checks-Unhandled p s req)
      (Reachable-HandledOnce w _ r)
