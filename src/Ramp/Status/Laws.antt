-- ===== src/Ramp/Status/Laws.antt =====
-- Which event a change of status sends to the partner.
use mathlib.Core.Logic.{ite}
use api_bloxfi.Prelude.{Option, none, some, ◌≡◌, ◌≢◌, ◌↔◌, ◌∙◌, sym, ap, eq_of_some}
use api_bloxfi.Ramp.Status.{PartnerEvent, PartnerEvent-discrete, same_event, should_emit_ramp_event}

change_iff :
    (p n e : PartnerEvent) (d : Dec (p ≡ n))
    → (ite d none (some n) ≡ some e) ↔ ((some n ≡ some e) × (some p ≢ some e))
change_iff p n e (yes s) = (λ h. cc, λ x. absurd (x.1 (ap some s ∙ x.0)))
change_iff p n e (no d) = (λ h. (h, λ q. d (eq_of_some q ∙ sym (eq_of_some h))), λ x. x.0)

-- An event goes out exactly when the new status has that event and the old status does not have the
-- same one: a change between two statuses of one event is silent.
pub should_emit_iff :
    (prev next : Option PartnerEvent) (e : PartnerEvent)
    → (should_emit_ramp_event prev next ≡ some e) ↔ ((next ≡ some e) × (prev ≢ some e))
unfolding should_emit_ramp_event same_event
should_emit_iff prev none e = (λ h. cc, λ x. x.0)
should_emit_iff none (some n) e = (λ h. (h, λ q. cc), λ x. x.0)
should_emit_iff (some p) (some n) e = change_iff p n e (PartnerEvent-discrete p n)
