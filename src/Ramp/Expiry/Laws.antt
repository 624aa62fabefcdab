-- ===== src/Ramp/Expiry/Laws.antt =====
-- What expiry and its sweeps leave alone.
use api_bloxfi.Prelude.{
  ℕ, ◌≤◌, String, Bool, true, false, not, refl, ◌≡◌, ◌∙◌, ◌⊎◌, inl, inr, Option, none, some, arith,
  Ensures, Ensures-bind, Ensures-some, Ensures-if, breaks, returns, ◌>>=◌, List, [], ◌∷◌,
}
use mathlib.Core.Path.{subst}
use api_bloxfi.Table.{Each, Each-refl, Each-modify, Each-compose}
use api_bloxfi.Ramp.Status.{OfframpStatus, awaiting_crypto}
use api_bloxfi.Ramp.Guard.{offramp_funds_received, blocks_offramp_transition}
use api_bloxfi.Ramp.Store.{
  World, OfframpRow, OfframpPatch, automatic, no_offramp_patch, updated_offramp,
  update_offramp_status, find_offramp_by_id, offramp_has_id,
}
use api_bloxfi.Ramp.Expiry.{
  Clock, expire_offramp_if_deposit_past_due, extract_offramp_deposit_deadline, is_deposit_past_due,
  should_expire_offramp_status,
}
use api_bloxfi.Ramp.Expiry.Sweep.{
  expire_offramp_rows, expire_stale_offramps, list_offramps_awaiting_deposit,
}

-- A sweep keeps the timeline of a row, and if its funds were received, its status and the reason
-- of its failure.
pub record OfframpSwept (old new : OfframpRow) : Type 0 where
  pub same_id : new.id ≡ old.id
  pub same_timeline : new.timeline ≡ old.timeline
  pub same_status : offramp_funds_received old.status old.timeline ≡ true → new.status ≡ old.status
  pub same_reason :
      offramp_funds_received old.status old.timeline ≡ true → new.failed_reason ≡ old.failed_reason

OfframpSwept-refl : (r : OfframpRow) → OfframpSwept r r
OfframpSwept-refl r = record {
  same_id = refl;
  same_timeline = refl;
  same_status = λ h. refl;
  same_reason = λ h. refl;
}

OfframpSwept-trans : (x y z : OfframpRow) → OfframpSwept x y → OfframpSwept y z → OfframpSwept x z
OfframpSwept-trans x y z h k = record {
  same_id = k.same_id ∙ h.same_id;
  same_timeline = k.same_timeline ∙ h.same_timeline;
  same_status = λ f. k.same_status (still f) ∙ h.same_status f;
  same_reason = λ f. k.same_reason (still f) ∙ h.same_reason f;
}
  where
    still :
        offramp_funds_received x.status x.timeline ≡ true
        → offramp_funds_received y.status y.timeline ≡ true
    still f = rw (h.same_status f, h.same_timeline) f

abbrev Swept : World → World → Type 0
Swept v w = Each OfframpSwept v.offramps w.offramps

updated-OfframpSwept :
    (now : String) (u : OfframpPatch) (r : OfframpRow)
    → u.timeline ≡ none
    → OfframpSwept r (updated_offramp now automatic OfframpStatus.expired u r)
unfolding updated_offramp blocks_offramp_transition
updated-OfframpSwept now u r h = ground arith

update-Swept :
    (now id : String) (u : OfframpPatch) (w : World)
    → u.timeline ≡ none
    → Ensures (Swept w) (update_offramp_status now automatic id OfframpStatus.expired u w)
unfolding update_offramp_status
update-Swept now id u w h = Ensures-bind (find_offramp_by_id id w) _ λ row e. returns (
    Each-modify (offramp_has_id id) (updated_offramp now automatic OfframpStatus.expired u)
      w.offramps (λ r _. updated-OfframpSwept now u r h) OfframpSwept-refl)

update_expired-Swept :
    (now id : String) (reason : Option (Option String)) (w : World)
    → Ensures (Swept w) (
        update_offramp_status now automatic id OfframpStatus.expired
          (record no_offramp_patch { failed_reason = reason })
          w)
update_expired-Swept now id reason w = update-Swept now id _ w refl

unswept : (b : Bool) (w : World) → Ensures (λ (x : Bool × World). Swept w x.1) (some (b, w))
unswept b w = returns (Each-refl OfframpSwept-refl w.offramps)

expired_flag :
    (w : World) (m : Option World)
    → Ensures (Swept w) m
    → Ensures (λ (r : Bool × World). Swept w r.1) (m >>= λ v. some (true, v))
expired_flag w none e = breaks
expired_flag w (some v) e = returns (Ensures-some e)

expire_offramp-Swept :
    (c : Clock) (r : OfframpRow) (w : World)
    → Ensures (λ (x : Bool × World). Swept w x.1) (expire_offramp_if_deposit_past_due c r w)
unfolding expire_offramp_if_deposit_past_due
expire_offramp-Swept c r w =
    search (Ensures-if, unswept, expired_flag, update_expired-Swept) depth 12

-- The sweep goes through the rows that it read at the start, and the count is at most their number.
rows-Swept :
    (c : Clock) (rows : List OfframpRow) (n : ℕ) (v w : World)
    → Swept v w
    → Ensures (λ (x : ℕ × World). Swept v x.1) (expire_offramp_rows c rows n w)
unfolding expire_offramp_rows
rows-Swept c [] n v w h = returns h
rows-Swept c (r ∷ rows) n v w h =
    Ensures-bind (expire_offramp_if_deposit_past_due c r w) _ λ (b, w') e.
      rows-Swept c rows _ v w' (
        Each-compose OfframpSwept-trans h
          (Ensures-some (subst (Ensures _) e (expire_offramp-Swept c r w))))

-- A sweep that goes through to its end leaves every offramp whose funds were received, by its status
-- or by its timeline, with the status and the reason that it had, and changes no timeline.
pub expire_stale_offramps-Swept :
    (c : Clock) (w w' : World) (n : ℕ)
    → expire_stale_offramps c w ≡ some (n, w')
    → Each OfframpSwept w.offramps w'.offramps
unfolding expire_stale_offramps
expire_stale_offramps-Swept c w w' n h = Ensures-some (
    subst (Ensures _) h (
      rows-Swept c (list_offramps_awaiting_deposit w.offramps) 0 w w
        (Each-refl OfframpSwept-refl w.offramps)))

is_awaiting : (s : OfframpStatus) → should_expire_offramp_status s ≡ true → s ≡ awaiting_crypto
is_awaiting s h = ground arith

is_over :
    (c : Clock) (m : Option ℕ)
    → is_deposit_past_due c m ≡ true
    → (t : ℕ) × (m ≡ some t) × (t ≤ c.now)
is_over c none h = cc
is_over c (some t) h = (t, refl, ground arith)

-- Why an expiry changes something.
abbrev pub IsDue : Clock → OfframpRow → Type 0
IsDue c r =
    (r.status ≡ awaiting_crypto)
    × ((t : ℕ) × (extract_offramp_deposit_deadline c r ≡ some t) × (t ≤ c.now))

due :
    (c : Clock) (r : OfframpRow)
    → not (should_expire_offramp_status r.status) ≡ false
    → not (is_deposit_past_due c (extract_offramp_deposit_deadline c r)) ≡ false
    → IsDue c r
due c r h k = (
  is_awaiting r.status (ground arith),
  is_over c (extract_offramp_deposit_deadline c r) (ground arith),
)

-- Expiry changes something only if the offramp it is given waits for crypto and has a deadline that is
-- over.
pub expire_offramp-IsDue :
    (c : Clock) (r : OfframpRow) (w w' : World) (b : Bool)
    → expire_offramp_if_deposit_past_due c r w ≡ some (b, w')
    → (w' ≡ w) ⊎ IsDue c r
unfolding expire_offramp_if_deposit_past_due
expire_offramp-IsDue c r w w' b h = Ensures-some (subst (Ensures _) h changes)
  where
    changes :
        Ensures
          (λ (x : Bool × World). (x.1 ≡ w) ⊎ IsDue c r)
          (expire_offramp_if_deposit_past_due c r w)
    changes = search (Ensures-if, Ensures-bind, returns, inl, inr, due) depth 12
