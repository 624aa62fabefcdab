-- ===== src/Ramp/Update.antt =====
-- What one update of the repositories does to the row that it is about: the guard on each branch, and
-- reading back what was written.
use api_bloxfi.Prelude.{
  String, true, false, refl, ◌≡◌, arith, Option, none, some, ◌≢◌, ◌⊎◌, inl, inr, Option-cases,
  eq_of_some, eq_of_==, ==_of_ne,
}
use api_bloxfi.Json.{Value, null, str, Fields, end, get, record_or_empty}
use api_bloxfi.Json.Laws.{IsAbsent, get-spread-put}
use api_bloxfi.Table.{find-modify, find-modify_other, modify}
use api_bloxfi.Ramp.Status.{OnrampStatus, OfframpStatus, offramp_status_text}
use api_bloxfi.Ramp.Guard.{
  blocks_onramp_transition, blocks_offramp_transition, held_failure_record, onramp_auto_fail,
  offramp_auto_fail, onramp_funds_received, offramp_funds_received,
}
use api_bloxfi.Ramp.Store.{
  OnrampRow, OfframpRow, World, OnrampPatch, OfframpPatch, UpdateOptions, automatic, updated_onramp,
  updated_offramp, update_offramp_status, find_offramp_by_id, offramp_has_id,
}

-- An automatic update to a failure of an offramp whose funds were received changes neither the status
-- nor the reason of a failure.
pub updated_offramp-blocked :
    (now : String) (status : OfframpStatus) (u : OfframpPatch) (r : OfframpRow)
    → offramp_auto_fail status ≡ true
    → offramp_funds_received r.status r.timeline ≡ true
    → ((updated_offramp now automatic status u r).status ≡ r.status)
      × ((updated_offramp now automatic status u r).failed_reason ≡ r.failed_reason)
unfolding updated_offramp blocks_offramp_transition
updated_offramp-blocked now status u r f h = ground arith

-- An automatic update to a failure of an onramp whose funds were received, which is by its status alone,
-- changes neither the status nor the reason of a failure.
pub updated_onramp-blocked :
    (now : String) (status : OnrampStatus) (u : OnrampPatch) (r : OnrampRow)
    → onramp_auto_fail status ≡ true
    → onramp_funds_received r.status ≡ true
    → ((updated_onramp now automatic status u r).status ≡ r.status)
      × ((updated_onramp now automatic status u r).failed_reason ≡ r.failed_reason)
unfolding updated_onramp blocks_onramp_transition
updated_onramp-blocked now status u r f h = ground arith

-- An update that an operator forces writes the requested status, and so does an automatic one that is no
-- failure.
pub updated_offramp-written :
    (now : String) (o : UpdateOptions) (status : OfframpStatus) (u : OfframpPatch) (r : OfframpRow)
    → ((o.allow_after_funds ≡ true) ⊎ (offramp_auto_fail status ≡ false))
    → (updated_offramp now o status u r).status ≡ status
unfolding updated_offramp blocks_offramp_transition
updated_offramp-written now o status u r h = ground arith

blocks_both :
    (old : OfframpStatus) (timeline : Value) (status : OfframpStatus)
    → offramp_auto_fail status ≡ true
    → offramp_funds_received old timeline ≡ true
    → blocks_offramp_transition old timeline status ≡ true
unfolding blocks_offramp_transition
blocks_both old timeline status f h = ground arith

-- The references that an update brings along; it may leave them out.
abbrev pub given_refs : Option Value → Fields
given_refs none = end
given_refs (some v) = record_or_empty v

-- The reason that an update gives, or null.
abbrev pub given_reason : Option (Option String) → Value
given_reason (some (some reason)) = str reason
given_reason _ = null

-- A refused failure as it stands on a row, property by property.
pub record HeldFailure (attempted : String) (reason : Value) (now : String) (refs : Value)
    : Type 0 where
  pub attempted_is :
      get "attemptedStatus" (record_or_empty (get "heldFailure" (record_or_empty refs)))
      ≡ str attempted
  pub reason_is : get "reason" (record_or_empty (get "heldFailure" (record_or_empty refs))) ≡ reason
  pub at_is : get "at" (record_or_empty (get "heldFailure" (record_or_empty refs))) ≡ str now

record-HeldFailure :
    (attempted now : String) (reason : Option String) (refs : Value)
    → get "heldFailure" (record_or_empty refs) ≡ held_failure_record attempted reason now
    → HeldFailure attempted (given_reason (some reason)) now refs
unfolding held_failure_record get
record-HeldFailure attempted now none refs e = record {
  attempted_is = rw e refl;
  reason_is = rw e refl;
  at_is = rw e refl;
}
record-HeldFailure attempted now (some reason) refs e = record {
  attempted_is = rw e refl;
  reason_is = rw e refl;
  at_is = rw e refl;
}

held-HeldFailure :
    (now : String) (status : OfframpStatus) (u : OfframpPatch) (r : OfframpRow)
    (m : Option (Option String)) (refs : Option Value)
    → u.failed_reason ≡ m
    → u.provider_refs ≡ refs
    → IsAbsent "heldFailure" (given_refs refs)
    → blocks_offramp_transition r.status r.timeline status ≡ true
    → HeldFailure
        (offramp_status_text status)
        (given_reason m)
        now
        (updated_offramp now automatic status u r).provider_refs
unfolding updated_offramp
held-HeldFailure now status u r none none e n absent held =
    record-HeldFailure (offramp_status_text status) now none _
      (rw (held, e, n) (get-spread-put "heldFailure" _ _ end absent))
held-HeldFailure now status u r none (some v) e n absent held =
    record-HeldFailure (offramp_status_text status) now none _
      (rw (held, e, n) (get-spread-put "heldFailure" _ _ (record_or_empty v) absent))
held-HeldFailure now status u r (some reason) none e n absent held =
    record-HeldFailure (offramp_status_text status) now reason _
      (rw (held, e, n) (get-spread-put "heldFailure" _ _ end absent))
held-HeldFailure now status u r (some reason) (some v) e n absent held =
    record-HeldFailure (offramp_status_text status) now reason _
      (rw (held, e, n) (get-spread-put "heldFailure" _ _ (record_or_empty v) absent))

-- An automatic failure of an offramp whose funds were received, whatever else the update brings along apart
-- from a `heldFailure` of its own, keeps the status and is recorded on the row: the attempted status, the
-- reason that was given or null, and the time.
pub updated_offramp-HeldFailure :
    (now : String) (status : OfframpStatus) (u : OfframpPatch) (r : OfframpRow)
    → IsAbsent "heldFailure" (given_refs u.provider_refs)
    → offramp_auto_fail status ≡ true
    → offramp_funds_received r.status r.timeline ≡ true
    → ((updated_offramp now automatic status u r).status ≡ r.status)
      × HeldFailure
          (offramp_status_text status)
          (given_reason u.failed_reason)
          now
          (updated_offramp now automatic status u r).provider_refs
updated_offramp-HeldFailure now status u r absent f h = (
  (updated_offramp-blocked now status u r f h).0,
  held-HeldFailure now status u r u.failed_reason u.provider_refs refl refl absent
      (blocks_both r.status r.timeline status f h),
)

-- An update that goes through is read back: the row that was found under the id before is found
-- there afterwards as the update makes it.
pub update_offramp_status-find :
    (now id : String) (o : UpdateOptions) (status : OfframpStatus) (u : OfframpPatch) (v w : World)
    (r : OfframpRow)
    → find_offramp_by_id id v ≡ some r
    → update_offramp_status now o id status u v ≡ some w
    → find_offramp_by_id id w ≡ some (updated_offramp now o status u r)
unfolding update_offramp_status find_offramp_by_id updated_offramp
update_offramp_status-find now id o status u v w r found e =
    let same : record v {
      offramps = modify (offramp_has_id id) (updated_offramp now o status u) v.offramps;
      sent = _;
    }
        ≡ w =
      eq_of_some (rw found at e) in
    rw (← same) (
      find-modify (offramp_has_id id) (updated_offramp now o status u) v.offramps (λ x. refl) found)

pub update_offramp_status-goes_through :
    (now id : String) (o : UpdateOptions) (status : OfframpStatus) (u : OfframpPatch) (v : World)
    (r : OfframpRow)
    → find_offramp_by_id id v ≡ some r
    → update_offramp_status now o id status u v ≢ none
unfolding update_offramp_status
update_offramp_status-goes_through now id o status u v r found e =
    let broken : some _ ≡ none = rw found at e in cc

-- An update of one offramp leaves what is found under every other id, and all onramps.
pub update_offramp_status-other :
    (now id other : String) (o : UpdateOptions) (status : OfframpStatus) (u : OfframpPatch)
    (v w : World)
    → id ≢ other
    → update_offramp_status now o id status u v ≡ some w
    → (find_offramp_by_id other w ≡ find_offramp_by_id other v) × (w.onramps ≡ v.onramps)
unfolding update_offramp_status find_offramp_by_id updated_offramp
update_offramp_status-other now id other o status u v w ne e =
    elim (Option-cases (find_offramp_by_id id v)) [
      | inl n ↦ let broken : none ≡ some w = rw n at e in cc
      | inr (r, found) ↦
          let same : record v {
            offramps = modify (offramp_has_id id) (updated_offramp now o status u) v.offramps;
            sent = _;
          }
              ≡ w =
            eq_of_some (rw found at e) in
          rw (← same) (
            find-modify_other (offramp_has_id other) (offramp_has_id id)
                (updated_offramp now o status u) v.offramps
                (λ x t. rw (eq_of_== x.id id t) (==_of_ne id other ne)) (λ x. refl),
            refl,
          )
    ]
