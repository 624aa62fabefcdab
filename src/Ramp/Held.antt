-- ===== src/Ramp/Held.antt =====
-- What the guard of fundsReceivedGuard.ts gives for one update of the repositories, as relations between
-- the rows and the states before and after.
use api_bloxfi.Prelude.{
  String, true, false, ◌≡◌, ◌∙◌, refl, arith, Option, none, some, ◌>>=◌, Ensures, Ensures-bind,
  Ensures-some, breaks, returns,
}
use mathlib.Core.Path.{subst}
use api_bloxfi.Table.{Each, Each-refl, Each-modify, Each-compose}
use api_bloxfi.Ramp.Status.{OnrampStatus, OfframpStatus}
use api_bloxfi.Ramp.Guard.{
  onramp_auto_fail, offramp_auto_fail, onramp_funds_received, offramp_funds_received,
  blocks_onramp_transition, blocks_offramp_transition,
}
use api_bloxfi.Ramp.Store.{
  OnrampRow, OfframpRow, World, OnrampPatch, OfframpPatch, automatic, updated_onramp,
  updated_offramp, update_onramp_status, update_offramp_status, find_onramp_by_id,
  find_offramp_by_id, onramp_has_id, offramp_has_id,
}

-- The row keeps its identity, and if its funds had been received and it had not failed, it has not
-- failed now.
pub record OfframpHeld (old new : OfframpRow) : Type 0 where
  pub same_id : new.id ≡ old.id
  pub same_txn_ref : new.txn_ref ≡ old.txn_ref
  pub not_failed :
      offramp_funds_received old.status old.timeline ≡ true
      → offramp_auto_fail old.status ≡ false
      → offramp_auto_fail new.status ≡ false

pub record OnrampHeld (old new : OnrampRow) : Type 0 where
  pub same_id : new.id ≡ old.id
  pub same_txn_ref : new.txn_ref ≡ old.txn_ref
  pub not_failed :
      onramp_funds_received old.status ≡ true
      → onramp_auto_fail old.status ≡ false
      → onramp_auto_fail new.status ≡ false

pub record WorldHeld (old new : World) : Type 0 where
  pub offramps : Each OfframpHeld old.offramps new.offramps
  pub onramps : Each OnrampHeld old.onramps new.onramps

pub OfframpHeld-refl : (r : OfframpRow) → OfframpHeld r r
OfframpHeld-refl r = record { same_id = refl; same_txn_ref = refl; not_failed = λ f n. n }

pub OnrampHeld-refl : (r : OnrampRow) → OnrampHeld r r
OnrampHeld-refl r = record { same_id = refl; same_txn_ref = refl; not_failed = λ f n. n }

pub WorldHeld-refl : (w : World) → WorldHeld w w
WorldHeld-refl w = record {
  offramps = Each-refl OfframpHeld-refl w.offramps;
  onramps = Each-refl OnrampHeld-refl w.onramps;
}

updated_offramp-OfframpHeld :
    (now : String) (status : OfframpStatus) (u : OfframpPatch) (r : OfframpRow)
    → OfframpHeld r (updated_offramp now automatic status u r)
unfolding updated_offramp blocks_offramp_transition
updated_offramp-OfframpHeld now status u r = ground arith

updated_onramp-OnrampHeld :
    (now : String) (status : OnrampStatus) (u : OnrampPatch) (r : OnrampRow)
    → OnrampHeld r (updated_onramp now automatic status u r)
unfolding updated_onramp blocks_onramp_transition
updated_onramp-OnrampHeld now status u r = ground arith

pub update_offramp_status-WorldHeld :
    (now id : String) (status : OfframpStatus) (u : OfframpPatch) (w : World)
    → Ensures (WorldHeld w) (update_offramp_status now automatic id status u w)
unfolding update_offramp_status
update_offramp_status-WorldHeld now id status u w =
    Ensures-bind (find_offramp_by_id id w) _ λ row e. returns (record {
      offramps =
          Each-modify (offramp_has_id id) (updated_offramp now automatic status u) w.offramps
            (λ r _. updated_offramp-OfframpHeld now status u r) OfframpHeld-refl;
      onramps = Each-refl OnrampHeld-refl w.onramps;
    })

pub update_onramp_status-WorldHeld :
    (now id : String) (status : OnrampStatus) (u : OnrampPatch) (w : World)
    → Ensures (WorldHeld w) (update_onramp_status now automatic id status u w)
unfolding update_onramp_status
update_onramp_status-WorldHeld now id status u w = Ensures-bind (find_onramp_by_id id w) _ λ row e.
    returns (record {
      offramps = Each-refl OfframpHeld-refl w.offramps;
      onramps =
          Each-modify (onramp_has_id id) (updated_onramp now automatic status u) w.onramps
            (λ r _. updated_onramp-OnrampHeld now status u r) OnrampHeld-refl;
    })

-- A stronger relation, for code that never fails a ramp whatever its state.
pub record OfframpUnfailed (old new : OfframpRow) : Type 0 where
  pub same_id : new.id ≡ old.id
  pub same_txn_ref : new.txn_ref ≡ old.txn_ref
  pub not_failed : offramp_auto_fail old.status ≡ false → offramp_auto_fail new.status ≡ false

pub record OnrampUnfailed (old new : OnrampRow) : Type 0 where
  pub same_id : new.id ≡ old.id
  pub same_txn_ref : new.txn_ref ≡ old.txn_ref
  pub not_failed : onramp_auto_fail old.status ≡ false → onramp_auto_fail new.status ≡ false

pub record WorldUnfailed (old new : World) : Type 0 where
  pub offramps : Each OfframpUnfailed old.offramps new.offramps
  pub onramps : Each OnrampUnfailed old.onramps new.onramps

offramp_then : (x y z : OfframpRow) → OfframpHeld x y → OfframpUnfailed y z → OfframpHeld x z
offramp_then x y z h u = record {
  same_id = u.same_id ∙ h.same_id;
  same_txn_ref = u.same_txn_ref ∙ h.same_txn_ref;
  not_failed = λ f n. u.not_failed (h.not_failed f n);
}

onramp_then : (x y z : OnrampRow) → OnrampHeld x y → OnrampUnfailed y z → OnrampHeld x z
onramp_then x y z h u = record {
  same_id = u.same_id ∙ h.same_id;
  same_txn_ref = u.same_txn_ref ∙ h.same_txn_ref;
  not_failed = λ f n. u.not_failed (h.not_failed f n);
}

pub WorldHeld-then : {u v w : World} → WorldHeld u v → WorldUnfailed v w → WorldHeld u w
WorldHeld-then h k = record {
  offramps = Each-compose offramp_then h.offramps k.offramps;
  onramps = Each-compose onramp_then h.onramps k.onramps;
}

pub WorldHeld-of_Unfailed : {v w : World} → WorldUnfailed v w → WorldHeld v w
WorldHeld-of_Unfailed {v} k = WorldHeld-then (WorldHeld-refl v) k

pub OfframpUnfailed-refl : (r : OfframpRow) → OfframpUnfailed r r
OfframpUnfailed-refl r = record { same_id = refl; same_txn_ref = refl; not_failed = λ n. n }

pub OnrampUnfailed-refl : (r : OnrampRow) → OnrampUnfailed r r
OnrampUnfailed-refl r = record { same_id = refl; same_txn_ref = refl; not_failed = λ n. n }

-- A step that leaves both tables alone.
pub WorldUnfailed-same :
    (v w : World) → v.offramps ≡ w.offramps → v.onramps ≡ w.onramps → WorldUnfailed v w
WorldUnfailed-same v w p q = record {
  offramps = subst (λ t. Each OfframpUnfailed v.offramps t) p (Each-refl OfframpUnfailed-refl _);
  onramps = subst (λ t. Each OnrampUnfailed v.onramps t) q (Each-refl OnrampUnfailed-refl _);
}

pub WorldUnfailed-refl : (w : World) → WorldUnfailed w w
WorldUnfailed-refl w = WorldUnfailed-same w w refl refl

-- A guarded update, and then code that never fails a ramp.
pub Ensures-WorldHeld_then :
    {w : World} (m : Option World) (f : World → World)
    → Ensures (WorldHeld w) m
    → ((v : World) → WorldUnfailed v (f v))
    → Ensures (WorldHeld w) (m >>= λ v. some (f v))
Ensures-WorldHeld_then none f h k = breaks
Ensures-WorldHeld_then (some v) f h k = returns (WorldHeld-then (Ensures-some h) (k v))
