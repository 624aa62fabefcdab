-- ===== src/Ramp/Unfailed.antt =====
-- Updates to a status that is no failure, and steps in turn.
use api_bloxfi.Prelude.{
  String, false, ◌≡◌, ◌∙◌, arith, Option, none, some, ◌>>=◌, Ensures, Ensures-bind, Ensures-some,
  breaks, returns,
}
use api_bloxfi.Table.{Each-refl, Each-modify, Each-compose}
use api_bloxfi.Ramp.Status.{OnrampStatus, OfframpStatus}
use api_bloxfi.Ramp.Guard.{
  onramp_auto_fail, offramp_auto_fail, blocks_onramp_transition, blocks_offramp_transition,
}
use api_bloxfi.Ramp.Store.{
  OnrampRow, OfframpRow, World, OnrampPatch, OfframpPatch, automatic, updated_onramp,
  updated_offramp, update_onramp_status, update_offramp_status, find_onramp_by_id,
  find_offramp_by_id, onramp_has_id, offramp_has_id,
}
use api_bloxfi.Ramp.Held.{
  OfframpUnfailed, OnrampUnfailed, OfframpUnfailed-refl, OnrampUnfailed-refl, WorldUnfailed,
}

updated_offramp-OfframpUnfailed :
    (now : String) (status : OfframpStatus) (u : OfframpPatch) (r : OfframpRow)
    → offramp_auto_fail status ≡ false
    → OfframpUnfailed r (updated_offramp now automatic status u r)
unfolding updated_offramp blocks_offramp_transition
updated_offramp-OfframpUnfailed now status u r h = ground arith

updated_onramp-OnrampUnfailed :
    (now : String) (status : OnrampStatus) (u : OnrampPatch) (r : OnrampRow)
    → onramp_auto_fail status ≡ false
    → OnrampUnfailed r (updated_onramp now automatic status u r)
unfolding updated_onramp blocks_onramp_transition
updated_onramp-OnrampUnfailed now status u r h = ground arith

pub update_offramp_status-WorldUnfailed :
    (now id : String) (status : OfframpStatus) (u : OfframpPatch) (w : World)
    → offramp_auto_fail status ≡ false
    → Ensures (WorldUnfailed w) (update_offramp_status now automatic id status u w)
unfolding update_offramp_status
update_offramp_status-WorldUnfailed now id status u w h =
    Ensures-bind (find_offramp_by_id id w) _ λ row e. returns (record {
      offramps =
          Each-modify (offramp_has_id id) (updated_offramp now automatic status u) w.offramps
            (λ r _. updated_offramp-OfframpUnfailed now status u r h) OfframpUnfailed-refl;
      onramps = Each-refl OnrampUnfailed-refl w.onramps;
    })

pub update_onramp_status-WorldUnfailed :
    (now id : String) (status : OnrampStatus) (u : OnrampPatch) (w : World)
    → onramp_auto_fail status ≡ false
    → Ensures (WorldUnfailed w) (update_onramp_status now automatic id status u w)
unfolding update_onramp_status
update_onramp_status-WorldUnfailed now id status u w h =
    Ensures-bind (find_onramp_by_id id w) _ λ row e. returns (record {
      offramps = Each-refl OfframpUnfailed-refl w.offramps;
      onramps =
          Each-modify (onramp_has_id id) (updated_onramp now automatic status u) w.onramps
            (λ r _. updated_onramp-OnrampUnfailed now status u r h) OnrampUnfailed-refl;
    })

offramp_trans :
    (x y z : OfframpRow) → OfframpUnfailed x y → OfframpUnfailed y z → OfframpUnfailed x z
offramp_trans x y z h k = record {
  same_id = k.same_id ∙ h.same_id;
  same_txn_ref = k.same_txn_ref ∙ h.same_txn_ref;
  not_failed = λ n. k.not_failed (h.not_failed n);
}

onramp_trans : (x y z : OnrampRow) → OnrampUnfailed x y → OnrampUnfailed y z → OnrampUnfailed x z
onramp_trans x y z h k = record {
  same_id = k.same_id ∙ h.same_id;
  same_txn_ref = k.same_txn_ref ∙ h.same_txn_ref;
  not_failed = λ n. k.not_failed (h.not_failed n);
}

pub WorldUnfailed-trans :
    {u v w : World} → WorldUnfailed u v → WorldUnfailed v w → WorldUnfailed u w
WorldUnfailed-trans h k = record {
  offramps = Each-compose offramp_trans h.offramps k.offramps;
  onramps = Each-compose onramp_trans h.onramps k.onramps;
}

-- Two steps in turn.
pub Ensures-WorldUnfailed_then :
    {w : World} (m : Option World) (f : World → Option World)
    → Ensures (WorldUnfailed w) m
    → ((v : World) → Ensures (WorldUnfailed v) (f v))
    → Ensures (WorldUnfailed w) (m >>= f)
Ensures-WorldUnfailed_then none f h k = breaks
Ensures-WorldUnfailed_then {w} (some v) f h k = weaken (f v) (k v)
  where
    weaken : (m : Option World) → Ensures (WorldUnfailed v) m → Ensures (WorldUnfailed w) m
    weaken none e = breaks
    weaken (some z) e = returns (WorldUnfailed-trans (Ensures-some h) (Ensures-some e))
