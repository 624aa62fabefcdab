-- ===== src/Payout/Onramp/Laws.antt =====
-- What an advance leaves when no payout is started.
use api_bloxfi.Prelude.{
  String, Bool, true, false, refl, ◌≡◌, Option, none, some, otherwise, require, ◌>>=◌, ◌>>◌,
}
use api_bloxfi.Ramp.Store.{World}

pub unwritten :
    (m : Option String) (p : String → Bool) (w : World)
    → otherwise w (m >>= λ ref. require (p ref) >> some w) ≡ w
unwritten none p w = refl
unwritten (some ref) p w = tested (p ref)
  where
    tested : (b : Bool) → otherwise w (require b >> some w) ≡ w
    tested true = refl
    tested false = refl
