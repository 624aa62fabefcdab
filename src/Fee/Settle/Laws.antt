-- ===== src/Fee/Settle/Laws.antt =====
-- When a fee is asked of the provider.
use api_bloxfi.Prelude.{
  String, true, false, not, refl, ◌≡◌, ◌⊎◌, inl, inr, Option, none, some, arith, List, [], ◌∷◌,
  ◌||◌, ◌==◌, Ensures, Ensures-if, Ensures-some, breaks, returns, Option-cases, Bool-cases,
  eq_of_some, eq_of_==,
}
use mathlib.Core.Path.{subst}
use api_bloxfi.Json.{Fields}
use api_bloxfi.Ramp.Store.{World}
use api_bloxfi.Fee.Record.{settlement_status}
use api_bloxfi.Fee.Validate.{RampKind, FeeDeps, validate_platform_fee_settlement}
use api_bloxfi.Fee.Settle.{
  FeeRow, FeeRepo, Settled, Outcome, settle_ramp_platform_fee, settle_row, settle_validated,
  record_live, persisted, is_settled, withdrawal_body,
}

-- Why a fee was asked of the provider.
pub record FeeAllowed (kind : RampKind) (repo : FeeRepo) (deps : FeeDeps) (id : String) (w : World)
    (body : Fields) : Type 0 where
  pub row : FeeRow
  pub found : repo.find_by_id id w ≡ some row
  pub completed : row.is_completed ≡ true
  pub is_open : (settlement_status row.fees ≡ "pending") ⊎ (settlement_status row.fees ≡ "failed")
  pub valid : (validate_platform_fee_settlement kind deps row.txn_ref row.fees).notes ≡ []
  pub body_is :
      body ≡ withdrawal_body (validate_platform_fee_settlement kind deps row.txn_ref row.fees)

open_status :
    (s : String)
    → not (s == "pending" || (s == "failed")) ≡ false
    → (s ≡ "pending") ⊎ (s ≡ "failed")
open_status s h = elim (Bool-cases (s == "pending")) [
  | inl p ↦ inl (eq_of_== s "pending" p)
  | inr n ↦ let f : (s == "failed") ≡ true = ground arith in inr (eq_of_== s "failed" f)
]

module _ (now : String) (kind : RampKind) (repo : FeeRepo) (deps : FeeDeps) (id : String)
    (w : World) where
  abbrev Justified : Settled → Type 0
  Justified s = (body : Fields) → s.requested ≡ some body → FeeAllowed kind repo deps id w body

  unasked :
      (o : Outcome) (v : World)
      → Ensures Justified (some (record { outcome = o; requested = none; world = v }))
  unasked o v = returns (λ body e. cc)

  persisted-none : (o : Outcome) (m : Option World) → Ensures Justified (persisted o none m)
  persisted-none o none = breaks
  persisted-none o (some v) = unasked o v

  persisted_body :
      (o : Outcome) (b : Fields) (m : Option World)
      → FeeAllowed kind repo deps id w b
      → Ensures Justified (persisted o (some b) m)
  persisted_body o b none h = breaks
  persisted_body o b (some v) h =
      returns (λ body e. subst (FeeAllowed kind repo deps id w) (eq_of_some e) h)

  asked :
      (row : FeeRow) (b : Fields) (live : Option Fields)
      → FeeAllowed kind repo deps id w b
      → Ensures Justified (record_live now repo id row b live w)
  asked row b none h = persisted_body _ b _ h
  asked row b (some live) h = persisted_body _ b _ h

  validated :
      (row : FeeRow) (notes : List String)
      → repo.find_by_id id w ≡ some row
      → row.is_completed ≡ true
      → ((settlement_status row.fees ≡ "pending") ⊎ (settlement_status row.fees ≡ "failed"))
      → (validate_platform_fee_settlement kind deps row.txn_ref row.fees).notes ≡ notes
      → Ensures Justified (
          settle_validated now kind repo deps id row
            (validate_platform_fee_settlement kind deps row.txn_ref row.fees)
            notes
            w)
  validated row (n ∷ notes) f c o v = persisted-none _ _
  validated row [] f c o v =
      asked row _ _
        (record { row = row; found = f; completed = c; is_open = o; valid = v; body_is = refl })

  row_settled :
      (row : FeeRow)
      → repo.find_by_id id w ≡ some row
      → Ensures Justified (settle_row now kind repo deps id (some row) w)
  row_settled row f =
      Ensures-if (not row.is_completed) _ _ (λ _. unasked _ _)
        λ c.
          Ensures-if (is_settled (settlement_status row.fees)) _ _ (λ _. unasked _ _)
            λ _.
              Ensures-if
                (not (
                  settlement_status row.fees == "pending"
                  || (settlement_status row.fees == "failed")))
                _ _ (λ _. unasked _ _)
                λ o.
                  validated row _ f (ground arith) (open_status (settlement_status row.fees) o) refl

  -- A settlement asks the provider for a withdrawal only for a ramp that is COMPLETED, whose
  -- settlement is pending or failed, and whose fee passed every check, and then for what the checks
  -- computed.
  pub settle-FeeAllowed :
      (s : Settled) (body : Fields)
      → settle_ramp_platform_fee now kind repo deps id w ≡ some s
      → s.requested ≡ some body
      → FeeAllowed kind repo deps id w body
  unfolding settle_ramp_platform_fee
  settle-FeeAllowed s body e r = elim (Option-cases (repo.find_by_id id w)) [
    | inl n ↦ Ensures-some {P = Justified} {a = s} (rw (← e, n) (unasked _ _)) body r
    | inr (row, f) ↦ Ensures-some {P = Justified} {a = s} (rw (← e, f) (row_settled row f)) body r
  ]
