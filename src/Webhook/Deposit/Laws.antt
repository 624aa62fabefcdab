-- ===== src/Webhook/Deposit/Laws.antt =====
-- What a credited crypto deposit leaves on the offramp.
use api_bloxfi.Prelude.{
  ℕ, ◌+◌, ◌==◌, String, Bool, true, false, refl, sym, ◌≡◌, ◌∙◌, some, arith, eq_of_some, Ensures,
  Ensures-bind, Ensures-some, returns, require_holds, if◌then◌else◌, require, ◌>>=◌, ◌⊎◌, inl, inr,
  ap, Bool-cases, eq_of_==, not, ◌&&◌,
}
use mathlib.Core.Path.{subst}
use api_bloxfi.Text.{trim, to_upper, is_set, or_else}
use api_bloxfi.Numeric.{units}
use api_bloxfi.Json.{
  Value, member, text_of, text_or_empty, num, str, Fields, get, spread, record_or_empty,
}
use api_bloxfi.Json.Laws.{get-put}
use api_bloxfi.Offramp.DepositAmount.{
  prior_crypto_received_amount, parse_deposit_webhook_amount, expected_offramp_crypto_amount,
  is_offramp_crypto_deposit_complete,
}
use api_bloxfi.Ramp.Status.{OfframpStatus, crypto_received, crypto_confirmed}
use api_bloxfi.Ramp.Guard.{offramp_funds_received}
use api_bloxfi.Ramp.Store.{OfframpRow, automatic, updated_offramp}
use api_bloxfi.Webhook.Repos.{orch_text, get_palremit_orchestrator, is_expected_id}
use api_bloxfi.Webhook.Deposit.{
  Deposit, Credit, credited_timeline, credit_patch, check_offramp_credit, offramp_takes_credit,
  asset_agrees,
}

credited_timeline-amount :
    (now : String) (complete : Bool) (total expected : ℕ) (old : Fields)
    → get "cryptoReceivedAmount" (credited_timeline now complete total expected old)
      ≡ num (units total)
unfolding credited_timeline spread
credited_timeline-amount now true total expected old = simp (get-put)
credited_timeline-amount now false total expected old = simp (get-put)

credited_timeline-mark :
    (now : String) (complete : Bool) (total expected : ℕ) (old : Fields)
    → get "lastDepositCreditedAt" (credited_timeline now complete total expected old) ≡ str now
unfolding credited_timeline spread
credited_timeline-mark now true total expected old = simp (get-put)
credited_timeline-mark now false total expected old = simp (get-put)

-- The offramp as a credit leaves it.
abbrev pub credited : String → Credit → Fields → Deposit → OfframpRow → OfframpRow
credited now c d dep o =
    updated_offramp now automatic (if c.complete then crypto_confirmed else crypto_received)
      (credit_patch now c.complete c.total c.expected d dep o) o

-- The amount that a credit stores is the one that the next credit adds to.
pub prior-credited :
    (now : String) (c : Credit) (d : Fields) (dep : Deposit) (o : OfframpRow)
    → prior_crypto_received_amount (credited now c d dep o).timeline ≡ c.total
unfolding updated_offramp credit_patch prior_crypto_received_amount
prior-credited now c d dep o =
    rw (credited_timeline-amount now c.complete c.total c.expected (record_or_empty o.timeline))
      refl

-- With the timeline that a credit leaves, however small the credit, the funds of the offramp count as
-- received whatever its status.
pub funds_received-credited :
    (now : String) (c : Credit) (d : Fields) (dep : Deposit) (o : OfframpRow) (s : OfframpStatus)
    → offramp_funds_received s (credited now c d dep o).timeline ≡ true
unfolding updated_offramp credit_patch offramp_funds_received
funds_received-credited now c d dep o s =
    let mark =
      credited_timeline-mark now c.complete c.total c.expected (record_or_empty o.timeline) in
    rw mark (ground arith)

-- The deposit names no asset, or the one of the offramp.
abbrev pub AssetAgrees : String → Value → Type 0
AssetAgrees code source =
    (is_set code ≡ false)
    ⊎ ((wanted : String) × ((member "currency" source >>= text_or_empty) ≡ some wanted)
        × (to_upper (trim wanted) ≡ code))

-- The deposit or the offramp names no network, or both name one.
abbrev pub NetworkAgrees : String → Value → Type 0
NetworkAgrees network source =
    (wanted : String) × ((member "chain" source >>= text_or_empty) ≡ some wanted)
    × ((is_set network ≡ false)
        ⊎ ((is_set (to_upper (trim wanted)) ≡ false) ⊎ (to_upper network ≡ to_upper (trim wanted))))

-- What holds when a credit is accepted.
pub record CreditChecked (dep : Deposit) (o : OfframpRow) (c : Credit) : Type 0 where
  pub takes_credit : offramp_takes_credit o.status ≡ true
  pub is_crypto : (dep.mode == "CRYPTO_DEPOSIT") ≡ true
  pub expected_account :
      is_expected_id
        (orch_text "provisionedAccountId" (get_palremit_orchestrator o.provider_refs))
        dep.prov_id
      ≡ true
  pub total_is :
      (incoming : ℕ) × (parse_deposit_webhook_amount dep.fields ≡ some incoming)
      × (c.total ≡ prior_crypto_received_amount o.timeline + incoming)
  pub expected_is : expected_offramp_crypto_amount o.source o.deposit_instructions ≡ some c.expected
  pub asset_is : AssetAgrees dep.asset_code o.source
  pub network_is : NetworkAgrees dep.network o.source
  pub complete_is :
      (v : Value) × (member "currency" o.source ≡ some v)
      × (c.complete
          ≡ is_offramp_crypto_deposit_complete c.total c.expected
              (if is_set dep.asset_code then dep.asset_code else text_of v))

asset_agrees-AssetAgrees :
    (code : String) (source : Value) (b : Bool)
    → asset_agrees code source ≡ some b
    → b ≡ true
    → AssetAgrees code source
asset_agrees-AssetAgrees code source b h t = elim (Bool-cases (is_set code)) [
  | inr unset ↦ inl unset
  | inl set ↦
      Ensures-some {P = λ (x : Bool). x ≡ true → AssetAgrees code source} {a = b}
        (rw (sym (rw set at h)) (
          Ensures-bind (member "currency" source >>= text_or_empty) _
            λ wanted e. returns (λ same. inr (wanted, e, eq_of_== _ _ same))))
        t
]

network_fits :
    (network wanted : String) (source : Value)
    → (member "chain" source >>= text_or_empty) ≡ some wanted
    → not (
        is_set network
        && is_set (to_upper (trim wanted))
        && not (to_upper network == to_upper (trim wanted)))
      ≡ true
    → NetworkAgrees network source
network_fits network wanted source e h = (
  wanted,
  e,
  elim (Bool-cases (is_set network)) [
    | inr unset ↦ inl unset
    | inl set ↦ elim (Bool-cases (is_set (to_upper (trim wanted)))) [
      | inr unset ↦ inr (inl unset)
      | inl given ↦ elim (Bool-cases (to_upper network == to_upper (trim wanted))) [
        | inl same ↦ inr (inr (eq_of_== _ _ same))
        | inr other ↦ let broken : false ≡ true = rw (set, given, other) at h in cc
      ]
    ]
  ],
)

asset_for : (code asset : String) → or_else code asset ≡ (if is_set code then code else asset)
asset_for code asset = ground arith

-- A credit of an offramp is accepted only while the offramp waits for crypto or has expired, for a crypto
-- deposit to its own account, with the asset and the network of the offramp wherever the deposit names them;
-- its total is what was credited before and the amount of the deposit, and it is complete by the rule for
-- complete deposits under the deposit's asset, or under the offramp's where the deposit names none.
pub check_offramp_credit-CreditChecked :
    (dep : Deposit) (o : OfframpRow) (c : Credit)
    → check_offramp_credit dep o ≡ some c
    → CreditChecked dep o c
unfolding check_offramp_credit
check_offramp_credit-CreditChecked dep o c h = Ensures-some (subst (Ensures _) h checked)
  where
    checked : Ensures (CreditChecked dep o) (check_offramp_credit dep o)
    checked = Ensures-bind (require (offramp_takes_credit o.status)) _ λ _ t.
        Ensures-bind (require (dep.mode == "CRYPTO_DEPOSIT")) _ λ _ m.
          Ensures-bind
            (require (
              is_expected_id
                (orch_text "provisionedAccountId" (get_palremit_orchestrator o.provider_refs))
                dep.prov_id))
            _
            λ _ i. Ensures-bind (asset_agrees dep.asset_code o.source) _ λ same a.
              Ensures-bind (require same) _ λ _ s.
                Ensures-bind (member "chain" o.source >>= text_or_empty) _ λ chain n.
                  Ensures-bind
                    (require (
                      not (
                        is_set dep.network
                        && is_set (to_upper (trim chain))
                        && not (to_upper dep.network == to_upper (trim chain)))))
                    _
                    λ _ fits. Ensures-bind (parse_deposit_webhook_amount dep.fields) _ λ incoming p.
                      Ensures-bind (expected_offramp_crypto_amount o.source o.deposit_instructions)
                        _
                        λ e x. Ensures-bind (member "currency" o.source) _ λ v r. returns (record {
                          takes_credit = require_holds _ t;
                          is_crypto = require_holds _ m;
                          expected_account = require_holds _ i;
                          total_is = (incoming, p, refl);
                          expected_is = x;
                          asset_is =
                              asset_agrees-AssetAgrees dep.asset_code o.source same a
                                (require_holds _ s);
                          network_is =
                              network_fits dep.network chain o.source n (require_holds _ fits);
                          complete_is = (
                            v,
                            r,
                            ap
                                (is_offramp_crypto_deposit_complete
                                  (prior_crypto_received_amount o.timeline + incoming) e)
                                (asset_for dep.asset_code (text_of v)),
                          );
                        })

-- Two credits in turn add up, whatever their events say besides: the total of the second is the total
-- of the first and the amount of the second deposit.
pub two_credits :
    (now : String) (c₁ c₂ : Credit) (d : Fields) (dep₁ dep₂ : Deposit) (o : OfframpRow) (b : ℕ)
    → check_offramp_credit dep₂ (credited now c₁ d dep₁ o) ≡ some c₂
    → parse_deposit_webhook_amount dep₂.fields ≡ some b
    → c₂.total ≡ c₁.total + b
two_credits now c₁ c₂ d dep₁ dep₂ o b h p =
    let checked = check_offramp_credit-CreditChecked dep₂ (credited now c₁ d dep₁ o) c₂ h in
    let prior = prior-credited now c₁ d dep₁ o in
    let same : checked.total_is.0 ≡ b = eq_of_some (sym checked.total_is.1 ∙ p) in
    checked.total_is.2 ∙ rw (prior, same) refl
