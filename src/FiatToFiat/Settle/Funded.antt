-- ===== src/FiatToFiat/Settle/Funded.antt =====
-- The offramp after an internal settlement claimed it, read by the functions that deposits use.
use api_bloxfi.Prelude.{
  arith, String, ℕ, ◌+◌, ◌≤◌, true, ◌≡◌, refl, sym, ap, Option, none, some, require, require_holds,
  Ensures, Ensures-bind, Ensures-some, returns, Ensures-intro, ◌∙◌, eq_of_some, inr, ◌<◌,
}
use api_bloxfi.Numeric.{Number, units}
use api_bloxfi.Json.{
  Value, undefined, null, bool, num, str, arr, obj, get, spread, record_or_empty, as_record,
}
use api_bloxfi.Json.Laws.{get-put}
use api_bloxfi.Table.{find, find-holds, find-modify_found}
use api_bloxfi.Ramp.Status.{OfframpStatus, crypto_confirmed}
use api_bloxfi.Ramp.Guard.{offramp_funds_received}
use api_bloxfi.Ramp.Store.{World, OnrampRow, OfframpRow, find_offramp_by_id, offramp_has_id}
use api_bloxfi.Ramp.Expiry.{Clock}
use api_bloxfi.Offramp.DepositAmount.{
  as_positive, positive_from, positive_from_text, first_of_two, underpayment_tolerance_for_asset,
  round_offramp_crypto_amount, prior_crypto_received_amount, expected_offramp_crypto_amount,
  is_offramp_crypto_deposit_complete,
}
use api_bloxfi.Offramp.DepositAmount.Laws.{deposit_complete_iff, below_tolerance_of}
use api_bloxfi.FiatToFiat.Pair.{is_settleable, distance, finite_number}
use api_bloxfi.FiatToFiat.Pair.Laws.{PairMatches}
use api_bloxfi.FiatToFiat.Claim.{
  ClaimUpdates, ClaimRead, claimable, claimed_row, read_claim, write_claim, claim_offramp_crypto,
}
use api_bloxfi.FiatToFiat.Settle.{Match, settlement_pair, claim_updates}
use api_bloxfi.FiatToFiat.Settle.Laws.{PairChecked, settlement_pair-PairChecked}

as_positive-positive : (n : Number) (e : ℕ) → as_positive n ≡ some e → 1 ≤ e
as_positive-positive n e h = ground arith

positive_from-positive : (v : Value) (e : ℕ) → positive_from v ≡ some e → 1 ≤ e
positive_from-positive (num n) e h = as_positive-positive n e h
positive_from-positive (str s) e h = as_positive-positive _ e h
positive_from-positive undefined e h = cc
positive_from-positive null e h = cc
positive_from-positive (bool b) e h = cc
positive_from-positive (arr xs) e h = cc
positive_from-positive (obj o) e h = cc

positive_from_text-positive : (v : Value) (e : ℕ) → positive_from_text v ≡ some e → 1 ≤ e
positive_from_text-positive (num n) e h = cc
positive_from_text-positive (str s) e h = as_positive-positive _ e h
positive_from_text-positive undefined e h = cc
positive_from_text-positive null e h = cc
positive_from_text-positive (bool b) e h = cc
positive_from_text-positive (arr xs) e h = cc
positive_from_text-positive (obj o) e h = cc

first_of_two-positive :
    (a b : Option ℕ)
    → Ensures (λ e. 1 ≤ e) a
    → Ensures (λ e. 1 ≤ e) b
    → Ensures (λ e. 1 ≤ e) (first_of_two a b)
first_of_two-positive none b h k = k
first_of_two-positive (some a) b h k = h

expected-positive :
    (source di : Value) → Ensures (λ e. 1 ≤ e) (expected_offramp_crypto_amount source di)
unfolding expected_offramp_crypto_amount
expected-positive source di =
    first_of_two-positive _ _
      (Ensures-bind (as_record source) _
        λ f _. Ensures-intro _ (positive_from-positive (get "amount" f)))
      (Ensures-bind (as_record di) _
        λ f _. Ensures-intro _ (positive_from_text-positive (get "amount" f)))

close_enough :
    (a e : ℕ)
    → distance (units a) e ≤ 1000000
    → round_offramp_crypto_amount e ≤ round_offramp_crypto_amount a + 2
unfolding round_offramp_crypto_amount
close_enough a e h = omega arith

tolerance_is :
    (asset : String)
    → 0 < underpayment_tolerance_for_asset asset
    → underpayment_tolerance_for_asset asset ≡ 100
unfolding underpayment_tolerance_for_asset
tolerance_is asset h = ground arith

-- What an internal settlement pays also counts as a complete deposit, for every asset for which deposits
-- have a tolerance: the two ways of funding an offramp agree.
pub PairMatches-deposit_complete :
    (c : Clock) (row : OnrampRow) (o : OfframpRow) (a e : ℕ) (asset : String)
    → PairMatches c row o (units a)
    → expected_offramp_crypto_amount o.source o.deposit_instructions ≡ some e
    → 0 < underpayment_tolerance_for_asset asset
    → is_offramp_crypto_deposit_complete a e asset ≡ true
PairMatches-deposit_complete c row o a e asset m quoted h =
    let x = m.amounts in
    let same : x.expected ≡ e = eq_of_some (sym x.quoted ∙ quoted) in
    let near = close_enough a e (rw (sym same) x.close) in
    let positive : 1 ≤ e =
      Ensures-some {P = λ (n : ℕ). 1 ≤ n} {a = e}
        (rw (sym quoted) (expected-positive o.source o.deposit_instructions)) in
    let hundred = tolerance_is asset h in
    (deposit_complete_iff a e asset).1
      (omega arith, inr (h, below_tolerance_of _ _ _ (omega arith) h))

settled_timeline-amount :
    (at : String) (row : OnrampRow) (o : OfframpRow) (n : ℕ)
    → get "cryptoReceivedAmount" (record_or_empty (claim_updates at row o (units n)).timeline)
      ≡ num (units n)
unfolding claim_updates spread
settled_timeline-amount at row o n = simp (get-put)

settled_timeline-mark :
    (at : String) (row : OnrampRow) (o : OfframpRow) (n : ℕ)
    → get "cryptoConfirmedAt" (record_or_empty (claim_updates at row o (units n)).timeline) ≡ str at
unfolding claim_updates spread
settled_timeline-mark at row o n = simp (get-put)

-- The offramp is stored as CRYPTO_CONFIRMED with this amount received.
pub record Funded (id : String) (n : ℕ) (w : World) : Type 0 where
  pub row : OfframpRow
  pub stored : find_offramp_by_id id w ≡ some row
  pub confirmed : row.status ≡ crypto_confirmed
  pub received : prior_crypto_received_amount row.timeline ≡ n
  pub held : (s : OfframpStatus) → offramp_funds_received s row.timeline ≡ true

amount_of :
    (t : Value) (n : ℕ)
    → get "cryptoReceivedAmount" (record_or_empty t) ≡ num (units n)
    → prior_crypto_received_amount t ≡ n
unfolding prior_crypto_received_amount
amount_of t n e = rw e refl

held_of :
    (t : Value) (at : String) (s : OfframpStatus)
    → get "cryptoConfirmedAt" (record_or_empty t) ≡ str at
    → offramp_funds_received s t ≡ true
unfolding offramp_funds_received
held_of t at s e = rw e (ground arith)

claimed-Funded :
    (at : String) (row : OnrampRow) (o r : OfframpRow) (n : ℕ) (refs : Value) (w : World)
    → find_offramp_by_id o.id w ≡ some (claimed_row refs (claim_updates at row o (units n)) r)
    → Funded o.id n w
claimed-Funded at row o r n refs w stored = record {
  row = claimed_row refs (claim_updates at row o (units n)) r;
  stored = stored;
  confirmed = refl;
  received = amount_of _ n (settled_timeline-amount at row o n);
  held = λ s. held_of _ at s (settled_timeline-mark at row o n);
}

written-Funded :
    (at : String) (row : OnrampRow) (o r : OfframpRow) (n : ℕ) (read : ClaimRead) (w : World)
    → find_offramp_by_id o.id w ≡ some r
    → is_settleable r.status ≡ true
    → Ensures
        (Funded o.id n)
        (write_claim o.id is_settleable (claim_updates at row o (units n)) read w)
unfolding write_claim find_offramp_by_id
written-Funded at row o r n read w found free =
    Ensures-bind (find (claimable o.id is_settleable) w.offramps) _ λ x _. returns (
      claimed-Funded at row o r n read.merged_refs _ (
        find-modify_found (offramp_has_id o.id) (claimable o.id is_settleable)
          (claimed_row read.merged_refs (claim_updates at row o (units n))) w.offramps (λ x. refl)
          (rw (find-holds (offramp_has_id o.id) w.offramps found, free) refl) found))

abbrev pub WasOpen : String → World → Type 0
WasOpen id w =
    (r : OfframpRow) × (find_offramp_by_id id w ≡ some r) × (is_settleable r.status ≡ true)

read-found :
    (id : String) (u : ClaimUpdates) (w : World)
    → Ensures (λ read. WasOpen id w) (read_claim id is_settleable u w)
unfolding read_claim
read-found id u w = Ensures-bind (find_offramp_by_id id w) _ λ r e.
    Ensures-bind (require (is_settleable r.status)) _ λ _ s. returns (r, e, require_holds _ s)

claimed_amount :
    (at : String) (row : OnrampRow) (o : OfframpRow) (n : ℕ) (w v : World)
    → claim_offramp_crypto o.id is_settleable (claim_updates at row o (units n)) w ≡ some v
    → Funded o.id n v
unfolding claim_offramp_crypto
claimed_amount at row o n w v e = Ensures-some {P = Funded o.id n} {a = v} (
    rw (sym e) (
      Ensures-bind (read_claim o.id is_settleable u w) _ λ read q.
        let known : WasOpen o.id w =
          Ensures-some {P = λ (x : ClaimRead). WasOpen o.id w} {a = read}
            (rw (sym q) (read-found o.id u w)) in
        written-Funded at row o known.0 n read w known.1 known.2))
  where
    u : ClaimUpdates
    u = claim_updates at row o (units n)

-- A claim for the pair of an internal settlement that goes through stores the offramp of the pair as
-- CRYPTO_CONFIRMED, with exactly the amount of the onramp's destination as received. With the timeline that
-- the claim writes, the funds count as received whatever the status.
pub claim-Funded :
    (c : Clock) (row : OnrampRow) (m : Match) (n : ℕ) (w v : World)
    → settlement_pair c row w ≡ some m
    → get "amount" (record_or_empty row.destination) ≡ num (units n)
    → claim_offramp_crypto m.0.id is_settleable (claim_updates c.now_text row m.0 m.1) w ≡ some v
    → Funded m.0.id n v
claim-Funded c row m n w v paired amount e =
    let checked : PairChecked c row w m =
      Ensures-some {P = PairChecked c row w} {a = m}
        (rw (sym paired) (settlement_pair-PairChecked c row w)) in
    let same : units n ≡ m.1 =
      eq_of_some (sym (ap finite_number amount) ∙ checked.matched.amounts.read) in
    claimed_amount c.now_text row m.0 n w v (rw same e)
