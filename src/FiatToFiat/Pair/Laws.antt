-- ===== src/FiatToFiat/Pair/Laws.antt =====
-- When a pair of ramps may be settled internally.
use api_bloxfi.Prelude.{
  ◌≡◌, ◌↔◌, ◌⊎◌, refl, sym, ap, eq_of_some, ◌≤◌, ℕ, arith, true, false, not, Bool, Option, none,
  some, pass, refuse_if-pass, eq_of_==, eq_iff, ltb,
}
use api_bloxfi.Text.{to_upper}
use api_bloxfi.Numeric.{Number}
use api_bloxfi.Json.{get, record_or_empty, text_at}
use api_bloxfi.Ramp.Status.{OfframpStatus, awaiting_crypto}
use api_bloxfi.Ramp.Store.{OnrampRow, OfframpRow}
use api_bloxfi.Ramp.Expiry.{Clock, is_deposit_past_due}
use api_bloxfi.Offramp.DepositAmount.{prior_crypto_received_amount, expected_offramp_crypto_amount}
use api_bloxfi.FiatToFiat.Pair.{
  flow_of, is_settleable, same_address, finite_number, distance, is_apart, compare_amounts,
  check_fiat_to_fiat_pair,
}

-- The onramp's amount is within a cent of what the offramp expects.
pub record AmountsAgree (n : OnrampRow) (o : OfframpRow) (a : Number) : Type 0 where
  pub expected : ℕ
  pub read : finite_number (get "amount" (record_or_empty n.destination)) ≡ some a
  pub quoted : expected_offramp_crypto_amount o.source o.deposit_instructions ≡ some expected
  pub close : distance a expected ≤ 1000000
  pub not_apart : is_apart a expected ≡ false

pub record PairMatches (c : Clock) (n : OnrampRow) (o : OfframpRow) (a : Number) : Type 0 where
  pub onramp_flow : flow_of n.quote_information ≡ "FIAT_TO_FIAT"
  pub offramp_flow : flow_of o.rate_information ≡ "FIAT_TO_FIAT"
  pub same_user : n.user_id ≡ o.user_id
  pub awaiting : (o.status ≡ awaiting_crypto) ⊎ (o.status ≡ OfframpStatus.crypto_pending)
  pub none_received : prior_crypto_received_amount o.timeline ≡ 0
  pub addresses :
      same_address
        (text_at "walletAddress" (record_or_empty n.destination))
        (text_at "address" (record_or_empty o.deposit_instructions))
      ≡ true
  pub assets :
      to_upper (text_at "currency" (record_or_empty n.destination))
      ≡ to_upper (text_at "currency" (record_or_empty o.deposit_instructions))
  pub networks :
      to_upper (text_at "chain" (record_or_empty n.destination))
      ≡ to_upper (text_at "network" (record_or_empty o.deposit_instructions))
  pub memos :
      text_at "memo" (record_or_empty n.destination)
      ≡ text_at "memo" (record_or_empty o.deposit_instructions)
  pub window_open :
      is_deposit_past_due c
        (c.read_date (text_at "depositBy" (record_or_empty o.deposit_instructions)))
      ≡ false
  pub amounts : AmountsAgree n o a

pub is_settleable_iff :
    (s : OfframpStatus)
    → (is_settleable s ≡ true) ↔ ((s ≡ awaiting_crypto) ⊎ (s ≡ OfframpStatus.crypto_pending))
is_settleable_iff s = (λ h. ground arith, λ h. ground arith)

pub of_not : (b : Bool) → not b ≡ false → b ≡ true
of_not b h = ground arith

of_not_positive : (n : ℕ) → ltb 0 n ≡ false → n ≡ 0
of_not_positive n h = ground arith

pub close_of : (a : Number) (e : ℕ) → is_apart a e ≡ false → distance a e ≤ 1000000
unfolding is_apart
close_of a e h = ground arith

agree :
    (a : Option Number) (e : Option ℕ) (b : Number)
    → (compare_amounts a e ≡ pass b)
      ↔ ((x : ℕ) × (a ≡ some b) × (e ≡ some x) × (is_apart b x ≡ false))
unfolding compare_amounts
agree none e b = (λ h. cc, λ h. cc)
agree (some a) none b = (λ h. cc, λ h. cc)
agree (some a) (some e) b = (
  λ h.
      let k = refuse_if-pass (is_apart a e) _ _ h in
      let same : a ≡ b = cc in (e, rw same refl, refl, rw (sym same) k.0),
  λ (x, p, q, close).
      let same : a ≡ b = eq_of_some p in
      let near : is_apart a e ≡ false = rw (same, eq_of_some q) close in rw near (ap pass same),
)

-- An offramp passes the check for an onramp, with an amount, exactly when both are in the fiat-to-fiat
-- flow of one business, the offramp still waits for its crypto in an open deposit window, the address,
-- asset, network and memo agree, and the onramp pays that amount, within a cent of the expected one, also as a difference of doubles.
pub check_fiat_to_fiat_pair_iff :
    (c : Clock) (n : OnrampRow) (o : OfframpRow) (a : Number)
    → (check_fiat_to_fiat_pair c n o ≡ pass a) ↔ PairMatches c n o a
unfolding check_fiat_to_fiat_pair
check_fiat_to_fiat_pair_iff c n o a = (
  λ h.
      let s0 = refuse_if-pass _ _ _ h in
      let s1 = refuse_if-pass _ _ _ s0.1 in
      let s2 = refuse_if-pass _ _ _ s1.1 in
      let s3 = refuse_if-pass _ _ _ s2.1 in
      let s4 = refuse_if-pass _ _ _ s3.1 in
      let s5 = refuse_if-pass _ _ _ s4.1 in
      let s6 = refuse_if-pass _ _ _ s5.1 in
      let s7 = refuse_if-pass _ _ _ s6.1 in
      let s8 = refuse_if-pass _ _ _ s7.1 in
      let s9 = refuse_if-pass _ _ _ s8.1 in
      let m = (agree _ _ a).0 s9.1 in
      record {
        onramp_flow = eq_of_== _ _ (of_not _ s0.0);
        offramp_flow = eq_of_== _ _ (of_not _ s1.0);
        same_user = eq_of_== _ _ (of_not _ s2.0);
        awaiting = (is_settleable_iff o.status).0 (of_not _ s3.0);
        none_received = of_not_positive _ s4.0;
        addresses = of_not _ s5.0;
        assets = eq_of_== _ _ (of_not _ s6.0);
        networks = eq_of_== _ _ (of_not _ s7.0);
        memos = eq_of_== _ _ (of_not _ s8.0);
        window_open = s9.0;
        amounts = record {
          expected = m.0;
          read = m.1;
          quoted = m.2;
          close = close_of _ _ m.3;
          not_apart = m.3;
        };
      },
  λ m.
      let x = m.amounts in
      let compared = (agree _ _ a).1 (x.expected, x.read, x.quoted, x.not_apart) in
      rw
        (
          (eq_iff _ _).1 m.onramp_flow,
          (eq_iff _ _).1 m.offramp_flow,
          (eq_iff _ _).1 m.same_user,
          (is_settleable_iff o.status).1 m.awaiting,
          m.none_received,
          m.addresses,
          (eq_iff _ _).1 m.assets,
          (eq_iff _ _).1 m.networks,
          (eq_iff _ _).1 m.memos,
          m.window_open,
        )
        compared,
)
