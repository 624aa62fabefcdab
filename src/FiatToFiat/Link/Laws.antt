-- ===== src/FiatToFiat/Link/Laws.antt =====
-- What a resolved link has checked.
use api_bloxfi.Prelude.{
  arith, ◌≡◌, refl, sym, String, Bool, true, false, not, ◌&&◌, ◌||◌, Option, none, some, pass,
  refuse_if-pass, ltb, ℕ, eq_of_pass, List, [], ◌∷◌, eq_of_==,
}
use api_bloxfi.Numeric.{Number}
use api_bloxfi.Text.{trim, to_upper, is_set}
use api_bloxfi.Json.{record_or_empty, text_at}
use api_bloxfi.Ramp.Store.{World, OfframpRow, find_offramp_by_txn_ref}
use api_bloxfi.Ramp.Expiry.{Clock, is_deposit_past_due}
use api_bloxfi.Offramp.DepositAmount.{prior_crypto_received_amount, expected_offramp_crypto_amount}
use api_bloxfi.FiatToFiat.Pair.{is_settleable, is_apart, flow_of}
use api_bloxfi.FiatToFiat.Pair.Laws.{of_not}
use api_bloxfi.FiatToFiat.Claim.{find_live_onramps_for_offramp}
use api_bloxfi.FiatToFiat.Link.{
  LinkInput, LinkQuote, OfframpLink, has_flow, is_off, is_empty, memo_of, resolve_for, for_quote,
  for_offramp, resolve_offramp_link,
}

-- What was checked for the offramp and the quote, and the answer.
pub record LinkChecked (c : Clock) (input : LinkInput) (q : LinkQuote) (o : OfframpRow) (w : World)
    (link : OfframpLink) : Type 0 where
  pub quote_flow : has_flow q.flow ≡ true
  pub offramp_flow : flow_of o.rate_information ≡ "FIAT_TO_FIAT"
  pub awaiting : is_settleable o.status ≡ true
  pub none_received : prior_crypto_received_amount o.timeline ≡ 0
  pub has_address : is_set (text_at "address" (record_or_empty o.deposit_instructions)) ≡ true
  pub window_open :
      is_deposit_past_due c
        (c.read_date (text_at "depositBy" (record_or_empty o.deposit_instructions)))
      ≡ false
  pub assets :
      to_upper (trim q.to_currency)
      ≡ to_upper (text_at "currency" (record_or_empty o.deposit_instructions))
  pub networks :
      to_upper (trim q.destination_chain)
      ≡ to_upper (text_at "network" (record_or_empty o.deposit_instructions))
  pub expected : ℕ
  pub expects : expected_offramp_crypto_amount o.source o.deposit_instructions ≡ some expected
  pub not_apart : is_apart q.receive_net expected ≡ false
  pub unlinked : find_live_onramps_for_offramp link.offramp_id link.address w ≡ []
  pub reference : link.offramp_id ≡ trim input.offramp_id
  pub address : link.address ≡ text_at "address" (record_or_empty o.deposit_instructions)
  pub memo : link.memo ≡ memo_of (text_at "memo" (record_or_empty o.deposit_instructions))

both : (a b : Bool) → not (a && b) ≡ false → (a ≡ true) × (b ≡ true)
both a b h = ground arith

none_of :
    (a b d : Bool) (n : ℕ)
    → (not a || (ltb 0 n || (not b || d))) ≡ false
    → (a ≡ true) × (n ≡ 0) × (b ≡ true) × (d ≡ false)
none_of a b d n h = ground arith

on_target :
    (net : Number) (e : Option ℕ)
    → is_off net e ≡ false
    → (x : ℕ) × (e ≡ some x) × (is_apart net x ≡ false)
on_target net none h = cc
on_target net (some e) h = (e, refl, h)

of_empty : (xs : List (Option String)) → not (is_empty xs) ≡ false → xs ≡ []
of_empty [] h = refl
of_empty (x ∷ xs) h = cc

resolve_for-LinkChecked :
    (c : Clock) (input : LinkInput) (q : LinkQuote) (o : OfframpRow) (w : World)
    (link : OfframpLink)
    → resolve_for c input q o w ≡ pass link
    → LinkChecked c input q o w link
unfolding resolve_for
resolve_for-LinkChecked c input q o w link h =
    let s0 = refuse_if-pass _ _ _ h in
    let s1 = refuse_if-pass _ _ _ s0.1 in
    let s2 = refuse_if-pass _ _ _ s1.1 in
    let s3 = refuse_if-pass _ _ _ s2.1 in
    let s4 = refuse_if-pass _ _ _ s3.1 in
    let s5 = refuse_if-pass _ _ _ s4.1 in
    let flows = both _ _ s0.0 in
    let open_for = none_of _ _ _ _ s1.0 in
    let agree = both _ _ s2.0 in
    let target = on_target _ _ s3.0 in
    let answer = eq_of_pass s5.1 in
    record {
      quote_flow = flows.0;
      offramp_flow = eq_of_== _ _ flows.1;
      awaiting = open_for.0;
      none_received = open_for.1;
      has_address = open_for.2;
      window_open = open_for.3;
      assets = eq_of_== _ _ agree.0;
      networks = eq_of_== _ _ agree.1;
      expected = target.0;
      expects = target.1;
      not_apart = target.2;
      unlinked = rw (sym answer) (of_empty _ s5.0);
      reference = rw (sym answer) refl;
      address = rw (sym answer) refl;
      memo = rw (sym answer) refl;
    }

-- A resolved link belongs to a stored offramp of the same business, found by the trimmed reference, and
-- to a quote that was given, and everything between them was checked.
pub record LinkResolved (c : Clock) (input : LinkInput) (w : World) (link : OfframpLink)
    : Type 0 where
  pub offramp : OfframpRow
  pub quote : LinkQuote
  pub stored : find_offramp_by_txn_ref (trim input.offramp_id) w ≡ some offramp
  pub quoted : input.quote ≡ some quote
  pub same_user : offramp.user_id ≡ input.user_id
  pub checked : LinkChecked c input quote offramp w link

quote-LinkResolved :
    (c : Clock) (input : LinkInput) (o : OfframpRow) (w : World) (link : OfframpLink)
    (quote : Option LinkQuote)
    → find_offramp_by_txn_ref (trim input.offramp_id) w ≡ some o
    → o.user_id ≡ input.user_id
    → input.quote ≡ quote
    → for_quote c input quote o w ≡ pass link
    → LinkResolved c input w link
quote-LinkResolved c input o w link none stored same quoted h = cc
quote-LinkResolved c input o w link (some q) stored same quoted h = record {
  offramp = o;
  quote = q;
  stored = stored;
  quoted = quoted;
  same_user = same;
  checked = resolve_for-LinkChecked c input q o w link h;
}

offramp-LinkResolved :
    (c : Clock) (input : LinkInput) (w : World) (link : OfframpLink) (found : Option OfframpRow)
    → find_offramp_by_txn_ref (trim input.offramp_id) w ≡ found
    → for_offramp c input found w ≡ pass link
    → LinkResolved c input w link
offramp-LinkResolved c input w link none stored h = cc
offramp-LinkResolved c input w link (some o) stored h =
    let s = refuse_if-pass _ _ _ h in
    quote-LinkResolved c input o w link input.quote stored (eq_of_== _ _ (of_not _ s.0)) refl s.1

pub resolve_offramp_link-LinkResolved :
    (c : Clock) (input : LinkInput) (w : World) (link : OfframpLink)
    → resolve_offramp_link c input w ≡ pass link
    → LinkResolved c input w link
unfolding resolve_offramp_link
resolve_offramp_link-LinkResolved c input w link h = offramp-LinkResolved c input w link _ refl h
