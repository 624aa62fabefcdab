-- ===== src/FiatToFiat/Link/Settles.antt =====
-- An onramp that was created with a resolved link, when its settlement is tried.
use api_bloxfi.Prelude.{
  arith, ◌≡◌, ◌∙◌, refl, sym, ap, String, true, false, Option, none, some, ◌==◌, pass, List, ◌++◌,
  inl, inr, eq_of_==, eq_refl, Bool-cases, eq_of_some, ℕ,
}
use mathlib.Core.Path.{subst}
use api_bloxfi.Text.{trim, to_upper, to_lower, is_set}
use api_bloxfi.Text.Laws.{trim_twice, trim_nothing}
use api_bloxfi.Numeric.{units}
use api_bloxfi.Json.{Value, object, get, record_or_empty, text_at, num, text_of}
use api_bloxfi.Ramp.Store.{World, OnrampRow, OfframpRow, find_offramp_by_txn_ref}
use api_bloxfi.Ramp.Expiry.{Clock}
use api_bloxfi.FiatToFiat.Pair.{same_address, check_fiat_to_fiat_pair, flow_of}
use api_bloxfi.FiatToFiat.Pair.Laws.{
  PairMatches, close_of, is_settleable_iff, check_fiat_to_fiat_pair_iff,
}
use api_bloxfi.FiatToFiat.Link.{
  LinkInput, LinkQuote, OfframpLink, memo_of, memo_field, wallet_field, linked_destination,
  resolve_offramp_link,
}
use api_bloxfi.FiatToFiat.Link.Laws.{LinkChecked, resolve_offramp_link-LinkResolved}

same_address_refl : (a : String) → is_set a ≡ true → same_address a a ≡ true
unfolding same_address
same_address_refl a h = ground (arith, eq_refl a, eq_refl (to_lower a))

get-wallet_field :
    (k : String) (id : Option String) (r : List (String × Value))
    → ("externalWalletId" == k) ≡ false
    → get k (object (wallet_field id ++ r)) ≡ get k (object r)
unfolding get
get-wallet_field k none r h = refl
get-wallet_field k (some id) r h = elim (Bool-cases (id == "")) [
  | inl t ↦ rw t refl
  | inr n ↦ rw (n, h) refl
]

trimmed_memo :
    (s : String) → trim (text_of (get "memo" (object (memo_field (memo_of (trim s)))))) ≡ trim s
unfolding get
trimmed_memo s = elim (Bool-cases (trim s == "")) [
  | inl t ↦ rw t (trim_nothing ∙ sym (eq_of_== _ _ t))
  | inr n ↦ rw (n, trim_twice s, n, trim_twice s) refl
]

linked_memo :
    (input : LinkInput) (q : LinkQuote) (link : OfframpLink) (id : Option String) (user : Value)
    (s : String)
    → link.memo ≡ memo_of (trim s)
    → text_at "memo" (record_or_empty (linked_destination input q link id user)) ≡ trim s
unfolding linked_destination get
linked_memo input q link id user s e = rw (get-wallet_field "memo" id _ refl, e) (trimmed_memo s)

-- What the settlement reads of a destination that was stored with a link.
record LinkRead (input : LinkInput) (q : LinkQuote) (link : OfframpLink) (d : Value) : Type 0 where
  wallet : text_at "walletAddress" (record_or_empty d) ≡ trim link.address
  currency : text_at "currency" (record_or_empty d) ≡ trim q.to_currency
  chain : text_at "chain" (record_or_empty d) ≡ trim q.destination_chain
  amount : get "amount" (record_or_empty d) ≡ num q.receive_net

linked-LinkRead :
    (input : LinkInput) (q : LinkQuote) (link : OfframpLink) (id : Option String) (user : Value)
    → LinkRead input q link (linked_destination input q link id user)
unfolding linked_destination get
linked-LinkRead input q link id user = record {
  wallet = refl;
  currency = refl;
  chain = refl;
  amount = get-wallet_field "amount" id _ refl;
}

matched :
    (c : Clock) (input : LinkInput) (q : LinkQuote) (o : OfframpRow) (w : World)
    (link : OfframpLink) (row : OnrampRow) (n : ℕ)
    → LinkChecked c input q o w link
    → LinkRead input q link row.destination
    → text_at "memo" (record_or_empty row.destination)
      ≡ text_at "memo" (record_or_empty o.deposit_instructions)
    → q.receive_net ≡ units n
    → flow_of row.quote_information ≡ "FIAT_TO_FIAT"
    → row.user_id ≡ o.user_id
    → PairMatches c row o (units n)
matched c input q o w link row n k d memos net flow same =
    let there = text_at "address" (record_or_empty o.deposit_instructions) in
    let address : text_at "walletAddress" (record_or_empty row.destination) ≡ there =
      d.wallet ∙ ap trim k.address ∙ trim_twice _ in
    record {
      onramp_flow = flow;
      offramp_flow = k.offramp_flow;
      same_user = same;
      awaiting = (is_settleable_iff o.status).0 k.awaiting;
      none_received = k.none_received;
      addresses = rw address (same_address_refl there k.has_address);
      assets = ap to_upper d.currency ∙ k.assets;
      networks = ap to_upper d.chain ∙ k.networks;
      memos = memos;
      window_open = k.window_open;
      amounts = record {
        expected = k.expected;
        read = rw (d.amount, net) refl;
        quoted = k.expects;
        close = close_of (units n) k.expected (rw net at k.not_apart);
        not_apart = rw net at k.not_apart;
      };
    }

-- While its offramp and the time stay as they were when a link was resolved, an onramp of the same
-- business that was stored with that link, in the fiat-to-fiat flow, passes the check of the internal
-- settlement for the linked offramp, with the net amount of its quote.
pub linked-PairMatches :
    (c : Clock) (input : LinkInput) (q : LinkQuote) (w : World) (link : OfframpLink)
    (id : Option String) (user : Value) (row : OnrampRow) (n : ℕ)
    → resolve_offramp_link c input w ≡ pass link
    → input.quote ≡ some q
    → q.receive_net ≡ units n
    → row.user_id ≡ input.user_id
    → row.destination ≡ linked_destination input q link id user
    → flow_of row.quote_information ≡ "FIAT_TO_FIAT"
    → (o : OfframpRow) × (find_offramp_by_txn_ref link.offramp_id w ≡ some o)
      × (check_fiat_to_fiat_pair c row o ≡ pass (units n))
linked-PairMatches c input q w link id user row n h quoted net same stored flow =
    let r = resolve_offramp_link-LinkResolved c input w link h in
    let quote : r.quote ≡ q = eq_of_some (sym r.quoted ∙ quoted) in
    let k : LinkChecked c input q r.offramp w link = rw (sym quote) r.checked in
    let memos : text_at "memo" (record_or_empty row.destination)
        ≡ text_at "memo" (record_or_empty r.offramp.deposit_instructions) =
      rw stored (linked_memo input q link id user _ k.memo) in
    let there : find_offramp_by_txn_ref link.offramp_id w ≡ some r.offramp =
      subst (λ t. find_offramp_by_txn_ref t w ≡ some r.offramp) (sym k.reference) r.stored in
    (
      r.offramp,
      there,
      (check_fiat_to_fiat_pair_iff c row r.offramp (units n)).1 (
          matched c input q r.offramp w link row n k
            (rw stored (linked-LinkRead input q link id user)) memos net flow
            (same ∙ sym r.same_user)),
    )
