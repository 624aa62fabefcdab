-- ===== src/Partner/Emit/Laws.antt =====
-- The audit log after a delivery to the partner.
use api_bloxfi.Prelude.{
  arith, ℕ, String, true, false, ◌≡◌, ◌≢◌, refl, sym, ap, ◌∙◌, Option, some, List, ◌∷◌, eq_refl,
  eq_of_==, ==_of_ne,
}
use api_bloxfi.Text.{is_set}
use api_bloxfi.Table.{find, modify, find-modify, find-modify_other}
use api_bloxfi.Partner.Dispatch.{
  FetchResult, DispatchResult, skipped_no_url, skipped_no_secret, delivered, failed, Posted,
  dispatch_partner_webhook,
}
use api_bloxfi.Partner.Dispatch.Laws.{posted_count, Ended, dispatch_partner_webhook-Ended}
use api_bloxfi.Partner.Emit.{
  PartnerWebhookEnvelope, pending, OutboundLog, OutboundStore, outcome_of, attempts_of, has_id,
  pending_row, finalized, create_webhook_outbound_log, finalize, persist_and_dispatch,
}

-- The attempts of a result are the requests that were made.
attempts_count :
    (fetch : ℕ → FetchResult) (url secret : Option String) (r : DispatchResult)
    (posts : List Posted)
    → Ended fetch url secret r posts
    → attempts_of r ≡ posted_count posts
unfolding posted_count
attempts_count fetch url secret skipped_no_url posts (u, none_made) =
    sym (ap posted_count none_made)
attempts_count fetch url secret skipped_no_secret posts (u, s, none_made) =
    sym (ap posted_count none_made)
attempts_count fetch url secret (delivered k st) posts (u, s, (at, ok, count, le, before)) =
    omega arith
attempts_count fetch url secret (failed k st er) posts (u, s, (all, count, before)) =
    all ∙ sym count

ended_of : (r : DispatchResult) → outcome_of r ≢ pending
ended_of skipped_no_url e = cc
ended_of skipped_no_secret e = cc
ended_of (delivered k st) e = cc
ended_of (failed k st er) e = cc

-- The row of a delivery in the log, and every other one.
pub record Logged (store : OutboundStore) (envelope : PartnerWebhookEnvelope)
    (run : List Posted × List OutboundLog) (rows : List OutboundLog) : Type 0 where
  pub row : OutboundLog
  pub stored : find (has_id store.new_id) run.1 ≡ some row
  pub about : row.event_id ≡ envelope.event_id
  pub ended : row.outcome ≢ pending
  pub counted : row.attempts ≡ posted_count run.0
  pub others : (id : String) → store.new_id ≢ id → find (has_id id) run.1 ≡ find (has_id id) rows

log_written :
    (store : OutboundStore) (envelope : PartnerWebhookEnvelope) (url : Option String)
    (r : DispatchResult) (rows : List OutboundLog)
    → store.create_throws ≡ false
    → store.update_throws ≡ false
    → is_set store.new_id ≡ true
    → finalize store
        (create_webhook_outbound_log store envelope url rows).0
        r
        url
        (create_webhook_outbound_log store envelope url rows).1
      ≡ modify (has_id store.new_id) (finalized store r url) (pending_row store envelope url ∷ rows)
unfolding create_webhook_outbound_log finalize
log_written store envelope url r rows c u i = rw (c, u, i) refl

new_row_found :
    (row : OutboundLog) (rows : List OutboundLog) → find (has_id row.id) (row ∷ rows) ≡ some row
unfolding find
new_row_found row rows = rw (eq_refl row.id) refl

other_row :
    (row : OutboundLog) (rows : List OutboundLog) (id : String)
    → row.id ≢ id
    → find (has_id id) (row ∷ rows) ≡ find (has_id id) rows
unfolding find
other_row row rows id ne = rw (==_of_ne row.id id ne) refl

table_Logged :
    (store : OutboundStore) (envelope : PartnerWebhookEnvelope) (url : Option String)
    (r : DispatchResult) (posts : List Posted) (rows table : List OutboundLog)
    → table
      ≡ modify (has_id store.new_id) (finalized store r url) (pending_row store envelope url ∷ rows)
    → attempts_of r ≡ posted_count posts
    → Logged store envelope (posts, table) rows
table_Logged store envelope url r posts rows table e n =
    let fresh = pending_row store envelope url in
    record {
      row = finalized store r url fresh;
      stored =
          e' (find (has_id store.new_id))
          ∙ find-modify (has_id store.new_id) (finalized store r url) (fresh ∷ rows) (λ x. refl)
              (new_row_found fresh rows);
      about = refl;
      ended = ended_of r;
      counted = n;
      others = λ id ne.
          e' (find (has_id id))
          ∙ (find-modify_other (has_id id) (has_id store.new_id) (finalized store r url)
                (fresh ∷ rows) (λ x h. ==_of_ne x.id id (rw (eq_of_== x.id store.new_id h) ne))
                (λ x. refl)
              ∙ other_row fresh rows id ne);
    }
  where
    e' :
        (f : List OutboundLog → Option OutboundLog)
        → f table
          ≡ f (
              modify
                (has_id store.new_id)
                (finalized store r url)
                (pending_row store envelope url ∷ rows))
    e' f = ap f e

-- Where both writes of the log succeed and the new row has an id, the row of a delivery does not stay
-- `pending`, its number of attempts is the number of requests that were made, and the other rows of the
-- log stay as they were.
pub persist_and_dispatch-Logged :
    (store : OutboundStore) (sign : String → String → String) (fetch : ℕ → FetchResult)
    (url secret : Option String) (envelope : PartnerWebhookEnvelope) (rows : List OutboundLog)
    → store.create_throws ≡ false
    → store.update_throws ≡ false
    → is_set store.new_id ≡ true
    → Logged store envelope (persist_and_dispatch store sign fetch url secret envelope rows) rows
unfolding persist_and_dispatch
persist_and_dispatch-Logged store sign fetch url secret envelope rows c u i =
    let sent = dispatch_partner_webhook sign fetch url secret (store.stringify envelope) in
    table_Logged store envelope url sent.0 sent.1 rows _
      (log_written store envelope url sent.0 rows c u i)
      (attempts_count fetch url secret sent.0 sent.1
        (dispatch_partner_webhook-Ended sign fetch url secret (store.stringify envelope)))
