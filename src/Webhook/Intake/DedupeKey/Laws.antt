-- ===== src/Webhook/Intake/DedupeKey/Laws.antt =====
-- The key of a delivery that is sent again with its properties in another order.
use api_bloxfi.Prelude.{
  arith, String, Bool, true, false, ◌≡◌, ◌≢◌, refl, ap, ◌∙◌, if◌then◌else◌, ◌==◌, eq_iff,
}
use api_bloxfi.Text.{trim}
use api_bloxfi.Json.{
  Value, Fields, end, field, obj, get, record_or_empty, text_of, text_at, is_text,
}
use api_bloxfi.Json.Sorted.Laws.{
  SameValue, same_value, same_obj, same_arr, SameFields, same_end, same_field, same_swap,
  same_trans, sort_json_deep-SameValue,
}
use api_bloxfi.Webhook.Intake.DedupeKey.{
  Hashing, palremit_client_reference_from_data, palremit_stable_entity_id_from_data,
  stable_stringify, build_palremit_webhook_dedupe_key,
}

SameFields-refl : (o : Fields) → SameFields o o
SameFields-refl end = same_end
SameFields-refl (field k v o) = same_field same_value (SameFields-refl o)

-- The same to the readers of a text and of a nested object.
record Alike (v w : Value) : Type 0 where
  same_text : text_of v ≡ text_of w
  same_kind : is_text v ≡ is_text w
  same_object : SameFields (record_or_empty v) (record_or_empty w)

Alike-refl : (v : Value) → Alike v v
Alike-refl v = record {
  same_text = refl;
  same_kind = refl;
  same_object = SameFields-refl (record_or_empty v);
}

Alike-trans : {u v w : Value} → Alike u v → Alike v w → Alike u w
Alike-trans h k = record {
  same_text = h.same_text ∙ k.same_text;
  same_kind = h.same_kind ∙ k.same_kind;
  same_object = same_trans h.same_object k.same_object;
}

Alike-of_same : {v w : Value} → SameValue v w → Alike v w
Alike-of_same same_value = Alike-refl _
Alike-of_same (same_obj h) = record { same_text = refl; same_kind = refl; same_object = h }
Alike-of_same (same_arr h) = record { same_text = refl; same_kind = refl; same_object = same_end }

get-swap :
    (i k j : String) (v w : Value) (o : Fields)
    → k ≢ j
    → get i (field k v (field j w o)) ≡ get i (field j w (field k v o))
unfolding get
get-swap i k j v w o ne = ground (arith, eq_iff k i, eq_iff j i)

Alike-if :
    (b : Bool) {v w x y : Value}
    → Alike v w
    → Alike x y
    → Alike (if b then v else x) (if b then w else y)
Alike-if true h k = h
Alike-if false h k = k

get-Alike : (i : String) {o p : Fields} → SameFields o p → Alike (get i o) (get i p)
unfolding get
get-Alike i same_end = Alike-refl _
get-Alike i (same_field {k} h s) = Alike-if (k == i) (Alike-of_same h) (get-Alike i s)
get-Alike i (same_swap {k} {j} {v} {w} {o} ne) = rw (get-swap i k j v w o ne) (Alike-refl _)
get-Alike i (same_trans h k) = Alike-trans (get-Alike i h) (get-Alike i k)

text_at-SameFields : (k : String) {o p : Fields} → SameFields o p → text_at k o ≡ text_at k p
text_at-SameFields k h = ap trim (get-Alike k h).same_text

inner_text :
    (j k : String) {o p : Fields}
    → SameFields o p
    → text_at k (record_or_empty (get j o)) ≡ text_at k (record_or_empty (get j p))
inner_text j k h = text_at-SameFields k (get-Alike j h).same_object

stable_stringify-SameFields :
    (h : Hashing) {d e : Fields}
    → SameFields d e
    → stable_stringify h (obj d) ≡ stable_stringify h (obj e)
unfolding stable_stringify
stable_stringify-SameFields h s = ap h.stringify (sort_json_deep-SameValue (same_obj s))

-- Deliveries of one event whose data differ only in the order of properties, at any depth, have the same
-- key, so the later one is recognised.
pub dedupe_key-SameFields :
    (h : Hashing) (event_type : String) {d e : Fields}
    → SameFields d e
    → build_palremit_webhook_dedupe_key h event_type d
      ≡ build_palremit_webhook_dedupe_key h event_type e
unfolding build_palremit_webhook_dedupe_key palremit_client_reference_from_data
    palremit_stable_entity_id_from_data
dedupe_key-SameFields h event_type s =
    rw
      (
        text_at-SameFields "client_reference" s,
        inner_text "withdrawal" "client_reference" s,
        inner_text "account" "client_reference" s,
        text_at-SameFields "txnRef" s,
        text_at-SameFields "id" s,
        text_at-SameFields "_id" s,
        (get-Alike "id" s).same_kind,
        inner_text "deposit" "id" s,
        inner_text "withdrawal" "id" s,
        inner_text "account" "id" s,
        stable_stringify-SameFields h s,
      )
      refl
