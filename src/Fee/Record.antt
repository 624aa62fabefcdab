-- ===== src/Fee/Record.antt =====
-- The settlement record in the `fees` column (core/ramps/settleRampPlatformFee.ts): reading it and
-- merging a change into it.
pub mod Laws
use api_bloxfi.Prelude.{
  String, Bool, true, false, ◌&&◌, ◌||◌, List, [], ◌∷◌, ◌++◌, if◌then◌else◌, ◌==◌,
}
use api_bloxfi.Json.{
  Value, str, arr, obj, Items, nil, cons, Fields, get, put, object, spread, record_or_empty,
  text_of, texts, is_truthy, is_nullish,
}

-- A change of the settlement: its status, its notes and its other properties.
pub record SettlementPatch : Type 0 where
  pub status : String
  pub notes : List String
  pub others : List (String × Value)

abbrev pub platform_fee_of : Value → Fields
platform_fee_of fees = record_or_empty (get "platformFee" (record_or_empty fees))

abbrev pub settlement_of : Value → Fields
settlement_of fees = record_or_empty (get "settlement" (platform_fee_of fees))

-- `fees?.platformFee?.settlement?.status`, empty where it is missing.
abbrev pub settlement_status : Value → String
settlement_status fees = text_of (get "status" (settlement_of fees))

abbrev default_platform_fee : Fields
default_platform_fee = object (
    ("type", str "PERCENTAGE")
    ∷ ("value", str "0")
    ∷ ("amount", str "0")
    ∷ ("currency", str "USDC")
    ∷ ("walletAddress", str "")
    ∷ [])

abbrev platform_fee_or_default : Value → Fields
platform_fee_or_default v = if is_nullish v then default_platform_fee else record_or_empty v

abbrev notes_of : Value → List String
notes_of (arr items) = texts items
notes_of _ = []

-- `.filter(Boolean)`
abbrev nonempty : List String → List String
nonempty [] = []
nonempty (s ∷ r) = if s == "" then nonempty r else s ∷ nonempty r

abbrev note_items : List String → Items
note_items [] = nil
note_items (s ∷ r) = cons (str s) (note_items r)

abbrev pub is_retry : String → String → Bool
is_retry before after = before == "failed" && (after == "processing" || (after == "pending"))

abbrev notes_field : Bool → List String → List (String × Value)
notes_field reset (s ∷ r) = ("notes", arr (note_items (s ∷ r))) ∷ []
notes_field true [] = ("notes", arr nil) ∷ []
notes_field false [] = []

unfoldable pub merged_settlement : Fields → SettlementPatch → Fields
merged_settlement prev patch =
    let reset = is_retry (text_of (get "status" prev)) patch.status in
    let notes =
      if reset
      then nonempty patch.notes
      else nonempty (notes_of (get "notes" prev) ++ patch.notes) in
    spread prev
      (object (patch.others ++ (notes_field reset notes ++ ("status", str patch.status) ∷ [])))

abbrev hash_field : List (String × Value) → List (String × Value)
hash_field [] = []
hash_field ((k, v) ∷ r) =
    if k == "transactionHash" && is_truthy v then ("transactionHash", v) ∷ [] else hash_field r

unfoldable pub merge_platform_fee_settlement : Value → SettlementPatch → Value
unfolding merged_settlement
merge_platform_fee_settlement fees patch =
    let base = record_or_empty fees in
    let pf = platform_fee_or_default (get "platformFee" base) in
    let settlement = merged_settlement (record_or_empty (get "settlement" pf)) patch in
    obj (
      put "platformFee"
        (obj (spread pf (object (("settlement", obj settlement) ∷ hash_field patch.others)))) base)

abbrev pub terminal_settlement_status : String → Bool
terminal_settlement_status s =
    s == "processing" || (s == "completed" || (s == "skipped" || (s == "failed")))
