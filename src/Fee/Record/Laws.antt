-- ===== src/Fee/Record/Laws.antt =====
-- Reading the status of a settlement back after a change.
use api_bloxfi.Prelude.{String, refl, ◌≡◌, ◌&&◌, List, [], ◌∷◌, ◌++◌, inl, inr, Bool-cases, ◌==◌}
use api_bloxfi.Json.{Value, Fields, get, put, object, spread, is_truthy}
use api_bloxfi.Json.Laws.{get-put, get-put_self}
use api_bloxfi.Fee.Record.{
  SettlementPatch, settlement_status, merge_platform_fee_settlement, merged_settlement, hash_field,
}

-- The last property of an object literal wins.
get-spread_last :
    (k : String) (v : Value) (o : Fields) (xs : List (String × Value))
    → get k (spread o (object (xs ++ (k, v) ∷ []))) ≡ v
unfolding spread
get-spread_last k v o [] = get-put_self k v o
get-spread_last k v o ((j, u) ∷ xs) = get-spread_last k v (put j u o) xs

get-spread_last_of_two :
    (k : String) (v : Value) (o : Fields) (xs ys : List (String × Value))
    → get k (spread o (object (xs ++ (ys ++ (k, v) ∷ [])))) ≡ v
unfolding spread
get-spread_last_of_two k v o [] ys = get-spread_last k v o ys
get-spread_last_of_two k v o ((j, u) ∷ xs) ys = get-spread_last_of_two k v (put j u o) xs ys

get-hash_field :
    (v : Value) (o : Fields) (xs : List (String × Value))
    → get "settlement" (spread (put "settlement" v o) (object (hash_field xs))) ≡ v
unfolding spread
get-hash_field v o [] = get-put_self "settlement" v o
get-hash_field v o ((k, u) ∷ xs) = elim (Bool-cases (k == "transactionHash" && is_truthy u)) [
  | inl t ↦ rw t (simp (get-put))
  | inr n ↦ rw n (get-hash_field v o xs)
]

-- The status that a change writes is the status that is read afterwards, whatever was stored before
-- and whatever else the change says.
pub settlement_status-merge :
    (fees : Value) (patch : SettlementPatch)
    → settlement_status (merge_platform_fee_settlement fees patch) ≡ patch.status
unfolding merge_platform_fee_settlement merged_settlement spread
settlement_status-merge fees patch = rw (get-put_self, get-hash_field, get-spread_last_of_two) refl
