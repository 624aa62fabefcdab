-- ===== src/Json/Sorted.antt =====
-- utils/stableJson.ts: objects with their keys in order, at every depth. Keys are compared by the code
-- points of their characters. The text of a value (`JSON.stringify`) is not modelled here.
pub mod Laws
use Prim.Native.Char.{code}
use Prim.Native.String.{String, [], ◌∷◌}
use mathlib.Core.Bool.{Bool, true, false, ◌&&◌, ◌||◌}
use api_bloxfi.Prelude.{ltb, nat_eq, if◌then◌else◌}
use api_bloxfi.Json.{
  Value, undefined, null, bool, num, str, arr, obj, Fields, end, field, Items, nil, cons,
}

unfoldable pub before : String → String → Bool
before [] [] = false
before [] (d ∷ t) = true
before (c ∷ s) [] = false
before (c ∷ s) (d ∷ t) = ltb (code c) (code d) || (nat_eq (code c) (code d) && before s t)

-- A property at its place among sorted ones.
unfoldable pub insert_field : String → Value → Fields → Fields
insert_field k v end = field k v end
insert_field k v (field j w o) =
    let rest = insert_field k v o in if before j k then field j w rest else field k v (field j w o)

unfoldable mutual
  pub sort_json_deep : Value → Value
  sort_json_deep undefined = undefined
  sort_json_deep null = null
  sort_json_deep (bool b) = bool b
  sort_json_deep (num n) = num n
  sort_json_deep (str s) = str s
  sort_json_deep (arr xs) = arr (sort_items xs)
  sort_json_deep (obj o) = obj (sort_fields o)

  pub sort_fields : Fields → Fields
  sort_fields end = end
  sort_fields (field k v o) = insert_field k (sort_json_deep v) (sort_fields o)

  pub sort_items : Items → Items
  sort_items nil = nil
  sort_items (cons v xs) = cons (sort_json_deep v) (sort_items xs)
