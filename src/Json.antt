-- ===== src/Json.antt =====
-- Values of the dynamic language, as JSON columns and webhook payloads hold them, with the casts and
-- guards that the source writes before it reads a property.
pub mod Laws
pub mod Sorted
use Prim.Native.Nat.{zero}
use api_bloxfi.Prelude.{
  String, Bool, true, false, Option, none, some, List, [], ◌∷◌, if◌then◌else◌, ◌==◌,
}
use api_bloxfi.Text.{trim}
use api_bloxfi.Numeric.{Number, units, not_finite, parse_number}

mutual
  pub data Value : Type 0 where
    undefined null : Value
    bool : Bool → Value
    num : Number → Value
    str : String → Value
    arr : Items → Value
    obj : Fields → Value

  pub data Fields : Type 0 where
    end : Fields
    field : (key : String) (v : Value) (rest : Fields) → Fields

  pub data Items : Type 0 where
    nil : Items
    cons : (v : Value) (rest : Items) → Items

-- `o.k`; a missing property reads as `undefined`.
unfoldable pub get : String → Fields → Value
get k end = undefined
get k (field j v o) = if j == k then v else get k o

-- `{ ...o, k: v }`
unfoldable pub put : String → Value → Fields → Fields
put k v end = field k v end
put k v (field j w o) = if j == k then field j v o else field j w (put k v o)

-- `{ ...o, ...p }`
unfoldable pub spread : Fields → Fields → Fields
spread o end = o
spread o (field k v p) = spread (put k v o) p

-- An object literal.
abbrev pub object : List (String × Value) → Fields
object [] = end
object ((k, v) ∷ r) = field k v (object r)

-- `v != null && typeof v === 'object' && !Array.isArray(v)`
abbrev pub as_record : Value → Option Fields
as_record (obj o) = some o
as_record _ = none

-- The same test with `{}` otherwise; also what `...v` spreads for a column of an object or null.
abbrev pub record_or_empty : Value → Fields
record_or_empty (obj o) = o
record_or_empty _ = end

-- `typeof v === 'string' ? v : ''`
abbrev pub text_of : Value → String
text_of (str s) = s
text_of _ = ""

-- `typeof o.k === 'string' ? o.k.trim() : ''`
abbrev pub text_at : String → Fields → String
text_at k o = trim (text_of (get k o))

abbrev pub is_text : Value → Bool
is_text (str s) = true
is_text _ = false

abbrev pub is_true : Value → Bool
is_true (bool b) = b
is_true _ = false

-- `v == null`
abbrev pub is_nullish : Value → Bool
is_nullish undefined = true
is_nullish null = true
is_nullish _ = false

-- `(v as { k?: … }).k`, which throws on null and undefined.
abbrev pub member : String → Value → Option Value
member k undefined = none
member k null = none
member k (obj o) = some (get k o)
member k _ = some undefined

-- `v ?? ''` where the code goes on to call a string method, which throws on other values.
abbrev pub text_or_empty : Value → Option String
text_or_empty undefined = some ""
text_or_empty null = some ""
text_or_empty (str s) = some s
text_or_empty _ = none

-- `Number(v)`; arrays and objects read as NaN.
abbrev pub to_number : Value → Number
to_number undefined = not_finite
to_number null = units 0
to_number (bool true) = units 100000000
to_number (bool false) = units 0
to_number (num n) = n
to_number (str s) = parse_number s
to_number _ = not_finite

-- `s || undefined`
abbrev pub text_or_undefined : String → Value
text_or_undefined s = if s == "" then undefined else str s

-- `v ?? d`
abbrev pub or_default : Value → Value → Value
or_default d v = if is_nullish v then d else v

-- A value as a condition.
abbrev pub is_truthy : Value → Bool
is_truthy undefined = false
is_truthy null = false
is_truthy (bool b) = b
is_truthy (num (units zero)) = false
is_truthy (num not_finite) = false
is_truthy (str s) = if s == "" then false else true
is_truthy _ = true

-- A value that the database takes as a text, or a default for a missing one; other values throw.
abbrev pub text_or : String → Value → Option String
text_or d undefined = some d
text_or d null = some d
text_or d (str s) = some s
text_or d _ = none

abbrev pub texts : Items → List String
texts nil = []
texts (cons (str s) r) = s ∷ texts r
texts (cons v r) = texts r
