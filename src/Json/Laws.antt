-- ===== src/Json/Laws.antt =====
-- Reading after writing, in objects.
use api_bloxfi.Prelude.{
  String, ◌≡◌, ◌∙◌, refl, if◌then◌else◌, ◌==◌, arith, eq_iff, eq_refl, false, ◌≢◌, ==_of_ne,
}
use api_bloxfi.Json.{Value, Fields, end, field, get, put, spread}

pub get-put :
    (k j : String) (v : Value) (o : Fields) → get j (put k v o) ≡ (if k == j then v else get j o)
unfolding get put
get-put k j v end = refl
get-put k j v (field i w o) = ground (arith, eq_iff k j, eq_iff i k, eq_iff i j, get-put k j v o)

pub get-put_self : (k : String) (v : Value) (o : Fields) → get k (put k v o) ≡ v
get-put_self k v o = simp (get-put, eq_refl)

pub get-put_ne : (k j : String) (v : Value) (o : Fields) → k ≢ j → get j (put k v o) ≡ get j o
get-put_ne k j v o h = rw (get-put k j v o, ==_of_ne k j h)

-- A property is absent from an object literal.
abbrev pub IsAbsent : String → Fields → Type 0
IsAbsent k end = Unit
IsAbsent k (field j v o) = ((j == k) ≡ false) × IsAbsent k o

-- What the second object lacks is read from the first.
pub get-spread_absent : (k : String) (o p : Fields) → IsAbsent k p → get k (spread o p) ≡ get k o
unfolding spread
get-spread_absent k o end h = refl
get-spread_absent k o (field j v p) h =
    get-spread_absent k (put j v o) p h.1 ∙ rw (get-put j k v o, h.0)

pub get-spread_one : (k : String) (v : Value) (o : Fields) → get k (spread o (field k v end)) ≡ v
unfolding spread
get-spread_one k v o = get-put_self k v o

-- A property that is written last is read, after all that stood before it.
pub get-spread-put :
    (k : String) (v : Value) (o p : Fields) → IsAbsent k p → get k (spread o (put k v p)) ≡ v
unfolding spread put
get-spread-put k v o end h = get-put_self k v o
get-spread-put k v o (field j w p) h = rw h.0 (get-spread-put k v (put j w o) p h.1)
