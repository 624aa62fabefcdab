-- ===== src/Text/Laws.antt =====
-- Trimming a text twice.
use Prim.Native.Char.{code}
use Prim.Native.String.{String, [], ◌∷◌}
use mathlib.Core.Bool.{false, ◌&&◌}
use api_bloxfi.Prelude.{◌≡◌, refl, Bool-cases, inl, inr, ◌==◌, false}
use api_bloxfi.Text.{is_space, trim_start, trim_end, trim}

trim_end_twice : (s : String) → trim_end (trim_end s) ≡ trim_end s
unfolding trim_end
trim_end_twice [] = refl
trim_end_twice (c ∷ s) = elim (Bool-cases (is_space (code c) && (trim_end s == ""))) [
  | inl t ↦ rw (t) refl
  | inr n ↦ rw (n) (rw (trim_end_twice s, n) refl)
]

-- Nothing is cut from the start of a text that begins with no white space.
trim_start-trim_end :
    (c : _) (s : String)
    → is_space (code c) ≡ false
    → trim_start (trim_end (c ∷ s)) ≡ trim_end (c ∷ s)
unfolding trim_start trim_end
trim_start-trim_end c s h = rw (h, h) refl

start_then_end : (s : String) → trim_start (trim_end (trim_start s)) ≡ trim_end (trim_start s)
unfolding trim_start trim_end
start_then_end [] = refl
start_then_end (c ∷ s) = elim (Bool-cases (is_space (code c))) [
  | inl t ↦ rw (t) (start_then_end s)
  | inr n ↦ rw (n) (trim_start-trim_end c s n)
]

pub trim_twice : (s : String) → trim (trim s) ≡ trim s
unfolding trim
trim_twice s = rw (start_then_end s) (trim_end_twice (trim_start s))

pub trim_nothing : trim "" ≡ ""
unfolding trim trim_start trim_end
trim_nothing = refl
