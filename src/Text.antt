-- ===== src/Text.antt =====
-- The string operations of the language that the source calls: `trim`, `toUpperCase`, `toLowerCase`,
-- `startsWith`, `endsWith` and `||` with the empty string. Case is changed for ASCII letters only.
pub mod Laws
use Prim.Native.Nat.{ℕ, zero, suc, ◌-◌}
use Prim.Native.Char.{Char, code}
use Prim.Native.String.{String, [], ◌∷◌}
use mathlib.Core.Bool.{Bool, true, false, ◌&&◌, ◌||◌}
use api_bloxfi.Prelude.{if◌then◌else◌, leb, nat_eq, ◌==◌, ◌≡◌, refl}

-- The white space and line ends of ECMAScript.
is_space : ℕ → Bool
is_space c =
    (leb 9 c && leb c 13)
    || nat_eq c 32
    || nat_eq c 160
    || nat_eq c 5760
    || (leb 8192 c && leb c 8202)
    || nat_eq c 8232
    || nat_eq c 8233
    || nat_eq c 8239
    || nat_eq c 8287
    || nat_eq c 12288
    || nat_eq c 65279

trim_start : String → String
trim_start [] = ""
trim_start (c ∷ s) = if is_space (code c) then trim_start s else c ∷ s

trim_end : String → String
trim_end [] = ""
trim_end (c ∷ s) =
    let rest = trim_end s in if is_space (code c) && (rest == "") then "" else c ∷ rest

unfoldable pub trim : String → String
unfolding trim_start trim_end is_space
trim s = trim_end (trim_start s)

nth_char : ℕ → String → Char → Char
nth_char n [] d = d
nth_char zero (c ∷ s) d = c
nth_char (suc n) (c ∷ s) d = nth_char n s d

map_chars : (Char → Char) → String → String
map_chars f [] = ""
map_chars f (c ∷ s) = f c ∷ map_chars f s

upper_char : Char → Char
upper_char c =
    if leb b'a' (code c) && leb (code c) b'z'
    then nth_char (code c - b'a') "ABCDEFGHIJKLMNOPQRSTUVWXYZ" c
    else c

lower_char : Char → Char
lower_char c =
    if leb b'A' (code c) && leb (code c) b'Z'
    then nth_char (code c - b'A') "abcdefghijklmnopqrstuvwxyz" c
    else c

unfoldable pub to_upper : String → String
unfolding map_chars upper_char nth_char
to_upper s = map_chars upper_char s

unfoldable pub to_lower : String → String
unfolding map_chars lower_char nth_char
to_lower s = map_chars lower_char s

unfoldable pub starts_with : String → String → Bool
starts_with s [] = true
starts_with [] (c ∷ p) = false
starts_with (d ∷ s) (c ∷ p) = nat_eq (code d) (code c) && starts_with s p

is_code_char : ℕ → Bool
is_code_char c =
    (leb b'A' c && leb c b'Z') || ((leb b'a' c && leb c b'z') || (leb b'0' c && leb c b'9'))

-- `^[A-Za-z0-9]{0,n}$`
unfoldable pub code_run : ℕ → String → Bool
unfolding is_code_char
code_run n [] = true
code_run zero (c ∷ s) = false
code_run (suc n) (c ∷ s) = is_code_char (code c) && code_run n s

-- The text without the suffix, if it ends in it.
unfoldable pub without_suffix : String → String → String
without_suffix [] p = ""
without_suffix (c ∷ s) p = if (c ∷ s) == p then "" else c ∷ without_suffix s p

unfoldable pub ends_with : String → String → Bool
ends_with [] p = "" == p
ends_with (c ∷ s) p = ((c ∷ s) == p) || ends_with s p

-- `s || t` on strings.
abbrev pub or_else : String → String → String
or_else s t = if s == "" then t else s

-- A string as a condition.
abbrev pub is_set : String → Bool
is_set s = if s == "" then false else true

trim_runs : trim " \t OFF-1 x " ≡ "OFF-1 x"
unfolding trim
trim_runs = refl

to_upper_runs : to_upper "usdt-é" ≡ "USDT-é"
unfolding to_upper
to_upper_runs = refl

to_lower_runs : to_lower "Credited" ≡ "credited"
unfolding to_lower
to_lower_runs = refl
