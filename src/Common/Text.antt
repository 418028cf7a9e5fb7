-- ===== src/Common/Text.antt =====
-- Text, walked by code point: lower case, `includes`, `startsWith`, `trim`, `split`.
use Prim.Native.Nat.{ℕ, zero, suc, ◌+◌, ◌-◌, ◌/◌, ◌%◌}
use Prim.Native.Char.{Char, code}
use Prim.Native.String
use Prim.Native.String.{String}
use mathlib.Core.Bool.{Bool, true, false, ◌&&◌, ◌||◌}
use mathlib.Core.List.{List, [], ◌∷◌, ◌++◌}
use mathlib.Core.Option.{Option, none, some}
use text.Mathlib.Text.{◌==◌}
use leitstand.Common.Lists.{all, length}
use leitstand.Common.Booleans.{leb, ltb, nat_eq, if◌then◌else◌}

-- `String` has its own `[]` and `∷`.
abbrev pub codes : String → List ℕ
codes String.[] = []
codes (String.◌∷◌ c s) = code c ∷ codes s

-- `s.toLowerCase()`, as far as text in ASCII is compared with it: the only characters outside
-- ASCII whose lower case holds an ASCII letter are U+0130 and U+212A; others stay as they are.
lower_code : ℕ → List ℕ
lower_code c =
    if leb b'A' c && leb c b'Z'
    then (c + 32) ∷ []
    else if nat_eq c 0x130
    then b'i' ∷ 0x307 ∷ []
    else if nat_eq c 0x212a
    then b'k' ∷ []
    else c ∷ []

unfoldable pub lower : List ℕ → List ℕ
unfolding lower_code
lower [] = []
lower (c ∷ s) = lower_code c ++ lower s

-- `s === t`
unfoldable pub same : List ℕ → List ℕ → Bool
same [] [] = true
same (c ∷ s) (d ∷ t) = nat_eq c d && same s t
same _ _ = false

-- `s.startsWith(t)`
unfoldable pub begins : List ℕ → List ℕ → Bool
begins s [] = true
begins [] (d ∷ t) = false
begins (c ∷ s) (d ∷ t) = nat_eq c d && begins s t

-- `s.includes(t)`
unfoldable pub includes : List ℕ → List ℕ → Bool
unfolding begins
includes [] t = begins [] t
includes (c ∷ s) t = begins (c ∷ s) t || includes s t

-- The white space and line ends that `trim` removes.
abbrev pub is_space : ℕ → Bool
is_space c =
    (leb 9 c && leb c 13)
    || nat_eq c 32
    || nat_eq c 0xa0
    || nat_eq c 0x1680
    || (leb 0x2000 c && leb c 0x200a)
    || nat_eq c 0x2028
    || nat_eq c 0x2029
    || nat_eq c 0x202f
    || nat_eq c 0x205f
    || nat_eq c 0x3000
    || nat_eq c 0xfeff

-- `String(n)`, for a whole number that is not negative.
digit : ℕ → String
digit d =
    if nat_eq d 0
    then "0"
    else if nat_eq d 1
    then "1"
    else if nat_eq d 2
    then "2"
    else if nat_eq d 3
    then "3"
    else if nat_eq d 4
    then "4"
    else if nat_eq d 5
    then "5"
    else if nat_eq d 6
    then "6"
    else if nat_eq d 7
    then "7"
    else if nat_eq d 8
    then "8"
    else "9"

-- A number has fewer digits than its successor counts, so that much fuel is enough.
print_from : ℕ → ℕ → String
print_from zero n = digit n
print_from (suc fuel) n =
    let rest = String.◌++◌ (print_from fuel (n / 10)) (digit (n % 10)) in
    if ltb n 10 then digit n else rest

unfoldable pub print : ℕ → String
unfolding print_from digit
print n = print_from n n

-- `s.trim()`
unfoldable pub trim_start : String → String
trim_start String.[] = ""
trim_start (String.◌∷◌ c s) =
    let rest = trim_start s in if is_space (code c) then rest else String.◌∷◌ c s

unfoldable pub trim_end : String → String
trim_end String.[] = ""
trim_end (String.◌∷◌ c s) =
    let rest = trim_end s in if is_space (code c) && rest == "" then "" else String.◌∷◌ c rest

unfoldable pub trim : String → String
unfolding trim_start trim_end
trim s = trim_end (trim_start s)

-- `s.startsWith(prefix)`
unfoldable pub starts : String → String → Bool
unfolding begins
starts s prefix = begins (codes s) (codes prefix)

-- `s.slice(n)`
unfoldable pub skip : ℕ → String → String
skip zero s = s
skip (suc n) String.[] = ""
skip (suc n) (String.◌∷◌ c s) = skip n s

-- `s.slice(0, n)`
unfoldable pub begin : ℕ → String → String
begin zero s = ""
begin (suc n) String.[] = ""
begin (suc n) (String.◌∷◌ c s) = String.◌∷◌ c (begin n s)

-- `s.split(separator)` for a separator of one character, given by its code: `first` is the piece
-- that a character is put in front of.
abbrev onto_first : Char → List String → List String
onto_first c [] = String.◌∷◌ c "" ∷ []
onto_first c (piece ∷ pieces) = String.◌∷◌ c piece ∷ pieces

unfoldable pub split : ℕ → String → List String
split separator String.[] = "" ∷ []
split separator (String.◌∷◌ c s) =
    if nat_eq (code c) separator then "" ∷ split separator s else onto_first c (split separator s)

-- What stands before the first space and after it: `s.slice(0, i)` and `s.slice(i + 1)` for
-- `i = s.indexOf(' ')`; `none` if there is no space.
unfoldable pub cut_at_space : String → Option (String × String)
cut_at_space String.[] = none
cut_at_space (String.◌∷◌ c s) =
    if nat_eq (code c) b' ' then some ("", s) else elim (cut_at_space s) [
      | none ↦ none
      | some (before, after) ↦ some (String.◌∷◌ c before, after)
    ]

-- `/^[0-9a-f]{n}$/`
abbrev pub is_hex_digit : ℕ → Bool
is_hex_digit c = (leb b'0' c && leb c b'9') || (leb b'a' c && leb c b'f')

unfoldable pub is_hex : ℕ → String → Bool
is_hex n s = nat_eq (length (codes s)) n && all is_hex_digit (codes s)

-- `a < b` on strings: by the units of UTF-16, of which a code point above 0xffff has two.
abbrev pub units : List ℕ → List ℕ
units [] = []
units (c ∷ s) =
    if ltb c 0x10000
    then c ∷ units s
    else (0xd800 + (c - 0x10000) / 0x400) ∷ (0xdc00 + (c - 0x10000) % 0x400) ∷ units s

abbrev pub before_units : List ℕ → List ℕ → Bool
before_units _ [] = false
before_units [] (d ∷ t) = true
before_units (c ∷ s) (d ∷ t) = ltb c d || (nat_eq c d && before_units s t)

unfoldable pub text_before : String → String → Bool
text_before s t = before_units (units (codes s)) (units (codes t))

-- `s.endsWith(suffix)`
unfoldable pub ends_codes : List ℕ → List ℕ → Bool
unfolding same
ends_codes [] t = same [] t
ends_codes (c ∷ s) t = same (c ∷ s) t || ends_codes s t

unfoldable pub ends : String → String → Bool
unfolding ends_codes
ends s suffix = ends_codes (codes s) (codes suffix)
