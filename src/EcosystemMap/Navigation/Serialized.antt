-- ===== src/EcosystemMap/Navigation/Serialized.antt =====
-- The text that is put into the page cannot end the element that it stands in.
use Prim.Native.Char.{code}
use text.Mathlib.TextLemmas.{nil-append, cons-append}
use leitstand.Common.{ℕ, ◌≢◌, inl, inr, String, ◌<>◌, List, nat_eq, All, arith, Bool-cases}
use leitstand.Common.Text.{codes}
use leitstand.Host.{Host}
use leitstand.EcosystemMap.Navigation.{NodeNavigation}
use leitstand.EcosystemMap.Navigation.Serialization.{
  replace_all, escape, stringify, serialize_ecosystem_map_navigation,
}

-- The text does not have the character.
abbrev pub Lacks : ℕ → String → Type 0
Lacks c s = All (λ d. d ≢ c) (codes s)

Lacks-append : (c : ℕ) (s t : String) → Lacks c s → Lacks c t → Lacks c (s <> t)
Lacks-append c String.[] t h k = rw (nil-append t) k
Lacks-append c (String.◌∷◌ d s) t (p, h) k = rw (cons-append d s t) (p, Lacks-append c s t h k)

-- What is replaced is gone, if the replacement does not bring it back.
replace_all-Lacks : (c : ℕ) (r s : String) → Lacks c r → Lacks c (replace_all c r s)
unfolding replace_all
replace_all-Lacks c r String.[] h = tt
replace_all-Lacks c r (String.◌∷◌ d s) h = elim (Bool-cases (nat_eq (code d) c)) [
  | inl e ↦ rw (e, replace_all) (Lacks-append c r _ h (replace_all-Lacks c r s h))
  | inr e ↦ rw (e, replace_all) ((λ same. ground arith), replace_all-Lacks c r s h)
]

-- Another character that was not there is not there afterwards.
replace_all-keeps_Lacks :
    (b c : ℕ) (r s : String) → Lacks b r → Lacks b s → Lacks b (replace_all c r s)
unfolding replace_all
replace_all-keeps_Lacks b c r String.[] h k = tt
replace_all-keeps_Lacks b c r (String.◌∷◌ d s) h (p, k) = elim (Bool-cases (nat_eq (code d) c)) [
  | inl e ↦ rw (e, replace_all) (Lacks-append b r _ h (replace_all-keeps_Lacks b c r s h k))
  | inr e ↦ rw (e, replace_all) (p, replace_all-keeps_Lacks b c r s h k)
]

-- None of `<`, `>`, `&` and the two line separators of Unicode.
pub record IsInert (s : String) : Type 0 where
  pub no_less : Lacks b'<' s
  pub no_greater : Lacks b'>' s
  pub no_ampersand : Lacks b'&' s
  pub no_line_separator : Lacks 0x2028 s
  pub no_paragraph_separator : Lacks 0x2029 s

-- Each step removes its character and brings none of the others back.
escape-IsInert : (json : String) → IsInert (escape json)
unfolding escape
escape-IsInert json =
    let a = replace_all b'<' "\\u003c" json in
    let b = replace_all b'>' "\\u003e" a in
    let c = replace_all b'&' "\\u0026" b in
    let d = replace_all 0x2028 "\\u2028" c in
    record {
      no_less = replace_all-keeps_Lacks b'<' 0x2029 "\\u2029" d (ground arith) (
          replace_all-keeps_Lacks b'<' 0x2028 "\\u2028" c (ground arith) (
            replace_all-keeps_Lacks b'<' b'&' "\\u0026" b (ground arith) (
              replace_all-keeps_Lacks b'<' b'>' "\\u003e" a (ground arith)
                (replace_all-Lacks b'<' "\\u003c" json (ground arith)))));
      no_greater = replace_all-keeps_Lacks b'>' 0x2029 "\\u2029" d (ground arith) (
          replace_all-keeps_Lacks b'>' 0x2028 "\\u2028" c (ground arith) (
            replace_all-keeps_Lacks b'>' b'&' "\\u0026" b (ground arith)
              (replace_all-Lacks b'>' "\\u003e" a (ground arith))));
      no_ampersand = replace_all-keeps_Lacks b'&' 0x2029 "\\u2029" d (ground arith) (
          replace_all-keeps_Lacks b'&' 0x2028 "\\u2028" c (ground arith)
            (replace_all-Lacks b'&' "\\u0026" b (ground arith)));
      no_line_separator =
          replace_all-keeps_Lacks 0x2028 0x2029 "\\u2029" d (ground arith)
            (replace_all-Lacks 0x2028 "\\u2028" c (ground arith));
      no_paragraph_separator = replace_all-Lacks 0x2029 "\\u2029" d (ground arith);
    }

-- Whatever the navigation holds, its text has none of `<`, `>`, `&`, U+2028 and U+2029, so that it can
-- neither end a `script` element nor a line of it.
pub serialize_ecosystem_map_navigation-IsInert :
    (H : Host) (navigation : List NodeNavigation)
    → IsInert (serialize_ecosystem_map_navigation H navigation)
unfolding serialize_ecosystem_map_navigation
serialize_ecosystem_map_navigation-IsInert H navigation = escape-IsInert (stringify H navigation)
