-- ===== src/StorageHealth/Series/Laws.antt =====
-- A series that passes its test is strictly increasing.
use leitstand.Common.{
  ◌≡◌, refl, true, String, Option, none, some, List, [], ◌∷◌, ok, require, require-true, >>=-eq-ok,
  All, All-mono, Pointwise, arith,
}
use leitstand.Common.Text.{text_before}
use leitstand.Common.TextOrder.{text_before_trans}
use leitstand.Json.{Json, null, boolean, number, string, array, object, get}
use leitstand.StorageHealth.Values.{object_value, string_value}
use leitstand.StorageHealth.Series.{is_after, key_of, assert_from, assert_increasing}

object_value-ok :
    (raw item : Json) (label : String) → object_value (some raw) label ≡ ok item → raw ≡ item
unfolding object_value
object_value-ok (object ms) item label h = ground arith
object_value-ok null item label h = cc
object_value-ok (boolean b) item label h = cc
object_value-ok (number n) item label h = cc
object_value-ok (string s) item label h = cc
object_value-ok (array vs) item label h = cc

string_value-ok :
    (v : Option Json) (label s : String) → string_value v label ≡ ok s → v ≡ some (string s)
unfolding string_value
string_value-ok (some (string t)) label s h = ground arith
string_value-ok none label s h = cc
string_value-ok (some null) label s h = cc
string_value-ok (some (boolean b)) label s h = cc
string_value-ok (some (number n)) label s h = cc
string_value-ok (some (array vs)) label s h = cc
string_value-ok (some (object ms)) label s h = cc

key_of-ok :
    (key label : String) (raw : Json) (s : String)
    → key_of key label raw ≡ ok s
    → get key raw ≡ some (string s)
key_of-ok key label raw s h =
    let (item, there, h') = >>=-eq-ok (object_value (some raw) label) _ h in
    rw (object_value-ok raw item label there) (string_value-ok (get key item) _ s h')

-- Each key stands strictly before all later ones, in the order of the language's `<`.
abbrev pub Ascending : List String → Type 0
Ascending [] = Unit
Ascending (s ∷ ss) = All (λ t. text_before s t ≡ true) ss × Ascending ss

abbrev HasKey : String → Json → String → Type 0
HasKey key raw s = get key raw ≡ some (string s)

-- The keys of the rest, all of them after the previous one.
assert_from-ok :
    (previous : Option String) (vs : List Json) (key label : String)
    → assert_from previous vs key label ≡ ok tt
    → (ss : List String) × Pointwise (HasKey key) vs ss
      × Ascending ss
      × All (λ s. is_after previous s ≡ true) ss
assert_from-ok previous [] key label h = ([], tt, tt, tt)
assert_from-ok previous (v ∷ vs) key label h =
    let (s, read, h1) = >>=-eq-ok (key_of key label v) _ h in
    let (_, after, h2) = >>=-eq-ok (require (is_after previous s) _) _ h1 in
    let (ss, keys, up, later) = assert_from-ok (some s) vs key label h2 in
    let first = require-true (is_after previous s) _ after in
    (
      s ∷ ss,
      (key_of-ok key label v s read, keys),
      (later, up),
      (first, after_all previous s first ss later),
    )
  where
    after_all :
        (previous : Option String) (s : String)
        → is_after previous s ≡ true
        → (ss : List String) → All (λ t. text_before s t ≡ true) ss
        → All (λ t. is_after previous t ≡ true) ss
    after_all none s first ss later = All-mono (λ t h. refl) ss later
    after_all (some p) s first ss later = All-mono (λ t h. text_before_trans p s t first h) ss later

-- A series that passes has a key in each entry, and each key is strictly before every later one: no
-- bucket stands there twice, and none out of its order.
pub assert_increasing-Ascending :
    (vs : List Json) (key label : String)
    → assert_increasing vs key label ≡ ok tt
    → (ss : List String) × Pointwise (λ v s. get key v ≡ some (string s)) vs ss × Ascending ss
unfolding assert_increasing
assert_increasing-Ascending vs key label h =
    let (ss, keys, up, later) = assert_from-ok none vs key label h in (ss, keys, up)
