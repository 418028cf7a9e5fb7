-- ===== src/Json/Laws.antt =====
-- What the reads of a value tell about it.
use leitstand.Common.{
  ◌≡◌, refl, ◌≢◌, ◌↔◌, true, false, String, eq_iff, Option, none, some, List, arith,
}
use leitstand.Json.{
  Json, null, boolean, number, string, array, object, finite, infinite, Items, items, get,
  is_object, as_array, is_text, is_number, string_or,
}

abbrev pub one : Json
one = number (finite false 1 0)

pub is_text_iff : (v : Option Json) (t : String) → (is_text v t ≡ true) ↔ (v ≡ some (string t))
is_text_iff (some (string s)) t = ground (arith, eq_iff s t)
is_text_iff none t = ground arith
is_text_iff (some null) t = ground arith
is_text_iff (some (boolean b)) t = ground arith
is_text_iff (some (number n)) t = ground arith
is_text_iff (some (array vs)) t = ground arith
is_text_iff (some (object ms)) t = ground arith

pub is_number-one_iff : (v : Option Json) → (is_number v 1 ≡ true) ↔ (v ≡ some one)
is_number-one_iff (some (number (finite false w f))) = ground arith
is_number-one_iff (some (number (finite true w f))) = ground arith
is_number-one_iff (some (number (infinite b))) = ground arith
is_number-one_iff none = ground arith
is_number-one_iff (some null) = ground arith
is_number-one_iff (some (boolean b)) = ground arith
is_number-one_iff (some (string s)) = ground arith
is_number-one_iff (some (array vs)) = ground arith
is_number-one_iff (some (object ms)) = ground arith

pub as_array-some_iff :
    (v : Option Json) (vs : List Json)
    → (as_array v ≡ some vs) ↔ ((us : Items) × (v ≡ some (array us)) × (items us ≡ vs))
as_array-some_iff (some (array us)) vs = (λ h. (us, refl, ground arith), λ (ws, e, f). ground arith)
as_array-some_iff none vs = (λ h. cc, λ (ws, e, f). cc)
as_array-some_iff (some null) vs = (λ h. cc, λ (ws, e, f). cc)
as_array-some_iff (some (boolean b)) vs = (λ h. cc, λ (ws, e, f). cc)
as_array-some_iff (some (number n)) vs = (λ h. cc, λ (ws, e, f). cc)
as_array-some_iff (some (string s)) vs = (λ h. cc, λ (ws, e, f). cc)
as_array-some_iff (some (object ms)) vs = (λ h. cc, λ (ws, e, f). cc)

-- A property that reads as text which is not empty is there as that text.
pub string_or-empty_iff :
    (v : Option Json) (s : String) → s ≢ "" → (string_or "" v ≡ s) ↔ (v ≡ some (string s))
string_or-empty_iff (some (string t)) s named = ground arith
string_or-empty_iff none s named = ground arith
string_or-empty_iff (some null) s named = ground arith
string_or-empty_iff (some (boolean b)) s named = ground arith
string_or-empty_iff (some (number n)) s named = ground arith
string_or-empty_iff (some (array vs)) s named = ground arith
string_or-empty_iff (some (object ms)) s named = ground arith

-- Only an object has properties.
pub get-some_object : (key : String) (raw v : Json) → get key raw ≡ some v → is_object raw ≡ true
get-some_object key (object ms) v h = refl
get-some_object key null v h = cc
get-some_object key (boolean b) v h = cc
get-some_object key (number n) v h = cc
get-some_object key (string s) v h = cc
get-some_object key (array vs) v h = refl
