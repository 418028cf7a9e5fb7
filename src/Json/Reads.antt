-- ===== src/Json/Reads.antt =====
-- `typeof` tests, property reads and comparisons on a value that may be `undefined` (`none`).
use leitstand.Common.{
  ℕ, Bool, true, false, ◌&&◌, String, ◌==◌, Option, none, some, List, [], ◌∷◌, nat_eq, leb, suc,
  length, Result, ok, err, if◌then◌else◌,
}
use leitstand.Json.Values.{
  finite, infinite, Json, null, boolean, number, string, array, object, Members, end, member, items,
}

abbrev pub get_member : String → Members → Option Json
get_member key end = none
get_member key (member k v rest) = if k == key then some v else get_member key rest

-- `value.key`; an array has none of the keys that are read.
abbrev pub get : String → Json → Option Json
get key (object ms) = get_member key ms
get key _ = none

-- `value && typeof value === 'object'`, which holds of arrays too.
abbrev pub is_object : Json → Bool
is_object (array _) = true
is_object (object _) = true
is_object _ = false

-- The same, and `!Array.isArray(value)`.
abbrev pub is_record : Json → Bool
is_record (object _) = true
is_record _ = false

-- `typeof value === 'string' ? value : …`
abbrev pub as_string : Option Json → Option String
as_string (some (string s)) = some s
as_string _ = none

-- `typeof value === 'string' ? value : fallback`
abbrev pub string_or : String → Option Json → String
string_or fallback (some (string s)) = s
string_or fallback _ = fallback

-- `Array.isArray(value) ? value : …`
abbrev pub as_array : Option Json → Option (List Json)
as_array (some (array vs)) = some (items vs)
as_array _ = none

-- `value === s`
abbrev pub is_text : Option Json → String → Bool
is_text (some (string s)) t = s == t
is_text _ t = false

-- `value === true`
abbrev pub is_true : Option Json → Bool
is_true (some (boolean b)) = b
is_true _ = false

-- `value === n`, for an `n` that is not 0
abbrev pub is_number : Option Json → ℕ → Bool
is_number (some (number (finite false whole fraction))) n = nat_eq whole n && nat_eq fraction 0
is_number _ n = false

-- `typeof value === 'string' && value.length > 0 ? value : null`
abbrev pub nullable_string : Option Json → Option String
nullable_string (some (string s)) = if s == "" then none else some s
nullable_string _ = none

abbrev strings : List Json → List String
strings [] = []
strings (string s ∷ vs) = s ∷ strings vs
strings (_ ∷ vs) = strings vs

-- `Array.isArray(raw) ? raw.filter((item) => typeof item === 'string') : []`
abbrev pub string_array : Option Json → List String
string_array (some (array vs)) = strings (items vs)
string_array _ = []

-- `list.length > 0 ? list : fallback`
abbrev pub non_empty_or {ℓ} : {A : Type ℓ} → List A → List A → List A
non_empty_or [] fallback = fallback
non_empty_or (x ∷ xs) fallback = x ∷ xs

-- `if (!Array.isArray(value)) throw new Error(message)`
abbrev pub list_or_throw : Option (List Json) → String → Result (List Json)
list_or_throw none message = err message
list_or_throw (some vs) message = ok vs

-- `Array.isArray(value) ? value.length : null`
abbrev pub array_length : Option Json → Option ℕ
array_length (some (array vs)) = some (length (items vs))
array_length _ = none

-- `Object.keys(value).length` of an object that is no array, `null` of all else.
abbrev pub member_count : Members → ℕ
member_count end = 0
member_count (member k v rest) = suc (member_count rest)

abbrev pub key_count : Option Json → Option ℕ
key_count (some (object ms)) = some (member_count ms)
key_count _ = none

-- `Number.isInteger(value) && value > 0`
abbrev pub is_positive_integer : Option Json → Bool
is_positive_integer (some (number (finite false whole fraction))) = leb 1 whole && nat_eq fraction 0
is_positive_integer _ = false

-- `value && typeof value === 'object'` of a value that may be `undefined`.
abbrev pub is_some_object : Option Json → Bool
is_some_object none = false
is_some_object (some v) = is_object v

-- A read through a value that may be `undefined`, where the code has tested that it is an object.
abbrev pub get_in : String → Option Json → Option Json
get_in key none = none
get_in key (some v) = get key v

-- A value that an `if` takes for true.
abbrev pub truthy : Option Json → Option Json
truthy none = none
truthy (some null) = none
truthy (some (boolean b)) = if b then some (boolean b) else none
truthy (some (number (finite negative whole fraction))) =
    if nat_eq whole 0 && nat_eq fraction 0
    then none
    else some (number (finite negative whole fraction))
truthy (some (number (infinite negative))) = some (number (infinite negative))
truthy (some (string s)) = if s == "" then none else some (string s)
truthy (some (array vs)) = some (array vs)
truthy (some (object ms)) = some (object ms)
