-- ===== src/StorageHealth/Series.antt =====
-- `assertIncreasing`: the series of an accepted snapshot are strictly increasing.
pub mod Laws
use leitstand.Common.{
  ◌≡◌, refl, Bool, true, false, ◌&&◌, ◌||◌, String, ◌<>◌, Option, none, some, List, [], ◌∷◌, Result,
  ok, err, ◌>>=◌, ◌>>◌, require, All, All-mono, ℕ, nat_eq, ltb, >>=-eq-ok, arith, inl, inr,
  Bool-cases,
}
use leitstand.Common.Text.{codes, units, before_units, text_before}
use leitstand.Json.{Json, get}
use leitstand.StorageHealth.Values.{object_value, string_value}

abbrev is_after : Option String → String → Bool
is_after none current = true
is_after (some previous) current = text_before previous current

abbrev key_of : String → String → Json → Result String
key_of key label raw = do
  item ← object_value (some raw) label
  string_value (get key item) (label <> "." <> key)

abbrev assert_from : Option String → List Json → String → String → Result (Unit {0})
assert_from previous [] key label = ok tt
assert_from previous (raw ∷ raws) key label = key_of key label raw >>= λ current.
    require (is_after previous current) ("invalid " <> label <> ": not strictly increasing")
    >> assert_from (some current) raws key label

unfoldable pub assert_increasing : List Json → String → String → Result (Unit {0})
assert_increasing values key label = assert_from none values key label
