-- ===== src/Insights/Items.antt =====
-- `isTopic`, `isString`, `sanitizeIndexedItems`.
pub mod Laws
use leitstand.Common.{ℕ, zero, suc, String, Option, none, some, List, [], ◌∷◌}
use leitstand.Json.{Json, JsonNumber, finite, infinite, number, string, array, nil, cons, items}

pub record Topic : Type 0 where
  pub name : String
  pub frequency : JsonNumber

-- The value as a topic: a pair of a text and a finite number.
abbrev pub as_topic : Json → Option Topic
as_topic (array (cons (string name) (cons (number (finite negative whole fraction)) nil))) =
    some (record { name = name; frequency = finite negative whole fraction })
as_topic _ = none

abbrev pub as_text : Json → Option String
as_text (string s) = some s
as_text _ = none

-- The items that are kept, and for the index of each its index among them.
pub record IndexedItems (T : Type 0) : Type 0 where
  pub kept : List T
  pub index_map : List (ℕ × ℕ)

abbrev pub nothing_kept : {T : Type 0} → IndexedItems T
nothing_kept = record { kept = []; index_map = [] }

abbrev pub keep : {T : Type 0} → T → ℕ → ℕ → IndexedItems T → IndexedItems T
keep t index next later = record {
  kept = t ∷ later.kept;
  index_map = (index, next) ∷ later.index_map;
}

-- The loop, from an index on; `next` is `items.length`.
abbrev pub indexed_from : {T : Type 0} → (Json → Option T) → List Json → ℕ → ℕ → IndexedItems T
indexed_from valid [] index next = nothing_kept
indexed_from valid (v ∷ vs) index next = elim (valid v) [
  | none ↦ indexed_from valid vs (suc index) next
  | some t ↦ keep t index next (indexed_from valid vs (suc index) (suc next))
]

unfoldable pub sanitize_indexed_items :
    {T : Type 0} → (Json → Option T) → Option Json → IndexedItems T
sanitize_indexed_items valid (some (array vs)) = indexed_from valid (items vs) 0 0
sanitize_indexed_items valid _ = nothing_kept
