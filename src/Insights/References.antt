-- ===== src/Insights/References.antt =====
-- The references of the insights: from `sanitizeDataRefEntry` to `remapDataRefsToSanitizedContent`. A
-- record whose keys are numbers is an association list whose order is not that of the record.
pub mod Laws
pub mod Anchors
use leitstand.Common.{
  ℕ, zero, suc, ◌+◌, ◌-◌, ◌*◌, Bool, true, false, not, ◌&&◌, ◌||◌, String, ◌==◌, Option, none, some,
  List, [], ◌∷◌, map, filter, nat_eq, leb, if◌then◌else◌,
}
use leitstand.Common.Text.{codes, trim, starts, print}
use leitstand.Json.{Json, object, Members, end, member, get, string_or, string_array, is_record}

pub record DataRefEntry : Type 0 where
  pub refs : List String
  pub drilldown_url : Option String

abbrev pub Section : Type 0
Section = List (ℕ × DataRefEntry)

pub record DataRefs : Type 0 where
  pub topics : Option Section
  pub questions : Option Section
  pub deltas : Option Section

-- `/^\/(?!\/)/`
unfoldable pub is_safe_drilldown_url : String → Bool
is_safe_drilldown_url s = starts s "/" && not (starts s "//")

abbrev is_named : String → Bool
is_named s = not (s == "")

abbrev drilldown_of : String → Option String
drilldown_of s = if not (s == "") && is_safe_drilldown_url s then some s else none

abbrev entry_of : List String → String → Option DataRefEntry
entry_of [] drilldown = none
entry_of (r ∷ rs) drilldown =
    some (record { refs = r ∷ rs; drilldown_url = drilldown_of drilldown })

unfoldable pub sanitize_data_ref_entry : Json → Option DataRefEntry
sanitize_data_ref_entry (object ms) =
    entry_of (filter is_named (map trim (string_array (get "refs" (object ms)))))
      (trim (string_or "" (get "drilldown_url" (object ms))))
sanitize_data_ref_entry _ = none

-- `/^\d+$/`, and the number that the digits stand for. From 2^53 on the code rounds it; no index of an
-- array is that large, so the renumbering drops such a key in either case.
abbrev pub digits_from : List ℕ → ℕ → Option ℕ
digits_from [] n = some n
digits_from (c ∷ cs) n =
    if leb b'0' c && leb c b'9' then digits_from cs (n * 10 + (c - b'0')) else none

abbrev pub key_number : String → Option ℕ
key_number s = if s == "" then none else digits_from (codes s) 0

-- The section with what `canonicalSources` knows of each key.
abbrev Sources : Type 0
Sources = List (ℕ × (DataRefEntry × Bool))

-- `section[key] = entry`, unless the key is there and is to stay.
abbrev pub put : ℕ → DataRefEntry → Bool → Sources → Sources
put n entry canonical [] = (n, (entry, canonical)) ∷ []
put n entry canonical ((m, (old, is_canonical)) ∷ rest) =
    let later = put n entry canonical rest in
    if nat_eq m n
    then (if not is_canonical && canonical
        then (m, (entry, canonical)) ∷ rest
        else (m, (old, is_canonical)) ∷ rest)
    else (m, (old, is_canonical)) ∷ later

abbrev put_entry : Option ℕ → String → Option DataRefEntry → Sources → Sources
put_entry (some n) key (some entry) sources = put n entry (key == print n) sources
put_entry _ key _ sources = sources

-- The loop over `Object.entries(rawSection)`.
unfoldable pub collect : Members → Sources → Sources
collect end sources = sources
collect (member key v rest) sources =
    collect rest (put_entry (key_number key) key (sanitize_data_ref_entry v) sources)

abbrev pub or_none {ℓ} : {A : Type ℓ} → List A → Option (List A)
or_none [] = none
or_none (x ∷ xs) = some (x ∷ xs)

abbrev without_sources : Sources → Section
without_sources [] = []
without_sources ((n, (entry, canonical)) ∷ rest) = (n, entry) ∷ without_sources rest

unfoldable pub sanitize_data_ref_section : Option Json → Option Section
unfolding collect
sanitize_data_ref_section (some (object ms)) = or_none (without_sources (collect ms []))
sanitize_data_ref_section _ = none

abbrev is_some {ℓ} : {A : Type ℓ} → Option A → Bool
is_some none = false
is_some (some a) = true

-- `undefined` unless one of the sections is there.
abbrev data_refs_of : Option Section → Option Section → Option Section → Option DataRefs
data_refs_of topics questions deltas =
    if is_some topics || is_some questions || is_some deltas
    then some (record { topics = topics; questions = questions; deltas = deltas })
    else none

unfoldable pub sanitize_data_refs : Option Json → Option DataRefs
unfolding sanitize_data_ref_section
sanitize_data_refs (some (object ms)) =
    data_refs_of (sanitize_data_ref_section (get "topics" (object ms)))
      (sanitize_data_ref_section (get "questions" (object ms)))
      (sanitize_data_ref_section (get "deltas" (object ms)))
sanitize_data_refs _ = none

-- `indexMap.get(n)`
abbrev pub index_of : ℕ → List (ℕ × ℕ) → Option ℕ
index_of n [] = none
index_of n ((i, j) ∷ rest) = if nat_eq i n then some j else index_of n rest

abbrev pub remap : Section → List (ℕ × ℕ) → Section
remap [] index_map = []
remap ((n, entry) ∷ rest) index_map = elim (index_of n index_map) [
  | none ↦ remap rest index_map
  | some next ↦ (next, entry) ∷ remap rest index_map
]

-- An empty index map gives an empty section.
unfoldable pub remap_data_ref_section : Option Section → List (ℕ × ℕ) → Option Section
remap_data_ref_section none index_map = none
remap_data_ref_section (some section) index_map = or_none (remap section index_map)

unfoldable pub remap_data_refs :
    Option DataRefs → List (ℕ × ℕ) → List (ℕ × ℕ) → List (ℕ × ℕ) → Option DataRefs
unfolding remap_data_ref_section
remap_data_refs none topics questions deltas = none
remap_data_refs (some refs) topics questions deltas =
    data_refs_of (remap_data_ref_section refs.topics topics)
      (remap_data_ref_section refs.questions questions) (remap_data_ref_section refs.deltas deltas)
