-- ===== src/DecisionAxis/Parse.antt =====
-- `parseItem` and `parseSnapshot`.
pub mod Sections
use leitstand.Common.{
  Bool, true, false, not, ◌&&◌, ◌||◌, String, ◌==◌, ◌<>◌, Option, none, some, List, [], ◌∷◌, take,
  Result, ok, err, ◌>>=◌, ◌>>◌, require, traverse, if◌then◌else◌,
}
use leitstand.Json.{
  Json, get, get_in, is_object, is_record, as_string, string_or, as_array, is_text, is_number,
  string_array, non_empty_or,
}
use leitstand.Host.{Host}
use leitstand.Snapshot.{
  FreshnessState, fresh, stale, freshness_within, operational_snapshot_stale_after_ms,
}

pub data SectionStatus : Type 0 where
  available unknown unavailable : SectionStatus

pub data SectionId : Type 0 where
  now focus blocked convergence later : SectionId

pub record AxisItem : Type 0 where
  pub id : String
  pub title : String
  pub detail : String
  pub item_meta : String

-- The label is the one of the id.
pub record AxisSection : Type 0 where
  pub id : SectionId
  pub label : String
  pub status : SectionStatus
  pub source : String
  pub observed_at : Option String
  pub freshness_state : FreshnessState
  pub items : List AxisItem

pub record Parsed : Type 0 where
  pub sections : List AxisSection
  pub generated_at : Option String
  pub does_not_establish : List String

abbrev pub contract_kind : String
contract_kind = "leitstand_operator_decision_axis_snapshot"

abbrev pub section_order : List SectionId
section_order = now ∷ focus ∷ blocked ∷ convergence ∷ later ∷ []

abbrev pub id_name : SectionId → String
id_name now = "now"
id_name focus = "focus"
id_name blocked = "blocked"
id_name convergence = "convergence"
id_name later = "later"

abbrev pub label_of : SectionId → String
label_of now = "Jetzt"
label_of focus = "Im Fokus"
label_of blocked = "Blockiert"
label_of convergence = "Konvergenz"
label_of later = "Danach"

abbrev pub default_non_claims : List String
default_non_claims =
    "task_or_priority_authority" ∷ "queue_truth" ∷ "focus_authority"
    ∷ "runtime_or_convergence_authority" ∷ "dispatch_or_mutation_authority" ∷ []

unfoldable pub parse_item : Json → Result AxisItem
parse_item raw = do
  require (is_object raw) "invalid decision-axis item"
  let id = string_or "" (get "id" raw)
  let title = string_or "" (get "title" raw)
  require (not (id == "") && not (title == "")) "invalid decision-axis item identity"
  ok (record {
    id = id;
    title = title;
    detail = string_or "" (get "detail" raw);
    item_meta = string_or "" (get "meta" raw);
  })

abbrev status_of : Option Json → Option SectionStatus
status_of v =
    if is_text v "available"
    then some available
    else if is_text v "unknown"
    then some unknown
    else if is_text v "unavailable"
    then some unavailable
    else none

abbrev or_throw {ℓ} : {A : Type ℓ} → Option A → String → Result A
or_throw none message = err message
or_throw (some a) message = ok a

abbrev named_source : Option Json → String
named_source v = let s = string_or "" v in if s == "" then "unknown" else s

abbrev first_items : Option (List Json) → Result (List AxisItem)
first_items none = ok []
first_items (some vs) = traverse parse_item (take 8 vs)

abbrev pub is_fresh : FreshnessState → Bool
is_fresh fresh = true
is_fresh _ = false

-- Only an object holds sections.
abbrev sections_or_throw : Option Json → Result Json
sections_or_throw none = err "invalid decision-axis sections"
sections_or_throw (some v) = if is_record v then ok v else err "invalid decision-axis sections"

abbrev section_or_throw : Option Json → SectionId → Result Json
section_or_throw none id = err ("missing decision-axis section " <> id_name id)
section_or_throw (some v) id =
    if is_object v then ok v else err ("missing decision-axis section " <> id_name id)

module _ (H : Host) where
  abbrev pub freshness_of : Option String → FreshnessState
  freshness_of = freshness_within H operational_snapshot_stale_after_ms

  unfoldable pub section_of :
      SectionId → SectionStatus → String → Option String → List AxisItem → AxisSection
  section_of id status source observed_at items = record {
    id = id;
    label = label_of id;
    status = if is_fresh (freshness_of observed_at) then status else unavailable;
    source = source;
    observed_at = observed_at;
    freshness_state = freshness_of observed_at;
    items = if is_fresh (freshness_of observed_at) then items else [];
  }

  unfoldable pub parse_section : Json → SectionId → Result AxisSection
  unfolding parse_item section_of
  parse_section sections id = do
    section ← section_or_throw (get (id_name id) sections) id
    status ←
        or_throw (status_of (get "status" section))
          ("invalid decision-axis section status " <> id_name id)
    items ← first_items (as_array (get "items" section))
    let observed_at = as_string (get "observedAt" section)
    ok (section_of id status (named_source (get "source" section)) observed_at items)

  unfoldable pub parse_snapshot : Json → Result Parsed
  unfolding parse_section
  parse_snapshot raw = do
    require (is_object raw) "invalid decision-axis snapshot"
    require (is_number (get "schemaVersion" raw) 1 && is_text (get "kind" raw) contract_kind)
        "invalid decision-axis snapshot contract"
    object ← sections_or_throw (get "sections" raw)
    sections ← traverse (parse_section object) section_order
    ok (record {
      sections = sections;
      generated_at = as_string (get "generatedAt" raw);
      does_not_establish =
          non_empty_or (string_array (get "doesNotEstablish" raw)) default_non_claims;
    })
