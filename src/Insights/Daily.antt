-- ===== src/Insights/Daily.antt =====
-- `sanitizeMetadata` and `sanitizeDailyInsights`.
pub mod Laws
use leitstand.Common.{
  ℕ, Bool, true, false, not, ◌&&◌, ◌||◌, String, ◌==◌, Option, none, some, List, [], ◌∷◌, nat_eq,
  ltb, leb, if◌then◌else◌,
}
use leitstand.Common.Text.{trim}
use leitstand.Json.{
  Json, JsonNumber, finite, infinite, number, string, object, Members, end, member, get, get_member,
  as_string, string_or,
}
use leitstand.Host.{Host}
use leitstand.Loading.Files.{ReadError, read, unread, read_json_file}
use leitstand.Insights.Items.{Topic, IndexedItems, as_topic, as_text, sanitize_indexed_items}
use leitstand.Insights.References.{DataRefs, sanitize_data_refs, remap_data_refs}

pub record DailyInsights : Type 0 where
  pub ts : String
  pub topics : List Topic
  pub questions : List String
  pub deltas : List String
  pub source : Option String
  pub data_refs : Option DataRefs
  pub metadata : Option Json

-- `delete metadata.key` unless its value passes.
abbrev pub keep_if : Bool → String → Members → Members
keep_if passes key end = end
keep_if passes key (member k v rest) =
    let later = keep_if passes key rest in if k == key && not passes then rest else member k v later

abbrev is_string_member : Option Json → Bool
is_string_member (some (string s)) = true
is_string_member _ = false

-- A finite number that is not below 0 and not above 1; the zero with a sign is not below 0.
abbrev pub is_uncertainty : Option Json → Bool
is_uncertainty (some (number (finite negative whole fraction))) =
    (nat_eq whole 0 && (nat_eq fraction 0 || not negative))
    || (nat_eq whole 1 && nat_eq fraction 0 && not negative)
is_uncertainty _ = false

abbrev or_absent : Members → Option Json
or_absent end = none
or_absent (member k v rest) = some (object (member k v rest))

unfoldable pub sanitize_metadata : Option Json → Option Json
sanitize_metadata (some (object ms)) =
    let dated = keep_if (is_string_member (get_member "generated_at" ms)) "generated_at" ms in
    let referred =
      keep_if (is_string_member (get_member "observatory_ref" ms)) "observatory_ref" dated in
    or_absent (keep_if (is_uncertainty (get_member "uncertainty" ms)) "uncertainty" referred)
sanitize_metadata _ = none

abbrev is_empty {ℓ} : {A : Type ℓ} → List A → Bool
is_empty [] = true
is_empty (x ∷ xs) = false

-- The value that is returned in the end.
abbrev insights_of : Members → DailyInsights
insights_of ms =
    let raw = object ms in
    let topics = sanitize_indexed_items as_topic (get "topics" raw) in
    let questions = sanitize_indexed_items as_text (get "questions" raw) in
    let deltas = sanitize_indexed_items as_text (get "deltas" raw) in
    record {
      ts = trim (string_or "" (get "ts" raw));
      topics = topics.kept;
      questions = questions.kept;
      deltas = deltas.kept;
      source = as_string (get "source" raw);
      data_refs =
          remap_data_refs (sanitize_data_refs (get "data_refs" raw)) topics.index_map
            questions.index_map deltas.index_map;
      metadata = sanitize_metadata (get "metadata" raw);
    }

-- `options?.requireTs` is `require_ts`.
unfoldable pub sanitize_daily_insights : Json → Bool → Option DailyInsights
sanitize_daily_insights (object ms) require_ts =
    let r = insights_of ms in
    if require_ts && r.ts == ""
    then none
    else if r.ts == "" && is_empty r.topics && is_empty r.questions && is_empty r.deltas
    then none
    else some r
sanitize_daily_insights _ require_ts = none

-- `loadDailyInsights`: an error of the read goes through; what the sanitizer refuses is an error too.
pub data LoadedInsights : Type 0 where
  loaded : DailyInsights → LoadedInsights
  unreadable : ReadError → LoadedInsights
  failure : (message : String) → LoadedInsights

unfoldable pub load_daily_insights : Host → String → LoadedInsights
unfolding sanitize_daily_insights
load_daily_insights H path = elim (read_json_file H path) [
  | unread e ↦ unreadable e
  | read raw ↦ elim (sanitize_daily_insights raw true) [
    | none ↦ failure "Invalid insights payload: missing or invalid required fields"
    | some insights ↦ loaded insights
  ]
]
