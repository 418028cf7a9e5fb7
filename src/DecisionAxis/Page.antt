-- ===== src/DecisionAxis/Page.antt =====
-- `emptyData` and `getDecisionAxisData`.
pub mod Laws
use leitstand.Common.{
  Bool, true, false, ◌||◌, String, Option, none, some, List, [], ◌∷◌, map, Result, ok, err, ◌>>=◌,
  if◌then◌else◌,
}
use leitstand.Json.{Json}
use leitstand.Host.{Host, by_message}
use leitstand.Snapshot.{
  SourceKind, artifact, missing, corrupt, FreshnessState, says, text_or, display_source_path,
}
use leitstand.DecisionAxis.Parse.{
  SectionStatus, unavailable, SectionId, AxisSection, Parsed, section_order, label_of, is_fresh,
  default_non_claims, freshness_of, parse_snapshot,
}

pub record ViewMeta : Type 0 where
  pub source_kind : SourceKind
  pub source_path : String
  pub source_path_display : String
  pub missing_reason : String
  pub generated_at : Option String
  pub freshness_state : FreshnessState
  pub does_not_establish : List String

pub record ViewData : Type 0 where
  pub sections : List AxisSection
  pub view_meta : ViewMeta

abbrev pub empty_section : SectionId → AxisSection
empty_section id = record {
  id = id;
  label = label_of id;
  status = unavailable;
  source = "unknown";
  observed_at = none;
  freshness_state = FreshnessState.unknown;
  items = [];
}

-- The section of a snapshot that is not fresh as a whole.
abbrev pub withdrawn : AxisSection → AxisSection
withdrawn section = record section { status = unavailable; items = [] }

module _ (H : Host) where
  abbrev pub snapshot_path : String
  snapshot_path =
      text_or (H.env "LEITSTAND_DECISION_AXIS_SNAPSHOT_PATH")
        (H.join (H.cwd ∷ "artifacts" ∷ "operator-decision-axis.json" ∷ []))

  unfoldable pub empty_data : SourceKind → String → String → ViewData
  empty_data kind reason source_path = record {
    sections = map empty_section section_order;
    view_meta = record {
      source_kind = kind;
      source_path = source_path;
      source_path_display = display_source_path H source_path (H.resolve H.cwd);
      missing_reason = reason;
      generated_at = none;
      freshness_state = FreshnessState.unknown;
      does_not_establish = default_non_claims;
    };
  }

  -- The `return` of the `try` block.
  unfoldable pub data_from_parsed : Parsed → String → ViewData
  data_from_parsed parsed source_path =
      let freshness = freshness_of H parsed.generated_at in
      record {
        sections = if is_fresh freshness then parsed.sections else map withdrawn parsed.sections;
        view_meta = record {
          source_kind = artifact;
          source_path = source_path;
          source_path_display = display_source_path H source_path (H.resolve H.cwd);
          missing_reason = if is_fresh freshness then "ok" else "decision_axis_snapshot_not_fresh";
          generated_at = parsed.generated_at;
          freshness_state = freshness;
          does_not_establish = parsed.does_not_establish;
        };
      }

  unfoldable pub load : String → Result Parsed
  load source_path = do
    text ← by_message (H.read_file source_path)
    raw ← H.parse_json text
    parse_snapshot H raw

  unfoldable pub get_decision_axis_data : ViewData
  get_decision_axis_data =
      let source_path = H.resolve snapshot_path in
      elim (load source_path) [
        | ok parsed ↦ data_from_parsed parsed source_path
        | err message ↦
            if says message "enoent" || says message "no such file"
            then empty_data missing "decision_axis_snapshot_missing" source_path
            else empty_data corrupt "decision_axis_snapshot_corrupt" source_path
      ]
