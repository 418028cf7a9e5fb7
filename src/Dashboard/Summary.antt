-- ===== src/Dashboard/Summary.antt =====
-- `summarizeDashboard`.
pub mod Laws
pub mod Order
use leitstand.Common.{
  ℕ, zero, suc, Bool, true, false, ◌||◌, ◌&&◌, String, ◌==◌, ◌<>◌, Option, none, some, List, [],
  ◌∷◌, nat_eq, leb, any, count, length, filter_map, sort_by, if◌then◌else◌,
}
use leitstand.Common.Text.{print}
use leitstand.Snapshot.{FreshnessState, fresh}
use leitstand.Dashboard.Sources.{
  Kind, artifact, missing, error, corrupt, Source, Severity, warning, info, AttentionItem,
  summarize_source,
}

pub data State : Type 0 where
  healthy attention critical : State

pub record Summary : Type 0 where
  pub state : State
  pub state_label : String
  pub headline : String
  pub total_count : ℕ
  pub verified_fresh_count : ℕ
  pub attention_count : ℕ
  pub unavailable_count : ℕ
  pub attention : List AttentionItem

abbrev pub severity_rank : Severity → ℕ
severity_rank Severity.critical = 0
severity_rank warning = 1
severity_rank info = 2

abbrev pub next_index : ℕ → ℕ
next_index zero = 0
next_index (suc i) = suc (suc i)

-- `sources.findIndex((s) => s.id === id)`, plus one.
abbrev pub index_of : String → List Source → ℕ
index_of id [] = 0
index_of id (s ∷ ss) = if s.id == id then 1 else next_index (index_of id ss)

abbrev pub before : List Source → AttentionItem → AttentionItem → Bool
before sources left right =
    if nat_eq (severity_rank left.severity) (severity_rank right.severity)
    then leb (index_of left.source_id sources) (index_of right.source_id sources)
    else leb (severity_rank left.severity) (severity_rank right.severity)

abbrev pub is_unavailable : Source → Bool
is_unavailable s = elim s.source_kind [ missing ↦ true | error ↦ true | corrupt ↦ true | _ ↦ false ]

abbrev pub is_artifact : Kind → Bool
is_artifact artifact = true
is_artifact _ = false

abbrev pub is_fresh : FreshnessState → Bool
is_fresh fresh = true
is_fresh _ = false

abbrev pub is_verified_fresh : Source → Bool
is_verified_fresh s = is_artifact s.source_kind && is_fresh s.freshness_state

abbrev pub is_critical : AttentionItem → Bool
is_critical i = nat_eq (severity_rank i.severity) 0

abbrev pub attention_of : List Source → List AttentionItem
attention_of sources = sort_by (before sources) (filter_map summarize_source sources)

critical_summary : List Source → List AttentionItem → Summary
unfolding print
critical_summary sources items =
    let unavailable = count is_unavailable sources in
    record {
      state = critical;
      state_label = "Kritisch";
      headline =
          print unavailable
          <> " "
          <> (if nat_eq unavailable 1 then "Bereich liefert" else "Bereiche liefern")
          <> " keine belastbaren Daten";
      total_count = length sources;
      verified_fresh_count = count is_verified_fresh sources;
      attention_count = length items;
      unavailable_count = unavailable;
      attention = items;
    }

attention_summary : List Source → List AttentionItem → Summary
unfolding print
attention_summary sources items = record {
  state = attention;
  state_label = "Prüfbedarf";
  headline =
      print (length items)
      <> " "
      <> (if nat_eq (length items) 1 then "Bereich benötigt" else "Bereiche benötigen")
      <> " Prüfung";
  total_count = length sources;
  verified_fresh_count = count is_verified_fresh sources;
  attention_count = length items;
  unavailable_count = count is_unavailable sources;
  attention = items;
}

healthy_summary : List Source → Summary
healthy_summary sources = record {
  state = healthy;
  state_label = "Stabil";
  headline = "Alle Bereiche liefern frische Artefakte";
  total_count = length sources;
  verified_fresh_count = count is_verified_fresh sources;
  attention_count = 0;
  unavailable_count = 0;
  attention = [];
}

abbrev pub is_empty {ℓ} : {A : Type ℓ} → List A → Bool
is_empty [] = true
is_empty (x ∷ xs) = false

unfoldable pub summarize_dashboard : List Source → Summary
unfolding critical_summary attention_summary healthy_summary
summarize_dashboard sources =
    let items = attention_of sources in
    if any is_critical items
    then critical_summary sources items
    else if is_empty items
    then healthy_summary sources
    else attention_summary sources items
